-- ===== src/Paging.antt =====
-- src/kernel/paging.c: the two-level page tables. Physical memory holds the tables as 32-bit words
-- by byte address; the directory is an array of its own. Tables are reached through their physical
-- addresses, as the code does. `invlpg` is recorded in a log of flushed addresses.
pub mod Entries
pub mod Spec
pub mod Tables
pub mod Map
pub mod Start
use icosaos.Prelude.{
  ℕ, zero, suc, ◌+◌, ◌*◌, ◌/◌, ◌<◌, Bool, true, false, not, Option, none, some, List, [], ◌∷◌,
  bit_and, bit_or, update, not32, ◌==◌, ltb, if◌then◌else◌, ◌>>>◌, add32, mul32, Run, ok,
  out_of_fuel, ◌>>=◌,
}
use icosaos.Memory.{Allocator, alloc_page, null, page_size}

abbrev pub page_present : ℕ
page_present = 0x1

abbrev pub page_write : ℕ
page_write = 0x2

abbrev pub page_user : ℕ
page_user = 0x4

pub record Machine : Type 0 where
  pub frames : Allocator
  pub directory : ℕ → ℕ
  pub words : ℕ → ℕ
  pub flushed : List ℕ

-- The indices of an address, and the frame of an entry.
unfoldable pub pd_index : ℕ → ℕ
pd_index virt = virt >>> 22

unfoldable pub pt_index : ℕ → ℕ
pt_index virt = bit_and (virt >>> 12) 0x3FF

unfoldable pub frame_of : ℕ → ℕ
frame_of entry = bit_and entry (not32 0xFFF)

unfoldable pub is_present : ℕ → Bool
is_present entry = not (bit_and entry page_present == 0)

-- `for (i = 0; i < 1024; i++) new_pt[i] = 0`, with `n` rounds left.
unfoldable pub clear_table : ℕ → ℕ → ℕ → (ℕ → ℕ) → ℕ → ℕ
clear_table zero i table words = words
clear_table (suc n) i table words = clear_table n (i + 1) table (update words (table + 4 * i) 0)

-- The table for an entry of the directory, made if there is none; `none` when no frame is left.
unfoldable pub table_for : ℕ → ℕ → Machine → Option (ℕ × Machine)
table_for pd flags m =
    let entry = m.directory pd in
    let (new_pt, frames) = alloc_page m.frames in
    let pd_flags = bit_or (bit_or page_present page_write) (bit_and flags page_user) in
    let made = record m {
      frames = frames;
      words = clear_table 1024 0 new_pt m.words;
      directory = update m.directory pd (bit_or new_pt pd_flags);
    } in
    let widened =
      if bit_and flags page_user == 0
      then m
      else record m { directory = update m.directory pd (bit_or entry page_user) } in
    if bit_and entry page_present == 0
    then if new_pt == null then none else some (new_pt, made)
    else some (frame_of (widened.directory pd), widened)

unfoldable pub map_page : ℕ → ℕ → ℕ → Machine → Bool × Machine
map_page virt phys flags m = elim (table_for (pd_index virt) flags m) [
  | none ↦ (false, record m { frames = (alloc_page m.frames).1 })
  | some (page_table, m') ↦ (
    true,
    record m' {
      words = update m'.words (page_table + 4 * pt_index virt) (bit_or (frame_of phys) flags);
      flushed = virt ∷ m'.flushed;
    },
  )
]

unfoldable pub unmap_page : ℕ → Machine → Machine
unmap_page virt m =
    let entry = m.directory (pd_index virt) in
    if bit_and entry page_present == 0 then m else record m {
      words = update m.words (frame_of entry + 4 * pt_index virt) 0;
      flushed = virt ∷ m.flushed;
    }

-- The loops of `init_paging`: the identity map of the first 4 MiB, and the one of the framebuffer.
unfoldable pub identity_table : ℕ → ℕ → ℕ → (ℕ → ℕ) → ℕ → ℕ
identity_table zero i table words = words
identity_table (suc n) i table words =
    identity_table n (i + 1) table
      (update words (table + 4 * i) (bit_or (bit_or (mul32 i page_size) page_present) page_write))

unfoldable pub map_framebuffer : ℕ → ℕ → ℕ → ℕ → Machine → Run Machine
map_framebuffer zero addr total offset m = out_of_fuel
map_framebuffer (suc fuel) addr total offset m =
    let current = add32 addr offset in
    let rest =
      map_framebuffer fuel addr total (add32 offset page_size)
        (map_page current current (bit_or page_present page_write) m).1 in
    if ltb offset total then rest else ok m

-- The end of `init_paging`: `panicked` when no frame is left for the first table.
pub data Started : Type 0 where
  running : Machine → Started
  panicked : Started

unfoldable pub init_paging : ℕ → ℕ → ℕ → ℕ → Machine → Run Started
init_paging fuel fb_phys_addr fb_pitch_bytes fb_height m =
    let (first_page_table, frames) = alloc_page m.frames in
    let base = record m {
      frames = frames;
      words = identity_table 1024 0 first_page_table m.words;
      directory = update (λ _. 0) 0 (bit_or (bit_or first_page_table page_present) page_write);
    } in
    let fb_total_bytes = mul32 fb_pitch_bytes fb_height in
    if first_page_table == null
    then ok panicked
    else if fb_phys_addr == 0
    then ok (running base)
    else do mapped ← map_framebuffer fuel fb_phys_addr fb_total_bytes 0 base; ok (running mapped)
