-- ===== src/Paging/Entries.antt =====
-- The arithmetic of the entries of directory and tables: frame, present bit and user bit.
use icosaos.Prelude.{
  ℕ, ◌+◌, ◌*◌, ◌/◌, ◌%◌, ◌^◌, ◌<◌, ◌≡◌, refl, ap, Bool, true, not, ◌&&◌, bit_and, bit_or, ◌==◌,
  arith,
}
use icosaos.Prelude.Bits.{
  and-mask, and-page_mask, or-frame, or-entry, or-lt, or-lowest, and-lowest, and-lt, and-zero,
  zero-or,
}
use icosaos.Paging.{pd_index, pt_index, frame_of, is_present, page_present, page_user, page_write}

pub pt_index-mod : (virt : ℕ) → pt_index virt ≡ virt / 4096 % 1024
unfolding pt_index
pt_index-mod virt = and-mask 10 (virt / 4096)

pub frame_of-div : (entry : ℕ) → entry < 2 ^ 32 → frame_of entry ≡ entry / 4096 * 4096
unfolding frame_of
frame_of-div entry h = and-page_mask entry h

pub is_present-mod : (entry : ℕ) → is_present entry ≡ not (entry % 2 == 0)
unfolding is_present
is_present-mod entry = rw (and-mask 1 entry)

pub present_test : (entry : ℕ) → (bit_and entry page_present == 0) ≡ not (is_present entry)
unfolding is_present
present_test entry = ground arith

-- What an entry allows: writing, and user mode.
abbrev pub is_writable : ℕ → Bool
is_writable entry = entry / 2 % 2 == 1

abbrev pub is_user : ℕ → Bool
is_user entry = entry / 4 % 2 == 1

pub user_test : (flags : ℕ) → (bit_and flags page_user == 0) ≡ not (is_user flags)
user_test flags = ground (
  arith,
  and-lowest flags 4,
  and-lowest (flags / 2) 2,
  and-lowest (flags / 2 / 2) 1,
  and-zero (flags / 2 / 2 / 2),
)

-- Two pages are the same when both indices are.
pub same_page :
    (v w : ℕ) → (v / 4096 == w / 4096) ≡ ((pd_index v == pd_index w) && (pt_index v == pt_index w))
unfolding pd_index
same_page v w = ground (arith, pt_index-mod v, pt_index-mod w)

-- A leaf entry: the frame of an address, and flags below the page size.
pub leaf_entry :
    (phys flags : ℕ)
    → phys < 2 ^ 32
    → flags < 4096
    → bit_or (frame_of phys) flags ≡ phys / 4096 * 4096 + flags
leaf_entry phys flags h f = rw (frame_of-div phys h) (or-frame (phys / 4096) flags f)

-- The entry of a new table: its frame, present and writable.
abbrev pub pd_flags : ℕ → ℕ
pd_flags flags = bit_or (bit_or page_present page_write) (bit_and flags page_user)

pd_flags-bounds :
    (flags : ℕ)
    → (pd_flags flags < 8)
      × (pd_flags flags % 2 ≡ 1)
      × (pd_flags flags / 2 % 2 ≡ 1)
      × (pd_flags flags / 4 % 2 ≡ flags / 4 % 2)
pd_flags-bounds flags = (
  or-lt 3 3 (bit_and flags 4) (omega arith) (and-lt 3 flags 4 (omega arith)),
  omega (arith, or-lowest 3 (bit_and flags 4)),
  omega (arith, or-lowest 3 (bit_and flags 4), or-lowest 1 (bit_and flags 4 / 2)),
  omega (
    arith,
    or-lowest 3 (bit_and flags 4),
    or-lowest 1 (bit_and flags 4 / 2),
    or-lowest 0 (bit_and flags 4 / 2 / 2),
    zero-or (bit_and flags 4 / 2 / 2),
    and-lowest flags 4,
    and-lowest (flags / 2) 2,
    and-lowest (flags / 2 / 2) 1,
    and-zero (flags / 2 / 2 / 2),
  ),
)

pub new_entry :
    (p flags : ℕ)
    → p < 2 ^ 20
    → (bit_or (p * 4096) (pd_flags flags) < 2 ^ 32)
      × (bit_or (p * 4096) (pd_flags flags) / 4096 ≡ p)
      × (is_present (bit_or (p * 4096) (pd_flags flags)) ≡ true)
      × (is_writable (bit_or (p * 4096) (pd_flags flags)) ≡ true)
      × (is_user (bit_or (p * 4096) (pd_flags flags)) ≡ is_user flags)
new_entry p flags h =
    let (small, odd, write, user) = pd_flags-bounds flags in
    let e = or-frame p (pd_flags flags) (omega arith) in
    rw e (omega arith, omega arith, rw is_present-mod (ground arith), ground arith, ground arith)

-- Setting the user bit keeps the frame and the present bit.
pub user_entry :
    (entry : ℕ)
    → entry < 2 ^ 32
    → (bit_or entry page_user < 2 ^ 32)
      × (bit_or entry page_user / 4096 ≡ entry / 4096)
      × (is_present (bit_or entry page_user) ≡ is_present entry)
      × (is_writable (bit_or entry page_user) ≡ is_writable entry)
      × (is_user (bit_or entry page_user) ≡ true)
user_entry entry h =
    let split : entry / 4096 * 4096 + entry % 4096 ≡ entry = omega arith in
    let e = rw split at (or-entry (entry / 4096) (entry % 4096) 4 (omega arith) (omega arith)) in
    let lt = or-lt 12 (entry % 4096) 4 (omega arith) (omega arith) in
    let low = or-lowest (entry % 4096) 4 in
    let write : bit_or entry page_user / 2 % 2 ≡ entry / 2 % 2 =
      omega (arith, or-lowest entry 4, or-lowest (entry / 2) 2) in
    let user : bit_or entry page_user / 4 % 2 ≡ 1 =
      omega (arith, or-lowest entry 4, or-lowest (entry / 2) 2, or-lowest (entry / 2 / 2) 1) in
    (
      omega (arith, e),
      omega (arith, e),
      rw (is_present-mod, is_present-mod) (ap (λ (x : ℕ). not (x == 0)) (omega (arith, e))),
      rw write refl,
      rw user refl,
    )
