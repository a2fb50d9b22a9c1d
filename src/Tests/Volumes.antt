-- ===== src/Tests/Volumes.antt =====
-- A stack of blocks of 2048 bytes as the heap, and a disk whose table leads from cluster 2 to cluster
-- 3.
use icosaos.Prelude.{
  ℕ, suc, ◌+◌, ◌*◌, ◌≤◌, ◌<◌, ◌^◌, ◌≡◌, inl, inr, refl, arith, ◌==◌, ltb, Bool-cases, if◌then◌else◌,
  List, [], ◌∷◌, Run, ok,
}
use icosaos.Console.{Terminal}
use icosaos.Disk.{Registers}
use icosaos.Disk.Sector.{sector_of}
use icosaos.Fat32.Volume.{KernelAllocator, Volume, Files}
use icosaos.Fat32.Volume.Allocation.{Region, Apart, Lent, Serves}
use icosaos.Fat32.Directory.{find_entry, list_entries}
use icosaos.Fat32.Directory.Listing.{Lists, listed, meets_last, list_entries-Lists}
use icosaos.Fat32.Directory.Entries.{first_named, found_at, live_entries, find_entry-first_named}

abbrev stack_kmalloc : ℕ → ℕ → Run (ℕ × ℕ)
stack_kmalloc n h = if ltb 2048 n then ok (0, h) else ok (h, h + 2048)

abbrev stack : KernelAllocator
stack = record { Sys = ℕ; kmalloc = stack_kmalloc; kfree = λ p h. ok p }

-- The blocks lent end at `h`.
abbrev Stacked : ℕ → List Region → Type 0
Stacked h [] = 0 < h
Stacked h (r ∷ rs) = (h ≡ r.0 + 2048) × (r.1 ≤ 2048) × Stacked r.0 rs

abbrev StackHolds : ℕ → ℕ → List Region → Type 0
StackHolds k h rs = (h + k * 2048 ≤ 2 ^ 32) × Stacked h rs

Stacked-there : (h : ℕ) (rs : List Region) → Stacked h rs → 0 < h
Stacked-there h [] s = s
Stacked-there h (r ∷ rs) (e, le, s) = omega arith

Stacked-Apart : (p n h : ℕ) (rs : List Region) → h ≤ p → Stacked h rs → Apart p n rs
Stacked-Apart p n h [] le s = tt
Stacked-Apart p n h (r ∷ rs) le (e, small, s) =
    (inr (omega arith), Stacked-Apart p n r.0 rs (omega arith) s)

stack-lends :
    (k n h : ℕ) (rs : List Region)
    → StackHolds (suc k) h rs
    → 0 < n
    → n + 8192 ≤ 2 ^ 32
    → Lent StackHolds k n rs (stack_kmalloc n h)
stack-lends k n h rs (room, s) some low = elim (Bool-cases (ltb 2048 n)) [
  | inl large ↦ rw large (inl (refl, ground arith, (room, s)))
  | inr fits ↦
      let le : n ≤ 2048 = ground arith in
      rw fits (
        inr (
          (Stacked-there h rs s, omega arith, Stacked-Apart h n h rs (omega arith) s),
          (omega arith, (refl, le, s)),
        ))
]

abbrev stack-Serves : Serves stack
stack-Serves = record {
  Holds = StackHolds;
  lends = stack-lends;
  takes_back = λ k p n h rs (room, (e, small, s)). (omega arith, s);
}

abbrev disk : ℕ → ℕ → ℕ
disk s k = if k == 8 then 3 else 0

abbrev drive : Registers → ℕ → ℕ
drive r i = disk (sector_of r) (2 * i) + 256 * disk (sector_of r) (2 * i + 1)

abbrev terminal : Terminal
terminal = record { row = 0; column = 0; color = 7; buffer = λ i. 0 }

abbrev files : Files stack
files = record {
  volume = record {
    data_region_start_sector = 100;
    sectors_per_cluster = 1;
    reserved_sector_count = 32;
  };
  heap = 4096;
  bytes = λ a. 255;
  terminal = terminal;
}

-- A deleted entry, and one of the name "A".
abbrev directory : ℕ → ℕ
directory a =
    if a == 4096
    then 0xE5
    else if a == 4128
    then 65
    else if a == 4154
    then 9
    else if a == 64
    then 65
    else 32

find_entry-first_named_example :
    find_entry 2 0 4096 64 0 directory
    ≡ found_at 0 directory (first_named 64 directory (live_entries 2 0 4096 directory))
find_entry-first_named_example = find_entry-first_named 2 0 4096 64 0 directory (λ a. ground arith)

-- A buffer of two entries: a file "A.TXT" of 5 bytes in cluster 9, and the end of the directory.
abbrev two_entries : ℕ → ℕ
two_entries a =
    if a == 0x1000
    then 65
    else if a == 0x1008
    then 84
    else if a == 0x1009
    then 88
    else if a == 0x100A
    then 84
    else if a == 0x101A
    then 9
    else if a == 0x101C
    then 5
    else if ltb a 0x100B
    then 32
    else 0

list_entries-Lists_example :
    Lists 0x2000 0
      (meets_last 2 0 0x1000 two_entries)
      (listed 2 0 0x1000 two_entries)
      two_entries
      (list_entries 2 0 0x1000 0x2000 0 two_entries)
list_entries-Lists_example =
    list_entries-Lists 2 0 0x1000 0x2000 0 two_entries (omega arith) (omega arith)
      (inl (omega arith)) (λ a from to. ground arith)
