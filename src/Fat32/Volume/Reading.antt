-- ===== src/Fat32/Volume/Reading.antt =====
-- Reading a whole file.
use icosaos.Prelude.{ℕ, suc, ◌+◌, ◌<◌, ◌≡◌, ◌⊎◌, inl, inr, List, ◌∷◌, Run, ok, out_of_fuel}
use icosaos.Disk.{Registers}
use icosaos.Fat32.Volume.{KernelAllocator, Files, null}
use icosaos.Fat32.Volume.Allocation.{Region, Fresh, Serves, Kept}
use icosaos.Fat32.Volume.Sectors.{IsDrive}
use icosaos.Fat32.Volume.Rounds.{cluster_size, chain_byte}

module _ {A : KernelAllocator} (laws : Serves A) (drive : Registers → ℕ → ℕ) (disk : ℕ → ℕ → ℕ)
    (d : IsDrive drive disk) (room : ℕ) where
  -- The file in a fresh region, with a zero behind it.
  pub record HoldsFile (n c size p : ℕ) (rs : List Region) (s s' : Files A) : Type 0 where
    pub same_volume : s'.volume ≡ s.volume
    pub fresh : Fresh p (size + 1) rs
    pub holds : laws.Holds (suc (suc room)) s'.heap ((p, size + 1) ∷ rs)
    pub content : (k : ℕ) → k < size → s'.bytes (p + k) ≡ chain_byte disk s.volume n c k
    pub end : s'.bytes (p + size) ≡ 0
    pub kept : Kept rs s.bytes s'.bytes

  -- How the reading of a file ends: with the file, or with NULL, everything lent returned and memory
  -- as it was, where there is no room for the buffers.
  abbrev pub Read : ℕ → ℕ → ℕ → List Region → Files A → Run (ℕ × Files A) → Type 0
  Read n c size rs s out_of_fuel = ⊥
  Read n c size rs s (ok (p, s')) =
      HoldsFile n c size p rs s s'
      ⊎ (p ≡ null)
        × ((512 < size + 1) ⊎ (512 < cluster_size s.volume))
        × laws.Holds (suc (suc (suc room))) s'.heap rs
        × (s'.bytes ≡ s.bytes)
        × (s'.volume ≡ s.volume)

  -- The heap that the reading starts from is of no account.
  same :
      (n c size : ℕ) (rs : List Region) (s : Files A) (heap : A.Sys) (r : Run (ℕ × Files A))
      → Read n c size rs (record s { heap = heap }) r
      → Read n c size rs s r
  same n c size rs s heap out_of_fuel r = absurd r
  same n c size rs s heap (ok (p, s')) (inl f) = inl (record {
    same_volume = f.same_volume;
    fresh = f.fresh;
    holds = f.holds;
    content = f.content;
    end = f.end;
    kept = f.kept;
  })
  same n c size rs s heap (ok (p, s')) (inr f) = inr f
