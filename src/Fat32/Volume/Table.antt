-- ===== src/Fat32/Volume/Table.antt =====
-- Looking up the cluster that follows another in the file allocation table.
use icosaos.Prelude.{
  ℕ, suc, ◌+◌, ◌-◌, ◌*◌, ◌/◌, ◌%◌, ◌≤◌, ◌<◌, ◌^◌, ◌≡◌, inl, inr, refl, ◌∙◌, arith, false, add32,
  bit_and, ◌==◌, List, ◌∷◌, load32, Run, ok, out_of_fuel, ◌>>=◌,
}
use mathlib.Core.Path.{subst}
use icosaos.Prelude.Bits.{and-mask}
use icosaos.Disk.{Registers, fat32_read_sector}
use icosaos.Disk.Sector.{fat32_read_sector-bytes}
use icosaos.Fat32.Volume.{
  KernelAllocator, Volume, Files, release, look_up_next, fat32_get_next_cluster,
}
use icosaos.Fat32.Volume.Allocation.{Region, Apart, Lent, Returned, Serves, Kept, Kept-Apart}
use icosaos.Fat32.Volume.Sectors.{IsDrive, fat_byte, fat_entry}

abbrev pub InTable : Volume → ℕ → Type 0
InTable v c = v.reserved_sector_count + c / 128 + 2048 < 2 ^ 28

module _ {A : KernelAllocator} (laws : Serves A) (drive : Registers → ℕ → ℕ) (disk : ℕ → ℕ → ℕ)
    (d : IsDrive drive disk) (k : ℕ) where
  -- The files after a step that lends and returns regions: the volume is the same, the regions `rs`
  -- are lent, and memory within them is as it was.
  pub record Steps (rs : List Region) (s s' : Files A) : Type 0 where
    pub same_volume : s'.volume ≡ s.volume
    pub holds : laws.Holds (suc k) s'.heap rs
    pub kept : Kept rs s.bytes s'.bytes

  load_entry :
      (v : Volume) (c buffer : ℕ) (bytes : ℕ → ℕ)
      → InTable v c
      → buffer + 512 ≤ 2 ^ 32
      → bit_and
          (load32
            (add32 buffer (4 * (c % 128)))
            (fat32_read_sector drive (add32 v.reserved_sector_count (c / 128)) buffer bytes).1)
          0x0FFFFFFF
        ≡ fat_entry disk v c
  unfolding load32
  load_entry v c buffer bytes h fits =
      let sector : add32 v.reserved_sector_count (c / 128) ≡ v.reserved_sector_count + c / 128 =
        omega arith in
      let at : add32 buffer (4 * (c % 128)) ≡ buffer + 4 * (c % 128) = omega arith in
      let (one, read) =
        fat32_read_sector-bytes drive disk (v.reserved_sector_count + c / 128) buffer bytes
          d.delivers d.all (omega arith) fits in
      let byte : (i : ℕ)
          → i < 4
          → (fat32_read_sector drive (v.reserved_sector_count + c / 128) buffer bytes).1
              (add32 (buffer + 4 * (c % 128)) i)
            ≡ fat_byte disk v c i =
        λ i h.
          let next : add32 (buffer + 4 * (c % 128)) i ≡ buffer + 4 * (c % 128) + i = omega arith in
          let offset : buffer + 4 * (c % 128) + i - buffer ≡ 4 * (c % 128) + i = omega arith in
          rw next (read (buffer + 4 * (c % 128) + i) ∙ rw offset (ground arith)) in
      let offset : buffer + 4 * (c % 128) - buffer ≡ 4 * (c % 128) + 0 = omega arith in
      let byte0 : (fat32_read_sector drive (v.reserved_sector_count + c / 128) buffer bytes).1
            (buffer + 4 * (c % 128))
          ≡ fat_byte disk v c 0 =
        read (buffer + 4 * (c % 128)) ∙ rw offset (ground arith) in
      rw (sector, at, and-mask 28)
        (rw (byte0, byte 1 (omega arith), byte 2 (omega arith), byte 3 (omega arith)) refl)

  look_up_next-Steps :
      (c buffer : ℕ) (s : Files A) (rs : List Region)
      → laws.Holds k s.heap ((buffer, 512) ∷ rs)
      → 0 < buffer
      → buffer + 512 ≤ 2 ^ 32
      → Apart buffer 512 rs
      → InTable s.volume c
      → (s' : Files A) × (look_up_next drive c buffer s ≡ ok (fat_entry disk s.volume c, s'))
        × Steps rs s s'
  unfolding look_up_next release
  look_up_next-Steps c buffer s rs holds there fits apart h =
      let sector : add32 s.volume.reserved_sector_count (c / 128)
          ≡ s.volume.reserved_sector_count + c / 128 =
        omega arith in
      let (one, read) =
        fat32_read_sector-bytes drive disk (s.volume.reserved_sector_count + c / 128) buffer s.bytes
          d.delivers d.all (omega arith) fits in
      let some_buffer : (buffer == 0) ≡ false = ground arith in
      rw (some_buffer, load_entry s.volume c buffer s.bytes h fits)
        (rw (sector, one)
          (finish _ (A.kfree buffer s.heap) (laws.takes_back k buffer 512 s.heap rs holds)
            (Kept-Apart buffer 512 rs s.bytes _ apart (λ a out. read a ∙ ground arith))))
    where
      finish :
          (bytes : ℕ → ℕ) (r : Run A.Sys)
          → Returned laws.Holds (suc k) rs r
          → Kept rs s.bytes bytes
          → (s' : Files A) × (◌>>=◌ {B = ℕ × Files A} r
                (λ heap. ok (fat_entry disk s.volume c, record s { bytes = bytes; heap = heap }))
              ≡ ok (fat_entry disk s.volume c, s'))
            × Steps rs s s'
      finish bytes out_of_fuel back kept = absurd back
      finish bytes (ok h) back kept =
          (_, refl, record { same_volume = refl; holds = back; kept = kept })

  -- Where the heap lends a sector's buffer, `fat32_get_next_cluster` ends, with the entry of the
  -- cluster in the table on the disk; it leaves the regions lent before as they were.
  pub fat32_get_next_cluster-Steps :
      (c : ℕ) (s : Files A) (rs : List Region)
      → laws.Holds (suc k) s.heap rs
      → InTable s.volume c
      → (s' : Files A) × (fat32_get_next_cluster drive c s ≡ ok (fat_entry disk s.volume c, s'))
        × Steps rs s s'
  unfolding fat32_get_next_cluster
  fat32_get_next_cluster-Steps c s rs holds h =
      lent (A.kmalloc 512 s.heap) (laws.lends k 512 s.heap rs holds (omega arith) (omega arith))
    where
      lent :
          (r : Run (ℕ × A.Sys))
          → Lent laws.Holds k 512 rs r
          → (s' : Files A) × ((r >>= λ x. look_up_next drive c x.0 (record s { heap = x.1 }))
              ≡ ok (fat_entry disk s.volume c, s'))
            × Steps rs s s'
      lent out_of_fuel l = absurd l
      lent (ok (p, heap)) (inl (null, small, g)) = absurd (omega arith)
      lent (ok (p, heap)) (inr ((there, fits, apart), g)) =
          let (s', e, steps) =
            look_up_next-Steps c p (record s { heap = heap }) rs g there fits apart h in
          (
            s',
            e,
            record { same_volume = steps.same_volume; holds = steps.holds; kept = steps.kept },
          )

  pub fat32_get_next_cluster-at :
      (v : Volume) (c : ℕ) (s : Files A) (rs : List Region)
      → s.volume ≡ v
      → laws.Holds (suc k) s.heap rs
      → InTable v c
      → (s' : Files A) × (fat32_get_next_cluster drive c s ≡ ok (fat_entry disk v c, s'))
        × Steps rs s s'
  fat32_get_next_cluster-at v c s rs e holds =
      subst
        (λ (w : Volume).
          InTable w c
          → (s' : Files A) × (fat32_get_next_cluster drive c s ≡ ok (fat_entry disk w c, s'))
            × Steps rs s s')
        e (fat32_get_next_cluster-Steps c s rs holds)
