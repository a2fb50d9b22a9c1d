-- ===== src/Fat32/Volume/Sectors.antt =====
-- The bytes of a cluster, and the entry of the file allocation table.
use icosaos.Prelude.{
  ℕ, zero, suc, ◌+◌, ◌-◌, ◌*◌, ◌/◌, ◌%◌, ◌≤◌, ◌<◌, ◌^◌, ◌≡◌, inl, inr, ◌∙◌, arith, ◌&&◌, add32,
  mul32, ltb, leb, if◌then◌else◌, Bool-cases,
}
use icosaos.Disk.{Registers, fat32_read_sector}
use icosaos.Disk.Sector.{Delivers, fat32_read_sector-bytes}
use icosaos.Fat32.Volume.{Volume, read_sectors, cluster_sector}

-- The byte `k` of a cluster, and the entry of a cluster in the table, on a disk of bytes.
abbrev pub cluster_byte : (ℕ → ℕ → ℕ) → Volume → ℕ → ℕ → ℕ
cluster_byte disk v c k = disk (2048 + cluster_sector v c + k / 512) (k % 512)

abbrev pub fat_byte : (ℕ → ℕ → ℕ) → Volume → ℕ → ℕ → ℕ
fat_byte disk v c k = disk (2048 + (v.reserved_sector_count + c / 128)) (4 * (c % 128) + k)

abbrev pub fat_entry : (ℕ → ℕ → ℕ) → Volume → ℕ → ℕ
fat_entry disk v c =
    (fat_byte disk v c 0
      + 256 * fat_byte disk v c 1
      + 65536 * fat_byte disk v c 2
      + 16777216 * fat_byte disk v c 3)
    % 2 ^ 28

pub record IsDrive (drive : Registers → ℕ → ℕ) (disk : ℕ → ℕ → ℕ) : Type 0 where
  pub delivers : Delivers drive disk
  pub all : (s k : ℕ) → disk s k < 256

pub read_sectors-bytes :
    (drive : Registers → ℕ → ℕ) (disk : ℕ → ℕ → ℕ) (n i sector buffer : ℕ) (bytes : ℕ → ℕ)
    → IsDrive drive disk
    → sector + i + n + 2048 ≤ 2 ^ 28
    → buffer + (i + n) * 512 ≤ 2 ^ 32
    → (a : ℕ)
    → read_sectors drive n i sector buffer bytes a ≡ (
        if leb (buffer + i * 512) a && ltb a (buffer + (i + n) * 512)
        then disk (2048 + sector + (a - buffer) / 512) ((a - buffer) % 512)
        else bytes a)
unfolding read_sectors
read_sectors-bytes drive disk zero i sector buffer bytes d h fits a = ground arith
read_sectors-bytes drive disk (suc n) i sector buffer bytes d h fits a =
    let at : add32 sector i ≡ sector + i = omega arith in
    let into : add32 buffer (mul32 i 512) ≡ buffer + i * 512 = omega arith in
    let (one, read) =
      fat32_read_sector-bytes drive disk (sector + i) (buffer + i * 512) bytes d.delivers d.all
        (omega arith) (omega arith) in
    let rest =
      read_sectors-bytes drive disk n (i + 1) sector buffer
        (fat32_read_sector drive (sector + i) (buffer + i * 512) bytes).1 d (omega arith)
        (omega arith) a in
    rw (at, into)
      (rest ∙ elim (Bool-cases (leb (buffer + i * 512) a && ltb a (buffer + i * 512 + 512))) [
        | inl here ↦
            let sectors : (a - buffer) / 512 ≡ i = ground arith in
            let offset : (a - buffer) % 512 ≡ a - (buffer + i * 512) = ground arith in
            rw (sectors, offset) (ground (arith, read a))
        | inr there ↦ ground (arith, read a)
      ])
