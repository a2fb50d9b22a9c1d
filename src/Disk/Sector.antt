-- ===== src/Disk/Sector.antt =====
-- The bytes that are read, for a drive that addresses its sectors with 28 bits.
use icosaos.Prelude.{
  ℕ, zero, suc, ◌+◌, ◌-◌, ◌*◌, ◌/◌, ◌%◌, ◌≤◌, ◌<◌, ◌^◌, ◌≡◌, refl, inl, inr, arith, bit_or, ◌&&◌,
  leb, ltb, ◌==◌, if◌then◌else◌, add32, update, Bool-cases, every, every-lt, true,
}
use mathlib.Core.Path.{subst}
use icosaos.Prelude.Bits.{and-mask}
use icosaos.Disk.{Registers, select_sector, read_words, ata_read_sector, fat32_read_sector}

-- The sector that the registers name: 28 bits, the highest four in the drive register.
abbrev pub sector_of : Registers → ℕ
sector_of r = r.lba_low + r.lba_mid * 2 ^ 8 + r.lba_high * 2 ^ 16 + r.drive % 16 * 2 ^ 24

-- For a read of one sector the drive delivers the words of the sector that the registers name.
abbrev pub Delivers : (Registers → ℕ → ℕ) → (ℕ → ℕ → ℕ) → Type 0
Delivers drive disk =
    (r : Registers) (i : ℕ)
    → r.seccount ≡ 1
    → r.command ≡ 0x20
    → drive r i ≡ disk (sector_of r) (2 * i) + 256 * disk (sector_of r) (2 * i + 1)

drive_table : every 16 (λ k. bit_or 0xE0 k % 256 % 16 == k) ≡ true
unfolding every
drive_table = refl

sector_of-select_sector : (lba : ℕ) → lba < 2 ^ 32 → sector_of (select_sector lba) ≡ lba % 2 ^ 28
unfolding select_sector
sector_of-select_sector lba h =
    let low : (bit_or 0xE0 (lba / 2 ^ 24 % 16) % 256 % 16 == lba / 2 ^ 24 % 16) ≡ true =
      every-lt 16 _ drive_table (lba / 2 ^ 24 % 16) (omega arith) in
    rw (and-mask 4 (lba / 2 ^ 24)) (ground arith)

select_sector_one :
    (lba : ℕ) → ((select_sector lba).seccount ≡ 1) × ((select_sector lba).command ≡ 0x20)
unfolding select_sector
select_sector_one lba = (refl, refl)

read_words-at :
    (n i target : ℕ) (word content : ℕ → ℕ) (bytes : ℕ → ℕ)
    → target + 2 * i + 2 * n ≤ 2 ^ 32
    → ((k : ℕ) → content k < 256)
    → ((k : ℕ) → word k ≡ content (2 * k) + 256 * content (2 * k + 1))
    → (a : ℕ)
    → read_words n i word target bytes a ≡ (
        if leb (target + 2 * i) a && ltb a (target + 2 * i + 2 * n)
        then content (a - target)
        else bytes a)
unfolding read_words
read_words-at zero i target word content bytes h small words a = ground arith
read_words-at (suc n) i target word content bytes h small words a =
    let at : add32 target (2 * i) ≡ target + 2 * i = omega arith in
    let next : add32 (target + 2 * i) 1 ≡ target + 2 * i + 1 = omega arith in
    let low : word i % 256 ≡ content (2 * i) = omega (arith, small (2 * i), words i) in
    let high : word i / 256 ≡ content (2 * i + 1) = omega (arith, small (2 * i), words i) in
    rw (at, next, low, high)
      (elim (Bool-cases (target + 2 * i == a)) [
        | inl first ↦
            let e : a - target ≡ 2 * i = ground arith in
            rw e (
              ground (
                arith,
                read_words-at n (i + 1) target word content
                    (update (update bytes (target + 2 * i) (content (2 * i))) (target + 2 * i + 1)
                      (content (2 * i + 1)))
                    (omega arith) small words a,
              ))
        | inr later ↦ elim (Bool-cases (target + 2 * i + 1 == a)) [
          | inl second ↦
              let e : a - target ≡ 2 * i + 1 = ground arith in
              rw e (
                ground (
                  arith,
                  read_words-at n (i + 1) target word content
                      (update (update bytes (target + 2 * i) (content (2 * i))) (target + 2 * i + 1)
                        (content (2 * i + 1)))
                      (omega arith) small words a,
                ))
          | inr other ↦ ground (
            arith,
            read_words-at n (i + 1) target word content
                (update (update bytes (target + 2 * i) (content (2 * i))) (target + 2 * i + 1)
                  (content (2 * i + 1)))
                (omega arith) small words a,
          )
        ]
      ])

-- From a drive that delivers a disk of bytes, `fat32_read_sector` copies the 512 bytes of the sector
-- of the partition, whose first one is sector 2048 of the disk, to the buffer, changes no other
-- byte, and returns 1.
pub fat32_read_sector-bytes :
    (drive : Registers → ℕ → ℕ) (disk : ℕ → ℕ → ℕ) (sector buffer : ℕ) (bytes : ℕ → ℕ)
    → Delivers drive disk
    → ((s k : ℕ) → disk s k < 256)
    → sector + 2048 < 2 ^ 28
    → buffer + 512 ≤ 2 ^ 32
    → ((fat32_read_sector drive sector buffer bytes).0 ≡ 1)
      × ((a : ℕ)
          → (fat32_read_sector drive sector buffer bytes).1 a ≡ (
              if leb buffer a && ltb a (buffer + 512)
              then disk (2048 + sector) (a - buffer)
              else bytes a))
unfolding fat32_read_sector ata_read_sector
fat32_read_sector-bytes drive disk sector buffer bytes delivers small h fits =
    let lba : add32 2048 sector ≡ 2048 + sector = omega arith in
    let named : sector_of (select_sector (2048 + sector)) ≡ 2048 + sector =
      omega (arith, sector_of-select_sector (2048 + sector) (omega arith)) in
    let (one, read) = select_sector_one (2048 + sector) in
    let words : (k : ℕ)
        → drive (select_sector (2048 + sector)) k
          ≡ disk (2048 + sector) (2 * k) + 256 * disk (2048 + sector) (2 * k + 1) =
      λ k.
        subst
          (λ (s : ℕ).
            drive (select_sector (2048 + sector)) k ≡ disk s (2 * k) + 256 * disk s (2 * k + 1))
          named (delivers (select_sector (2048 + sector)) k one read) in
    rw lba (
      refl,
      λ a. ground (
        arith,
        read_words-at 256 0 buffer (drive (select_sector (2048 + sector))) (disk (2048 + sector))
            bytes (omega arith) (small (2048 + sector)) words a,
      ),
    )
