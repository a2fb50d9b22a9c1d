-- ===== src/Disk.antt =====
-- src/kernel/ata.c and `fat32_read_sector` of src/kernel/fat32.c: one sector from the disk. The drive
-- behind the ports is a parameter: the words it delivers for the registers that were written.
-- `ata_read_sector` here is the transfer with a controller that is ready; the function as it stands in the
-- source, with its two loops that wait, is that of Disk/Controller.
pub mod Sector
pub mod Controller
use icosaos.Prelude.{ℕ, zero, suc, ◌+◌, ◌*◌, ◌/◌, ◌%◌, bit_and, bit_or, u8, ◌>>>◌, add32, update}

-- The registers of the controller.
pub record Registers : Type 0 where
  pub drive : ℕ
  pub seccount : ℕ
  pub lba_low : ℕ
  pub lba_mid : ℕ
  pub lba_high : ℕ
  pub command : ℕ

abbrev pub ata_cmd_read_sectors : ℕ
ata_cmd_read_sectors = 0x20

abbrev pub partition_start_sector : ℕ
partition_start_sector = 2048

-- What `ata_read_sector` writes to the ports.
unfoldable pub select_sector : ℕ → Registers
select_sector lba = record {
  drive = u8 (bit_or 0xE0 (bit_and (lba >>> 24) 0x0F));
  seccount = 1;
  lba_low = u8 lba;
  lba_mid = u8 (lba >>> 8);
  lba_high = u8 (lba >>> 16);
  command = ata_cmd_read_sectors;
}

-- `buf16[i] = inw(ATA_PRIMARY_DATA)`, the low byte first, with `n` rounds left.
unfoldable pub read_words : ℕ → ℕ → (ℕ → ℕ) → ℕ → (ℕ → ℕ) → ℕ → ℕ
read_words zero i word target bytes = bytes
read_words (suc n) i word target bytes =
    let at = add32 target (2 * i) in
    read_words n (i + 1) word target
      (update (update bytes at (word i % 256)) (add32 at 1) (word i / 256))

module _ (drive : Registers → ℕ → ℕ) where
  unfoldable pub ata_read_sector : ℕ → ℕ → (ℕ → ℕ) → ℕ × (ℕ → ℕ)
  ata_read_sector lba target_buffer bytes =
      (1, read_words 256 0 (drive (select_sector lba)) target_buffer bytes)

  unfoldable pub fat32_read_sector : ℕ → ℕ → (ℕ → ℕ) → ℕ × (ℕ → ℕ)
  fat32_read_sector relative_sector buffer bytes =
      ata_read_sector (add32 partition_start_sector relative_sector) buffer bytes
