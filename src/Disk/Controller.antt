-- ===== src/Disk/Controller.antt =====
-- src/kernel/ata.c over the ports of the controller: the writes that ask for a sector, the two loops
-- that wait for the status, and the words of the data port. The controller is a parameter: what its
-- status and its data port deliver, read by read, behind the writes so far.
pub mod Polling
use icosaos.Prelude.{
  ℕ, zero, suc, ◌+◌, ◌*◌, ◌<◌, ◌≡◌, refl, List, ◌∷◌, [], Bool, true, false, not, bit_and, bit_or,
  u8, ◌>>>◌, ◌==◌, if◌then◌else◌, Run, ok, out_of_fuel, ◌>>=◌, arith,
}
use icosaos.Ports.{outb}
use icosaos.Disk.{Registers, ata_cmd_read_sectors, read_words, select_sector}

abbrev pub ata_primary_seccount : ℕ
ata_primary_seccount = 0x1F2

abbrev pub ata_primary_lba_low : ℕ
ata_primary_lba_low = 0x1F3

abbrev pub ata_primary_lba_mid : ℕ
ata_primary_lba_mid = 0x1F4

abbrev pub ata_primary_lba_high : ℕ
ata_primary_lba_high = 0x1F5

abbrev pub ata_primary_drive : ℕ
ata_primary_drive = 0x1F6

abbrev pub ata_primary_command : ℕ
ata_primary_command = 0x1F7

abbrev pub ata_status_bsy : ℕ
ata_status_bsy = 0x80

abbrev pub ata_status_drq : ℕ
ata_status_drq = 0x08

pub record Controller : Type 0 where
  pub status : List (ℕ × ℕ) → ℕ → ℕ
  pub data_word : List (ℕ × ℕ) → ℕ → ℕ

unfoldable pub is_idle : Controller → List (ℕ × ℕ) → ℕ → Bool
is_idle c ports k = bit_and (c.status ports k) ata_status_bsy == 0

unfoldable pub has_data : Controller → List (ℕ × ℕ) → ℕ → Bool
has_data c ports k = not (bit_and (c.status ports k) ata_status_drq == 0)

-- A loop that reads the status, from the read `k` on, until the test holds: the number of the next read.
unfoldable pub wait_until : ℕ → (ℕ → Bool) → ℕ → Run ℕ
wait_until zero test k = out_of_fuel
wait_until (suc fuel) test k =
    let rest = wait_until fuel test (k + 1) in if test k then ok (k + 1) else rest

-- The writes of `ata_read_sector`.
unfoldable pub send_command : ℕ → List (ℕ × ℕ) → List (ℕ × ℕ)
send_command lba ports =
    let selected = outb ata_primary_drive (u8 (bit_or 0xE0 (bit_and (lba >>> 24) 0x0F))) ports in
    let counted = outb ata_primary_seccount 1 selected in
    let low = outb ata_primary_lba_low (u8 lba) counted in
    let mid = outb ata_primary_lba_mid (u8 (lba >>> 8)) low in
    let high = outb ata_primary_lba_high (u8 (lba >>> 16)) mid in
    outb ata_primary_command ata_cmd_read_sectors high

unfoldable pub ata_read_sector :
    ℕ → Controller → ℕ → ℕ → List (ℕ × ℕ) → (ℕ → ℕ) → Run (ℕ × List (ℕ × ℕ) × (ℕ → ℕ))
ata_read_sector fuel c lba target_buffer ports bytes = do
  let sent = send_command lba ports
  k ← wait_until fuel (is_idle c sent) 0
  _ ← wait_until fuel (has_data c sent) k
  ok (1, sent, read_words 256 0 (c.data_word sent) target_buffer bytes)
