-- ===== src/Tests/Drives.antt =====
-- A controller that is busy twice and then has data after one more read, and one that reports an error.
use icosaos.Prelude.{ℕ, ◌+◌, ◌≡◌, refl, arith, ◌==◌, ltb, if◌then◌else◌, [], ok, out_of_fuel}
use icosaos.Disk.{Registers, select_sector}
use icosaos.Disk.{ata_read_sector as read_sector}
use icosaos.Disk.Controller.{Controller, is_idle, has_data, send_command, ata_read_sector}
use icosaos.Disk.Controller.Polling.{registers_of, ata_read_sector-reads, ata_read_sector-stuck}

abbrev drive : Registers → ℕ → ℕ
drive r i = r.lba_low + i

abbrev controller : Controller
controller = record {
  status = λ ports k. if ltb k 2 then 0x80 else if k == 2 then 0x40 else 0x48;
  data_word = λ ports. drive (registers_of ports);
}

abbrev failing : Controller
failing = record { status = λ ports k. if ltb k 2 then 0x80 else 0x51; data_word = λ ports i. 0 }

ata_read_sector-reads_example :
    (ata_read_sector 3 controller 5000 0x8000 [] (λ a. 0)
      ≡ ok (
        (read_sector drive 5000 0x8000 (λ a. 0)).0,
        send_command 5000 [],
        (read_sector drive 5000 0x8000 (λ a. 0)).1,
      ))
    × (registers_of (send_command 5000 []) ≡ select_sector 5000)
unfolding is_idle has_data
ata_read_sector-reads_example =
    ata_read_sector-reads 3 2 0 controller drive 5000 0x8000 [] (λ a. 0) (λ ports k. refl)
      (λ i h. ground arith, refl) (λ i h. absurd (omega arith), refl) (omega arith) (omega arith)

ata_read_sector-stuck_example :
    ata_read_sector 1000000 failing 5000 0x8000 [] (λ a. 0) ≡ out_of_fuel
unfolding is_idle has_data
ata_read_sector-stuck_example =
    ata_read_sector-stuck 1000000 2 failing 5000 0x8000 [] (λ a. 0) (λ i h. ground arith, refl)
      (λ i. ground arith) (omega arith)
