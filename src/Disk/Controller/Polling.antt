-- ===== src/Disk/Controller/Polling.antt =====
-- The exchange with the controller reads the sector where the controller gets ready, and never ends
-- where it does not.
use icosaos.Prelude.{
  ℕ, zero, suc, ◌+◌, ◌<◌, ◌≡◌, refl, ◌∙◌, ap, fun_ext, List, ◌∷◌, [], Bool, true, false, ◌==◌,
  if◌then◌else◌, ok, out_of_fuel, arith,
}
use native.Mathlib.Numerals.{unary_clauses}
use icosaos.Ports.{outb}
use icosaos.Disk.{Registers, select_sector}
use icosaos.Disk.{ata_read_sector as read_sector}
use icosaos.Disk.Controller.{
  Controller, is_idle, has_data, wait_until, send_command, ata_read_sector, ata_primary_drive,
  ata_primary_seccount, ata_primary_lba_low, ata_primary_lba_mid, ata_primary_lba_high,
  ata_primary_command,
}

-- What a port holds behind the writes: the value that was written last.
latched : ℕ → List (ℕ × ℕ) → ℕ
latched port [] = 0
latched port ((p, v) ∷ ports) = let rest = latched port ports in if p == port then v else rest

pub registers_of : List (ℕ × ℕ) → Registers
registers_of ports = record {
  drive = latched ata_primary_drive ports;
  seccount = latched ata_primary_seccount ports;
  lba_low = latched ata_primary_lba_low ports;
  lba_mid = latched ata_primary_lba_mid ports;
  lba_high = latched ata_primary_lba_high ports;
  command = latched ata_primary_command ports;
}

-- The data port delivers the words of the drive for the registers that were written last.
abbrev pub Obeys : Controller → (Registers → ℕ → ℕ) → Type 0
Obeys c drive = (ports : List (ℕ × ℕ)) (k : ℕ) → c.data_word ports k ≡ drive (registers_of ports) k

-- From the read `k` on a test fails `n` times, and then it holds.
abbrev pub HoldsAfter : ℕ → ℕ → (ℕ → Bool) → Type 0
HoldsAfter n k test = ((i : ℕ) → i < n → test (k + i) ≡ false) × (test (k + n) ≡ true)

wait_until-ends :
    (n fuel k : ℕ) (test : ℕ → Bool)
    → HoldsAfter n k test
    → n < fuel
    → wait_until fuel test k ≡ ok (k + n + 1)
unfolding wait_until
wait_until-ends n zero k test ends h = absurd (omega arith)
wait_until-ends zero (suc fuel) k test (before, at_end) h =
    let now : test k ≡ true = simp unary_clauses at at_end in
    let here : k + 1 ≡ k + 0 + 1 = omega arith in rw (now, here) refl
wait_until-ends (suc n) (suc fuel) k test (before, at_end) h =
    let now : test k ≡ false = simp unary_clauses at (before 0 (omega arith)) in
    let next : k + 1 + n ≡ k + suc n = omega arith in
    let shift : (i : ℕ) → k + 1 + i ≡ k + suc i = λ i. omega arith in
    let ends : HoldsAfter n (k + 1) test =
      (λ i p. rw (shift i) (before (suc i) (omega arith)), rw next at_end) in
    rw now (wait_until-ends n fuel (k + 1) test ends (omega arith) ∙ rw next refl)

wait_until-stuck :
    (fuel k : ℕ) (test : ℕ → Bool)
    → ((i : ℕ) → test (k + i) ≡ false)
    → wait_until fuel test k ≡ out_of_fuel
unfolding wait_until
wait_until-stuck zero k test never = refl
wait_until-stuck (suc fuel) k test never =
    let now : test k ≡ false = simp unary_clauses at (never 0) in
    let shift : (i : ℕ) → k + 1 + i ≡ k + suc i = λ i. omega arith in
    rw now (wait_until-stuck fuel (k + 1) test (λ i. rw (shift i) (never (suc i))))

registers_of-send_command :
    (lba : ℕ) (ports : List (ℕ × ℕ)) → registers_of (send_command lba ports) ≡ select_sector lba
unfolding registers_of latched send_command outb select_sector
registers_of-send_command lba ports = refl

-- Where the controller is busy for `n` reads of its status, is without data for `m` reads behind the
-- first that finds it idle, and delivers the words of a drive for the registers that were written,
-- `ata_read_sector` ends on more fuel than `n` and `m`: it returns what the drive's sector of that
-- number gives, in memory too, and it has written to the ports just what asks for the sector.
pub ata_read_sector-reads :
    (fuel n m : ℕ) (c : Controller) (drive : Registers → ℕ → ℕ) (lba target : ℕ)
    (ports : List (ℕ × ℕ)) (bytes : ℕ → ℕ)
    → Obeys c drive
    → HoldsAfter n 0 (is_idle c (send_command lba ports))
    → HoldsAfter m (n + 1) (has_data c (send_command lba ports))
    → n < fuel
    → m < fuel
    → (ata_read_sector fuel c lba target ports bytes
        ≡ ok (
          (read_sector drive lba target bytes).0,
          send_command lba ports,
          (read_sector drive lba target bytes).1,
        ))
      × (registers_of (send_command lba ports) ≡ select_sector lba)
unfolding ata_read_sector read_sector
ata_read_sector-reads fuel n m c drive lba target ports bytes obeys idle full h k =
    let sent = send_command lba ports in
    let named = registers_of-send_command lba ports in
    let words : c.data_word sent ≡ drive (select_sector lba) =
      fun_ext (λ i. obeys sent i ∙ ap (λ (r : Registers). drive r i) named) in
    let start : 0 + n + 1 ≡ n + 1 = omega arith in
    rw
      (
        wait_until-ends n fuel 0 (is_idle c sent) idle h,
        start,
        wait_until-ends m fuel (n + 1) (has_data c sent) full k,
        words,
      )
      (refl, named)

-- Where the controller gets idle and then never has data, as a drive that reports an error,
-- `ata_read_sector` never ends, whatever fuel it is given.
pub ata_read_sector-stuck :
    (fuel n : ℕ) (c : Controller) (lba target : ℕ) (ports : List (ℕ × ℕ)) (bytes : ℕ → ℕ)
    → HoldsAfter n 0 (is_idle c (send_command lba ports))
    → ((i : ℕ) → has_data c (send_command lba ports) (n + 1 + i) ≡ false)
    → n < fuel
    → ata_read_sector fuel c lba target ports bytes ≡ out_of_fuel
unfolding ata_read_sector
ata_read_sector-stuck fuel n c lba target ports bytes idle never h =
    let sent = send_command lba ports in
    let start : 0 + n + 1 ≡ n + 1 = omega arith in
    rw
      (
        wait_until-ends n fuel 0 (is_idle c sent) idle h,
        start,
        wait_until-stuck fuel (n + 1) (has_data c sent) never,
      )
      refl
