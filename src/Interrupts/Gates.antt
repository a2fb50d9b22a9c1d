-- ===== src/Interrupts/Gates.antt =====
-- The gates that are installed: their handlers, and who may call them.
use icosaos.Prelude.{
  ℕ, zero, suc, ◌+◌, ◌*◌, ◌/◌, ◌%◌, ◌<◌, ◌^◌, ◌≡◌, refl, Bool, true, false, ◌&&◌, arith, bit_and,
  leb, ltb, ◌==◌, if◌then◌else◌, u16, ap, inl, inr, Bool-cases, update,
}
use icosaos.Prelude.Bits.{and-mask}
use icosaos.Interrupts.{
  IdtEntry, Interrupts, Stubs, idt_set_gate, idt_create_attributes, set_exceptions, idt_init,
}

-- What the processor reads from a gate.
abbrev pub handler_of : IdtEntry → ℕ
handler_of e = e.offset_low + e.offset_high * 2 ^ 16

abbrev pub privilege_of : IdtEntry → ℕ
privilege_of e = e.type_attributes / 32 % 4

abbrev pub is_present : IdtEntry → Bool
is_present e = e.type_attributes / 128 % 2 == 1

-- The handler of the stubs for each vector that `idt_init` installs.
abbrev pub stub : Stubs → ℕ → ℕ
stub stubs v =
    if ltb v 32
    then stubs.isr_err v
    else if v == 32
    then stubs.timer_interrupt_handler
    else if v == 33
    then stubs.keyboard_gate
    else stubs.syscall_isr_wrapper

abbrev pub installed : ℕ → Bool
installed v = if ltb v 34 then true else v == 0x40

split_offset :
    (a : ℕ) → a < 2 ^ 32 → u16 (bit_and a 0xFFFF) + u16 (bit_and (a / 2 ^ 16) 0xFFFF) * 2 ^ 16 ≡ a
split_offset a h = rw (and-mask 16 a, and-mask 16 (a / 2 ^ 16)) (omega arith)

-- The gate for the handler at `address` with the attributes `attributes`.
abbrev gate : ℕ → ℕ → IdtEntry
gate address attributes = record {
  offset_low = u16 (bit_and address 0xFFFF);
  selector = 8;
  zero_byte = 0;
  type_attributes = attributes;
  offset_high = u16 (bit_and (address / 2 ^ 16) 0xFFFF);
}

set_exceptions-idt :
    (n vector : ℕ) (stubs : Stubs) (s : Interrupts) (v : ℕ)
    → (set_exceptions n vector stubs s).idt v
      ≡ (if leb vector v && ltb v (vector + n) then gate (stubs.isr_err v) 0x8E else s.idt v)
unfolding set_exceptions idt_set_gate idt_create_attributes
set_exceptions-idt zero vector stubs s v = ground arith
set_exceptions-idt (suc n) vector stubs s v = elim (Bool-cases (vector == v)) [
  | inl here ↦
      let e : vector ≡ v = ground arith in
      let f = ap (λ k. gate (stubs.isr_err k) 0x8E) e in
      rw
        (set_exceptions-idt n (vector + 1) stubs
          (record s { idt = update s.idt vector (gate (stubs.isr_err vector) 0x8E) }) v)
        (ground arith)
  | inr elsewhere ↦
      rw
        (set_exceptions-idt n (vector + 1) stubs
          (record s { idt = update s.idt vector (gate (stubs.isr_err vector) 0x8E) }) v)
        (ground arith)
]

idt_init-idt :
    (stubs : Stubs) (idt_address idtr_address : ℕ) (s : Interrupts) (v : ℕ)
    → (idt_init stubs idt_address idtr_address s).idt v
      ≡ (if installed v then gate (stub stubs v) (if v == 0x40 then 0xEE else 0x8E) else s.idt v)
unfolding idt_init idt_set_gate idt_create_attributes
idt_init-idt stubs idt_address idtr_address s v =
    ground (arith, set_exceptions-idt 32 0 stubs (record s { limit = 2047; base = idt_address }) v)

-- After `idt_init` the gates of the 32 exceptions, the timer, the keyboard and the system call hold
-- the addresses of their stubs and are present in the kernel's code segment; every other gate has
-- the handler, the presence and the segment that it had.
pub idt_init-handlers :
    (stubs : Stubs) (idt_address idtr_address : ℕ) (s : Interrupts) (v : ℕ)
    → stub stubs v < 2 ^ 32
    → let e = (idt_init stubs idt_address idtr_address s).idt v in
      (handler_of e ≡ (if installed v then stub stubs v else handler_of (s.idt v)))
      × (is_present e ≡ (if installed v then true else is_present (s.idt v)))
      × (e.selector ≡ (if installed v then 8 else (s.idt v).selector))
idt_init-handlers stubs idt_address idtr_address s v h =
    let split = split_offset (stub stubs v) h in
    rw (idt_init-idt stubs idt_address idtr_address s v) (elim (Bool-cases (installed v)) [
      | inl there ↦ rw there (split, ground arith, refl)
      | inr absent ↦ rw absent (refl, refl, refl)
    ])

-- When no gate is present before, user mode may call exactly one after `idt_init`: the system call.
pub idt_init-privilege :
    (stubs : Stubs) (idt_address idtr_address : ℕ) (s : Interrupts)
    → ((v : ℕ) → is_present (s.idt v) ≡ false)
    → (v : ℕ)
    → (is_present ((idt_init stubs idt_address idtr_address s).idt v)
        && (privilege_of ((idt_init stubs idt_address idtr_address s).idt v) == 3))
      ≡ (v == 0x40)
idt_init-privilege stubs idt_address idtr_address s absent v =
    rw (idt_init-idt stubs idt_address idtr_address s v) (ground (arith, absent v))
