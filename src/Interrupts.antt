-- ===== src/Interrupts.antt =====
-- src/kernel/idt.c: the interrupt descriptor table. The addresses of the assembly stubs are a
-- parameter, and `idt_flush` is recorded.
pub mod Gates
use icosaos.Prelude.{
  ℕ, zero, suc, ◌+◌, ◌-◌, ◌*◌, List, ◌∷◌, bit_and, bit_or, u8, u16, ◌<<<◌, ◌>>>◌, update,
}

pub record IdtEntry : Type 0 where
  pub offset_low : ℕ
  pub selector : ℕ
  pub zero_byte : ℕ
  pub type_attributes : ℕ
  pub offset_high : ℕ

pub record Interrupts : Type 0 where
  pub idt : ℕ → IdtEntry
  pub limit : ℕ
  pub base : ℕ
  pub loaded : List ℕ

abbrev pub idt_entries : ℕ
idt_entries = 256

-- `sizeof(idt_entry_t)`
abbrev pub idt_entry_size : ℕ
idt_entry_size = 8

abbrev pub kernel_code_selector : ℕ
kernel_code_selector = 0x08

abbrev pub idt_gate_int32 : ℕ
idt_gate_int32 = 0x0E

abbrev pub int_dpl_ring0 : ℕ
int_dpl_ring0 = 0x00

abbrev pub int_dpl_ring3 : ℕ
int_dpl_ring3 = 0x03

unfoldable pub idt_set_gate : ℕ → ℕ → ℕ → Interrupts → Interrupts
idt_set_gate vector isr_address attributes s = record s {
  idt = update s.idt vector (record {
    offset_low = u16 (bit_and isr_address 0xFFFF);
    selector = kernel_code_selector;
    zero_byte = 0;
    type_attributes = attributes;
    offset_high = u16 (bit_and (isr_address >>> 16) 0xFFFF);
  });
}

unfoldable pub idt_create_attributes : ℕ → ℕ → ℕ
idt_create_attributes gate_type dpl =
    let present = u8 (bit_or 0 (1 <<< 7)) in
    let levelled = u8 (bit_or present (bit_and dpl 0x03 <<< 5)) in
    u8 (bit_or levelled (bit_and gate_type 0x0F))

-- The addresses of the stubs in assembly.
pub record Stubs : Type 0 where
  pub isr_err : ℕ → ℕ
  pub timer_interrupt_handler : ℕ
  pub keyboard_gate : ℕ
  pub syscall_isr_wrapper : ℕ

-- The calls for the exceptions, one after the other, with `n` left.
unfoldable pub set_exceptions : ℕ → ℕ → Stubs → Interrupts → Interrupts
set_exceptions zero vector stubs s = s
set_exceptions (suc n) vector stubs s = set_exceptions n (vector + 1) stubs (
    idt_set_gate vector (stubs.isr_err vector) (idt_create_attributes idt_gate_int32 int_dpl_ring0)
      s)

unfoldable pub idt_init : Stubs → ℕ → ℕ → Interrupts → Interrupts
idt_init stubs idt_address idtr_address s =
    let kernel_gate = idt_create_attributes idt_gate_int32 int_dpl_ring0 in
    let user_gate = idt_create_attributes idt_gate_int32 int_dpl_ring3 in
    let s0 = record s { limit = idt_entry_size * idt_entries - 1; base = idt_address } in
    let s1 = set_exceptions 32 0 stubs s0 in
    let s2 = idt_set_gate 32 stubs.timer_interrupt_handler kernel_gate s1 in
    let s3 = idt_set_gate 33 stubs.keyboard_gate kernel_gate s2 in
    let s4 = idt_set_gate 0x40 stubs.syscall_isr_wrapper user_gate s3 in
    record s4 { loaded = idtr_address ∷ s4.loaded }
