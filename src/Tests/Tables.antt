-- ===== src/Tests/Tables.antt =====
-- Descriptor tables that are empty before the start.
use icosaos.Prelude.{◌+◌, ◌*◌, ◌≡◌, refl, false, ◌&&◌, ◌==◌, []}
use icosaos.Segments.{Tss, Segments}
use icosaos.Interrupts.{Interrupts, Stubs, idt_init}
use icosaos.Interrupts.Gates.{privilege_of, is_present, idt_init-privilege}

abbrev pub empty_tss : Tss
empty_tss = record {
  prev_tss = 0;
  esp0 = 0;
  ss0 = 0;
  esp1 = 0;
  ss1 = 0;
  esp2 = 0;
  ss2 = 0;
  cr3 = 0;
  eip = 0;
  eflags = 0;
  eax = 0;
  ecx = 0;
  edx = 0;
  ebx = 0;
  esp = 0;
  ebp = 0;
  esi = 0;
  edi = 0;
  es = 0;
  cs = 0;
  ss = 0;
  ds = 0;
  fs = 0;
  gs = 0;
  ldt = 0;
  trap = 0;
  iomap_base = 0;
}

abbrev pub empty_segments : Segments
empty_segments = record {
  gdt = λ k. record {
    limit_low = 0;
    base_low = 0;
    base_middle = 0;
    access = 0;
    granularity = 0;
    base_high = 0;
  };
  ptr_limit = 0;
  ptr_base = 0;
  tss_entry = empty_tss;
  loaded = [];
}

abbrev pub empty_interrupts : Interrupts
empty_interrupts = record {
  idt = λ v. record {
    offset_low = 0;
    selector = 0;
    zero_byte = 0;
    type_attributes = 0;
    offset_high = 0;
  };
  limit = 0;
  base = 0;
  loaded = [];
}

abbrev pub stubs : Stubs
stubs = record {
  isr_err = λ v. 0x100000 + 16 * v;
  timer_interrupt_handler = 0x110000;
  keyboard_gate = 0x120000;
  syscall_isr_wrapper = 0x130000;
}

idt_init-privilege_example :
    (is_present ((idt_init stubs 0x140000 0x150000 empty_interrupts).idt 14)
      && (privilege_of ((idt_init stubs 0x140000 0x150000 empty_interrupts).idt 14) == 3))
    ≡ false
idt_init-privilege_example =
    idt_init-privilege stubs 0x140000 0x150000 empty_interrupts (λ v. refl) 14
