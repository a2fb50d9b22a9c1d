-- ===== src/Segments.antt =====
-- src/kernel/gdt.c and src/kernel/tss.c: the segment descriptors and the task state segment.
-- `gdt_flush` and `flush_tss` are assembly: what they load is recorded, the last operand first.
pub mod Fields
pub mod Startup
use icosaos.Prelude.{ℕ, ◌-◌, ◌*◌, List, [], ◌∷◌, bit_and, bit_or, u8, u16, ◌>>>◌, update}

pub record GdtEntry : Type 0 where
  pub limit_low : ℕ
  pub base_low : ℕ
  pub base_middle : ℕ
  pub access : ℕ
  pub granularity : ℕ
  pub base_high : ℕ

pub record Tss : Type 0 where
  pub prev_tss : ℕ
  pub esp0 : ℕ
  pub ss0 : ℕ
  pub esp1 : ℕ
  pub ss1 : ℕ
  pub esp2 : ℕ
  pub ss2 : ℕ
  pub cr3 : ℕ
  pub eip : ℕ
  pub eflags : ℕ
  pub eax : ℕ
  pub ecx : ℕ
  pub edx : ℕ
  pub ebx : ℕ
  pub esp : ℕ
  pub ebp : ℕ
  pub esi : ℕ
  pub edi : ℕ
  pub es : ℕ
  pub cs : ℕ
  pub ss : ℕ
  pub ds : ℕ
  pub fs : ℕ
  pub gs : ℕ
  pub ldt : ℕ
  pub trap : ℕ
  pub iomap_base : ℕ

-- `sizeof(gdt_entry_t)` and `sizeof(tss_entry_t)`, both packed.
abbrev pub gdt_entry_size : ℕ
gdt_entry_size = 8

abbrev pub tss_entry_size : ℕ
tss_entry_size = 104

pub record Segments : Type 0 where
  pub gdt : ℕ → GdtEntry
  pub ptr_limit : ℕ
  pub ptr_base : ℕ
  pub tss_entry : Tss
  pub loaded : List ℕ

-- The entry that `gdt_set_gate` writes, field by field.
unfoldable pub descriptor : ℕ → ℕ → ℕ → ℕ → GdtEntry
descriptor base limit access gran = record {
  limit_low = u16 (bit_and limit 0xFFFF);
  base_low = u16 (bit_and base 0xFFFF);
  base_middle = u8 (bit_and (base >>> 16) 0xFF);
  access = access;
  granularity = u8 (bit_or (u8 (bit_and (limit >>> 16) 0x0F)) (bit_and gran 0xF0));
  base_high = u8 (bit_and (base >>> 24) 0xFF);
}

unfoldable pub gdt_set_gate : ℕ → ℕ → ℕ → ℕ → ℕ → Segments → Segments
gdt_set_gate num base limit access gran s = record s {
  gdt = update s.gdt num (descriptor base limit access gran);
}

-- All bytes are cleared, then three fields are set.
unfoldable pub write_tss : ℕ → ℕ → Segments → Segments
write_tss ss0 esp0 s = record s {
  tss_entry = record {
    prev_tss = 0;
    esp0 = esp0;
    ss0 = ss0;
    esp1 = 0;
    ss1 = 0;
    esp2 = 0;
    ss2 = 0;
    cr3 = 0;
    eip = 0;
    eflags = 0;
    eax = 0;
    ecx = 0;
    edx = 0;
    ebx = 0;
    esp = 0;
    ebp = 0;
    esi = 0;
    edi = 0;
    es = 0;
    cs = 0;
    ss = 0;
    ds = 0;
    fs = 0;
    gs = 0;
    ldt = 0;
    trap = 0;
    iomap_base = tss_entry_size;
  };
}

-- The addresses of `stack_top`, `gdt`, `gdt_ptr` and `tss_entry` come from the linker.
unfoldable pub gdt_init : ℕ → ℕ → ℕ → ℕ → Segments → Segments
gdt_init stack_top gdt_address ptr_address tss_base s =
    let s0 = record s { ptr_limit = gdt_entry_size * 6 - 1; ptr_base = gdt_address } in
    let s1 = gdt_set_gate 0 0 0 0 0 s0 in
    let s2 = gdt_set_gate 1 0 0xFFFFFFFF 0x9A 0xCF s1 in
    let s3 = gdt_set_gate 2 0 0xFFFFFFFF 0x92 0xCF s2 in
    let s4 = gdt_set_gate 3 0 0xFFFFFFFF 0xFA 0xCF s3 in
    let s5 = gdt_set_gate 4 0 0xFFFFFFFF 0xF2 0xCF s4 in
    let s6 = write_tss 0x10 stack_top s5 in
    let s7 = gdt_set_gate 5 tss_base (tss_entry_size - 1) 0x89 0x00 s6 in
    record s7 { loaded = 0x28 ∷ ptr_address ∷ s7.loaded }
