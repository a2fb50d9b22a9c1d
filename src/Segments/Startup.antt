-- ===== src/Segments/Startup.antt =====
-- The segments after `gdt_init`.
use icosaos.Prelude.{ℕ, ◌<◌, ◌^◌, ◌≡◌, refl, arith, ◌∷◌}
use icosaos.Segments.{Segments, gdt_set_gate, descriptor, write_tss, gdt_init}
use icosaos.Segments.Fields.{base_of, limit_of, flags_of, privilege_of, gdt_set_gate-fields}

-- A segment over the whole address space: base 0, the largest limit, in pages, of 32 bits.
abbrev pub IsFlat : Segments → ℕ → Type 0
IsFlat s num =
    (base_of (s.gdt num) ≡ 0) × (limit_of (s.gdt num) ≡ 0xFFFFF) × (flags_of (s.gdt num) ≡ 0xC)

-- After `gdt_init` the kernel's and the user's segments are flat, the kernel's at privilege level 0
-- and the user's at level 3; the task descriptor stands for the 104 bytes of the task state segment,
-- whose kernel stack is the one given; the table was loaded before the task register.
pub gdt_init-segments :
    (stack_top gdt_address ptr_address tss_base : ℕ) (s : Segments)
    → tss_base < 2 ^ 32
    → let s' = gdt_init stack_top gdt_address ptr_address tss_base s in
      (IsFlat s' 1 × (privilege_of (s'.gdt 1) ≡ 0))
      × (IsFlat s' 2 × (privilege_of (s'.gdt 2) ≡ 0))
      × (IsFlat s' 3 × (privilege_of (s'.gdt 3) ≡ 3))
      × (IsFlat s' 4 × (privilege_of (s'.gdt 4) ≡ 3))
      × ((base_of (s'.gdt 5) ≡ tss_base) × (limit_of (s'.gdt 5) ≡ 103))
      × ((s'.tss_entry.esp0 ≡ stack_top) × (s'.tss_entry.ss0 ≡ 0x10))
      × (s'.loaded ≡ 0x28 ∷ ptr_address ∷ s.loaded)
unfolding gdt_init gdt_set_gate descriptor write_tss
gdt_init-segments stack_top gdt_address ptr_address tss_base s h =
    let task = gdt_set_gate-fields 5 tss_base 103 0x89 0 s h (omega arith) in
    (
      ((refl, refl, refl), refl),
      ((refl, refl, refl), refl),
      ((refl, refl, refl), refl),
      ((refl, refl, refl), refl),
      (task.0, task.1),
      (refl, refl),
      refl,
    )
