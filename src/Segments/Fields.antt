-- ===== src/Segments/Fields.antt =====
-- What the processor reads from a descriptor, against what `gdt_set_gate` was given.
use icosaos.Prelude.{
  ℕ, ◌+◌, ◌*◌, ◌/◌, ◌%◌, ◌<◌, ◌^◌, ◌≡◌, ◌≢◌, refl, true, arith, bit_and, bit_or, every, every-lt,
  ◌==◌, ◌==◌,
}
use icosaos.Prelude.Bits.{and-mask}
use icosaos.Segments.{GdtEntry, Segments, descriptor, gdt_set_gate}

-- The base, limit, flags and privilege level of a descriptor, as the processor puts them together.
abbrev pub base_of : GdtEntry → ℕ
base_of e = e.base_low + e.base_middle * 2 ^ 16 + e.base_high * 2 ^ 24

abbrev pub limit_of : GdtEntry → ℕ
limit_of e = e.limit_low + e.granularity % 16 * 2 ^ 16

abbrev pub flags_of : GdtEntry → ℕ
flags_of e = e.granularity / 16

abbrev pub privilege_of : GdtEntry → ℕ
privilege_of e = e.access / 32 % 4

nibbles_table :
    every 16 (λ low. every 256 (λ gran. bit_or low (bit_and gran 0xF0) == low + gran / 16 * 16))
    ≡ true
unfolding every
nibbles_table = refl

nibbles :
    (low gran : ℕ) → low < 16 → gran < 256 → bit_or low (bit_and gran 0xF0) ≡ low + gran / 16 * 16
nibbles low gran h k = ground (arith, every-lt 256 _ (every-lt 16 _ nibbles_table low h) gran k)

-- The processor reads back the base, the lower 20 bits of the limit, the access byte and the flags
-- that `gdt_set_gate` was given, and no other descriptor changes.
pub gdt_set_gate-fields :
    (num base limit access gran : ℕ) (s : Segments)
    → base < 2 ^ 32
    → gran < 256
    → let s' = gdt_set_gate num base limit access gran s in
      (base_of (s'.gdt num) ≡ base)
      × (limit_of (s'.gdt num) ≡ limit % 2 ^ 20)
      × ((s'.gdt num).access ≡ access)
      × (flags_of (s'.gdt num) ≡ gran / 16)
      × ((k : ℕ) → k ≢ num → s'.gdt k ≡ s.gdt k)
unfolding gdt_set_gate descriptor
gdt_set_gate-fields num base limit access gran s hb hg =
    let self : (num == num) ≡ true = ground arith in
    let low = nibbles (limit / 2 ^ 16 % 16) gran (omega arith) hg in
    let small : limit / 2 ^ 16 % 16 % 2 ^ 8 ≡ limit / 2 ^ 16 % 16 = omega arith in
    rw
      (
        self,
        and-mask 16 base,
        and-mask 8 (base / 2 ^ 16),
        and-mask 8 (base / 2 ^ 24),
        and-mask 16 limit,
        and-mask 4 (limit / 2 ^ 16),
      )
      (
        omega arith,
        rw (small, low) (omega arith),
        refl,
        rw (small, low) (omega arith),
        λ k ne. ground arith,
      )
