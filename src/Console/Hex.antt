-- ===== src/Console/Hex.antt =====
-- The hexadecimal output, read back.
use icosaos.Prelude.{
  ℕ, zero, suc, ◌+◌, ◌-◌, ◌*◌, ◌/◌, ◌%◌, ◌<◌, ◌^◌, ◌≡◌, refl, arith, bit_and, ltb, ◌==◌,
  if◌then◌else◌, every, every-lt, get_elem, true,
}
use icosaos.Prelude.Bits.{and-mask}
use icosaos.Console.{hex_chars, hex_digits, hex_buffer}

-- The value of an upper-case hexadecimal digit.
abbrev pub digit_value : ℕ → ℕ
digit_value c = if ltb c 65 then c - 48 else c - 55

-- The value of the `n` digits from position `i` on, after what was read before.
abbrev pub parse_hex : ℕ → ℕ → ℕ → (ℕ → ℕ) → ℕ
parse_hex zero i value buffer = value
parse_hex (suc n) i value buffer = parse_hex n (i + 1) (value * 16 + digit_value (buffer i)) buffer

digit_table : every 16 (λ d. digit_value (get_elem hex_chars d) == d) ≡ true
unfolding every
digit_table = refl

digit_value-hex_chars : (k : ℕ) → digit_value (get_elem hex_chars (bit_and k 15)) ≡ k % 16
digit_value-hex_chars k =
    rw (and-mask 4 k) (ground (arith, every-lt 16 _ digit_table (k % 16) (omega arith)))

-- The eight digits that `terminal_write_hex` prints are the digits of its argument, behind "0x" and
-- before the end of the string.
pub hex_buffer-parse_hex :
    (value : ℕ) (stack : ℕ → ℕ)
    → value < 2 ^ 32
    → (parse_hex 8 2 0 (hex_buffer value stack) ≡ value)
      × (hex_buffer value stack 0 ≡ 48)
      × (hex_buffer value stack 1 ≡ 120)
      × (hex_buffer value stack 10 ≡ 0)
unfolding hex_buffer hex_digits
hex_buffer-parse_hex value stack h = (
  rw
      (
        digit_value-hex_chars (value / 2 ^ 28),
        digit_value-hex_chars (value / 2 ^ 24),
        digit_value-hex_chars (value / 2 ^ 20),
        digit_value-hex_chars (value / 2 ^ 16),
        digit_value-hex_chars (value / 2 ^ 12),
        digit_value-hex_chars (value / 2 ^ 8),
        digit_value-hex_chars (value / 2 ^ 4),
        digit_value-hex_chars (value / 2 ^ 0),
      )
      (omega arith),
  refl,
  refl,
  refl,
)
