-- ===== src/Handlers/Screens.antt =====
-- The numbers of the reports read back, and the screen after one.
use icosaos.Prelude.{
  ℕ, ◌+◌, ◌-◌, ◌*◌, ◌/◌, ◌%◌, ◌<◌, ◌^◌, ◌≡◌, refl, arith, true, false, bit_and, ◌==◌, ltb,
  if◌then◌else◌, List, [], ◌∷◌, codes, get_elem, every, every-lt,
}
use icosaos.Prelude.Bits.{and-mask}
use icosaos.Framebuffer.{Screen, vga_clear_screen}
use icosaos.Framebuffer.Fill.{vga_clear_screen-Draws}
use icosaos.Framebuffer.Text.{Font}
use icosaos.Framebuffer.Text.Place.{IsReady}
use icosaos.Framebuffer.Text.Kept.{IsKept, IsKept-after}
use icosaos.Framebuffer.Text.Print.{put_all, put_all-IsKept}
use icosaos.Handlers.{hex_from, hex_string, say, rgb_white, rgb_red}

-- The value of an upper-case hexadecimal digit, and of a string of digits behind what was read.
abbrev pub hex_digit : ℕ → ℕ
hex_digit c = if ltb c 65 then c - 48 else c - 55

abbrev pub read_hex : List ℕ → ℕ → ℕ
read_hex [] value = value
read_hex (c ∷ cs) value = read_hex cs (value * 16 + hex_digit c)

digits : every 16 (λ d. hex_digit (get_elem (codes "0123456789ABCDEF") d) == d) ≡ true
unfolding every
digits = refl

digit_of : (k : ℕ) → hex_digit (get_elem (codes "0123456789ABCDEF") (bit_and k 15)) ≡ k % 16
digit_of k = rw (and-mask 4 k) (ground (arith, every-lt 16 _ digits (k % 16) (omega arith)))

-- The string that `vga_print_hex` prints is "0x" and eight digits, which read as the number.
pub hex_string-read_hex :
    (val : ℕ)
    → val < 2 ^ 32
    → (hex_string val ≡ 48 ∷ 120 ∷ hex_from 8 0 val) × (read_hex (hex_from 8 0 val) 0 ≡ val)
unfolding hex_string hex_from
hex_string-read_hex val h = (
  refl,
  rw
      (
        digit_of (val / 2 ^ 28),
        digit_of (val / 2 ^ 24),
        digit_of (val / 2 ^ 20),
        digit_of (val / 2 ^ 16),
        digit_of (val / 2 ^ 12),
        digit_of (val / 2 ^ 8),
        digit_of (val / 2 ^ 4),
        digit_of (val / 2 ^ 0),
      )
      (omega arith),
)

pub vga_clear_screen-IsKept :
    (color : ℕ) (s : Screen) → IsReady s → IsKept s (vga_clear_screen color s)
unfolding vga_clear_screen
vga_clear_screen-IsKept color s r =
    let (draws, at_x, at_y) = vga_clear_screen-Draws color s r.sound in
    let there = r.sound.there in
    let on : (s.mode.framebuffer == 0) ≡ false = ground arith in
    let all = rw on at draws.all_bytes in
    let memory = rw on at draws.memory in
    rw on (record {
      same_mode = refl;
      memory = memory;
      ready = record {
        sound = r.sound;
        tall = r.tall;
        column = r.column;
        line = r.line;
        all = all r.all;
      };
    })

pub say-IsKept :
    (font : Font) (ms : List (List ℕ)) (s : Screen) → IsReady s → IsKept s (say font ms s)
unfolding say
say-IsKept font [] s r = put_all-IsKept font [] rgb_white rgb_red s r
say-IsKept font (m ∷ ms) s r =
    let first = put_all-IsKept font m rgb_white rgb_red s r in
    IsKept-after s (put_all font m rgb_white rgb_red s) _ first
      (say-IsKept font ms (put_all font m rgb_white rgb_red s) first.ready)
