-- ===== src/Framebuffer/Text/Place.antt =====
-- Where the next character goes: the start of a line and the advance by a character.
use icosaos.Prelude.{
  ℕ, ◌+◌, ◌-◌, ◌*◌, ◌≤◌, ◌<◌, ◌^◌, ◌≡◌, inl, inr, refl, ap, arith, Bool, add32, ltb, if◌then◌else◌,
  Bool-cases, AllBytes,
}
use icosaos.Framebuffer.{Mode, Screen, vga_read_pixel}
use icosaos.Framebuffer.Geometry.{IsMode, pixel_size, rows_apart}
use icosaos.Framebuffer.Fill.{Draws}
use icosaos.Framebuffer.Scroll.{scrolled, vga_scroll-Draws}
use icosaos.Framebuffer.Text.{next_line, advance}

-- A screen of more than one line of text whose cursor has room for a whole character.
pub record IsReady (s : Screen) : Type 0 where
  pub sound : IsMode s.mode
  pub tall : 8 < s.mode.height
  pub column : s.cursor_x + 8 ≤ s.mode.width
  pub line : s.cursor_y + 8 ≤ s.mode.height
  pub all : AllBytes s.bytes

-- The screen `s'` has the mode `m`, the cursor at `(x, y)` and the picture `f`, and its memory differs
-- from `b` within the framebuffer only.
pub record Shows (m : Mode) (f : ℕ → ℕ → ℕ) (x y : ℕ) (b : ℕ → ℕ) (s' : Screen) : Type 0 where
  pub same_mode : s'.mode ≡ m
  pub picture : Draws m f b s'.bytes
  pub at_x : s'.cursor_x ≡ x
  pub at_y : s'.cursor_y ≡ y

-- Whether a line or a column is the last, and what follows a line.
abbrev pub last_line : Mode → ℕ → Bool
last_line m y = ltb m.height (y + 16)

abbrev pub last_column : Mode → ℕ → Bool
last_column m x = ltb m.width (x + 16)

abbrev pub line_after : Mode → ℕ → ℕ
line_after m y = if last_line m y then m.height - 8 else y + 8

abbrev pub picture_after : Mode → ℕ → ℕ → (ℕ → ℕ → ℕ) → ℕ → ℕ → ℕ
picture_after m bg y f = if last_line m y then scrolled m bg f else f

-- The space of a framebuffer bounds its sides.
pub IsReady-small : (s : Screen) → IsReady s → (s.mode.width < 2 ^ 29) × (s.mode.height < 2 ^ 29)
IsReady-small s r =
    let v = r.sound in
    let tall = r.tall in
    let column = r.column in
    let stride = v.stride in
    let room = v.room in
    let bytes : 3 * s.mode.width ≤ s.mode.pitch = elim v.depth [
      | inl e ↦
          let four : pixel_size s.mode ≡ 4 = omega arith in
          let wide : s.mode.width * 4 ≤ s.mode.pitch = rw (← four) stride in omega arith
      | inr e ↦
          let three : pixel_size s.mode ≡ 3 = omega arith in
          let wide : s.mode.width * 3 ≤ s.mode.pitch = rw (← three) stride in omega arith
    ] in
    let rows = rows_apart 8 s.mode.height s.mode.pitch tall in
    let lines : s.mode.height * 8 ≤ s.mode.height * s.mode.pitch = grind arith in omega arith

pub Draws-self : (m : Mode) (b : ℕ → ℕ) → Draws m (λ x y. vga_read_pixel m x y b) b b
Draws-self m b = record { pixels = λ x y i. refl; memory = λ a out. refl; all_bytes = λ h. h }

-- The start of the next line, on a screen that is ready but for the cursor's column.
pub next_line-Shows :
    (bg_color : ℕ) (s : Screen)
    → IsMode s.mode
    → 8 < s.mode.height
    → s.mode.height < 2 ^ 29
    → s.cursor_y + 8 ≤ s.mode.height
    → AllBytes s.bytes
    → Shows s.mode
        (picture_after s.mode bg_color s.cursor_y (λ x y. vga_read_pixel s.mode x y s.bytes))
        0
        (line_after s.mode s.cursor_y)
        s.bytes
        (next_line bg_color s)
unfolding next_line
next_line-Shows bg_color s v tall small line all =
    let e : add32 (add32 s.cursor_y 8) 8 ≡ s.cursor_y + 16 = omega arith in
    let e' : add32 s.cursor_y 8 ≡ s.cursor_y + 8 = omega arith in
    elim (Bool-cases (last_line s.mode s.cursor_y)) [
      | inl last ↦
          let (picture, moved) =
            vga_scroll-Draws bg_color (record s { cursor_x = 0; cursor_y = s.cursor_y + 8 }) v tall
              all in
          rw (e, last, e')
            (record {
              same_mode = ap Screen.mode moved;
              picture = picture;
              at_x = ap Screen.cursor_x moved;
              at_y = ap Screen.cursor_y moved;
            })
      | inr more ↦
          rw (e, more, e')
            (record {
              same_mode = refl;
              picture = Draws-self s.mode s.bytes;
              at_x = refl;
              at_y = refl;
            })
    ]

-- The advance by a character on a ready screen.
pub advance-Shows :
    (bg_color : ℕ) (s : Screen)
    → IsReady s
    → Shows s.mode
        (if last_column s.mode s.cursor_x
          then picture_after s.mode bg_color s.cursor_y (λ x y. vga_read_pixel s.mode x y s.bytes)
          else λ x y. vga_read_pixel s.mode x y s.bytes)
        (if last_column s.mode s.cursor_x then 0 else s.cursor_x + 8)
        (if last_column s.mode s.cursor_x then line_after s.mode s.cursor_y else s.cursor_y)
        s.bytes
        (advance bg_color s)
unfolding advance
advance-Shows bg_color s r =
    let (wide, high) = IsReady-small s r in
    let column = r.column in
    let e : add32 (add32 s.cursor_x 8) 8 ≡ s.cursor_x + 16 = omega arith in
    let e' : add32 s.cursor_x 8 ≡ s.cursor_x + 8 = omega arith in
    elim (Bool-cases (last_column s.mode s.cursor_x)) [
      | inl last ↦
          rw (e, last)
            (next_line-Shows bg_color (record s { cursor_x = add32 s.cursor_x 8 }) r.sound r.tall
              high r.line r.all)
      | inr more ↦
          rw (e, more, e')
            (record {
              same_mode = refl;
              picture = Draws-self s.mode s.bytes;
              at_x = refl;
              at_y = refl;
            })
    ]
