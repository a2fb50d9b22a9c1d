-- ===== src/Framebuffer/Text/Kept.antt =====
-- What every character leaves as it was.
use icosaos.Prelude.{
  ℕ, ◌+◌, ◌*◌, ◌≤◌, ◌<◌, ◌≡◌, ◌⊎◌, inl, inr, refl, ◌∙◌, arith, true, false, ◌==◌, Bool-cases,
  AllBytes,
}
use icosaos.Framebuffer.{Mode, Screen}
use icosaos.Framebuffer.Geometry.{IsMode}
use icosaos.Framebuffer.Text.{Font, next_line, vga_put_char}
use icosaos.Framebuffer.Text.Place.{IsReady, IsReady-small, Shows, next_line-Shows}
use icosaos.Framebuffer.Text.Put.{vga_put_char-Shows}

pub vga_put_char_newline :
    (font : Font) (c fg bg : ℕ) (s : Screen)
    → (s.mode.framebuffer == 0) ≡ false
    → (c == 10) ≡ true
    → vga_put_char font c fg bg s ≡ next_line bg s
unfolding vga_put_char
vga_put_char_newline font c fg bg s on newline = rw (on, newline) refl

vga_put_char_return :
    (font : Font) (c fg bg : ℕ) (s : Screen)
    → (s.mode.framebuffer == 0) ≡ false
    → (c == 10) ≡ false
    → (c == 13) ≡ true
    → vga_put_char font c fg bg s ≡ record s { cursor_x = 0 }
unfolding vga_put_char
vga_put_char_return font c fg bg s on other back = rw (on, other, back) refl

Shows-IsReady :
    (m : Mode) (f : ℕ → ℕ → ℕ) (x y : ℕ) (b : ℕ → ℕ) (s' : Screen)
    → Shows m f x y b s'
    → IsMode m
    → 8 < m.height
    → x + 8 ≤ m.width
    → y + 8 ≤ m.height
    → AllBytes b
    → IsReady s'
Shows-IsReady m f x y b s' shows v tall hx hy all = record {
  sound = rw shows.same_mode v;
  tall = rw shows.same_mode tall;
  column = rw (shows.same_mode, shows.at_x) hx;
  line = rw (shows.same_mode, shows.at_y) hy;
  all = shows.picture.all_bytes all;
}

-- The screen is ready, in the same mode, and memory around the framebuffer is as it was.
pub record IsKept (s s' : Screen) : Type 0 where
  pub same_mode : s'.mode ≡ s.mode
  pub memory :
      (a : ℕ)
      → (a < s.mode.framebuffer) ⊎ (s.mode.framebuffer + s.mode.height * s.mode.pitch ≤ a)
      → s'.bytes a ≡ s.bytes a
  pub ready : IsReady s'

pub IsKept-after : (s s' s'' : Screen) → IsKept s s' → IsKept s' s'' → IsKept s s''
IsKept-after s s' s'' k k' = record {
  same_mode = k'.same_mode ∙ k.same_mode;
  memory = λ a out. k'.memory a (rw k.same_mode out) ∙ k.memory a out;
  ready = k'.ready;
}

Shows-IsKept :
    (f : ℕ → ℕ → ℕ) (x y : ℕ) (s s' : Screen)
    → Shows s.mode f x y s.bytes s'
    → IsReady s
    → x + 8 ≤ s.mode.width
    → y + 8 ≤ s.mode.height
    → IsKept s s'
Shows-IsKept f x y s s' shows r hx hy = record {
  same_mode = shows.same_mode;
  memory = shows.picture.memory;
  ready = Shows-IsReady s.mode f x y s.bytes s' shows r.sound r.tall hx hy r.all;
}

-- On a ready screen `vga_put_char` of any character leaves the screen ready for the next, in the same
-- mode, and all memory around the framebuffer as it was.
pub vga_put_char-IsKept :
    (font : Font) (c fg bg : ℕ) (s : Screen) → IsReady s → IsKept s (vga_put_char font c fg bg s)
vga_put_char-IsKept font c fg bg s r =
    let column = r.column in
    let line = r.line in
    let tall = r.tall in
    let there = r.sound.there in
    let (wide, high) = IsReady-small s r in
    let on : (s.mode.framebuffer == 0) ≡ false = ground arith in
    elim (Bool-cases (c == 10)) [
      | inl newline ↦
          let shows = next_line-Shows bg s r.sound tall high line r.all in
          rw (vga_put_char_newline font c fg bg s on newline)
            (Shows-IsKept _ _ _ s _ shows r (omega arith) (ground arith))
      | inr other ↦ elim (Bool-cases (c == 13)) [
        | inl back ↦ rw (vga_put_char_return font c fg bg s on other back) (record {
          same_mode = refl;
          memory = λ a out. refl;
          ready = record {
            sound = r.sound;
            tall = tall;
            column = omega arith;
            line = line;
            all = r.all;
          };
        })
        | inr drawn ↦
            Shows-IsKept _ _ _ s _ (vga_put_char-Shows font c fg bg s r other drawn) r
              (ground arith) (ground arith)
      ]
    ]
