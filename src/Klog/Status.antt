-- ===== src/Klog/Status.antt =====
-- When the status of a line of the log is written, and where.
use icosaos.Prelude.{
  ℕ, zero, suc, ◌+◌, ◌*◌, ◌%◌, ◌≤◌, ◌<◌, ◌≡◌, inl, inr, refl, ◌∙◌, arith, true, false, ◌==◌, ltb,
  Bool-cases, List, [], ◌∷◌, size_of, codes, ok, out_of_fuel,
}
use icosaos.Framebuffer.{Screen, vga_get_cursor_x}
use icosaos.Framebuffer.Text.{Font, vga_put_char}
use icosaos.Framebuffer.Text.Place.{IsReady, IsReady-small, line_after, next_line-Shows}
use icosaos.Framebuffer.Text.Put.{vga_put_char-Shows}
use icosaos.Framebuffer.Text.Kept.{IsKept, IsKept-after, vga_put_char-IsKept, vga_put_char_newline}
use icosaos.Framebuffer.Text.Print.{put_all, put_all-IsKept}
use icosaos.Klog.{
  LogStatus, log_success, log_failed, log_warning, Log, fill_gap, print_status, print_tag,
  klog_status,
}

-- A screen kept, with the cursor at `(x, y)`.
pub record Moves (s : Screen) (x y : ℕ) (s' : Screen) : Type 0 where
  pub kept : IsKept s s'
  pub at_x : s'.cursor_x ≡ x
  pub at_y : s'.cursor_y ≡ y

-- A plain character before the last column moves the cursor by a cell.
put_char-Moves :
    (font : Font) (c fg bg : ℕ) (s : Screen)
    → IsReady s
    → (c == 10) ≡ false
    → (c == 13) ≡ false
    → s.cursor_x + 16 ≤ s.mode.width
    → Moves s (s.cursor_x + 8) s.cursor_y (vga_put_char font c fg bg s)
put_char-Moves font c fg bg s r not_newline not_return h =
    let shows = vga_put_char-Shows font c fg bg s r not_newline not_return in
    record {
      kept = vga_put_char-IsKept font c fg bg s r;
      at_x = shows.at_x ∙ ground arith;
      at_y = shows.at_y ∙ ground arith;
    }

-- On a ready screen of 680 columns or more whose cursor is at the left edge of a cell, the loop of
-- `klog_status` ends after at most 85 tests, at column 672 or where the cursor was.
fill_gap-Moves :
    (font : Font) (fuel fg bg : ℕ) (s : Screen)
    → IsReady s
    → s.cursor_x % 8 ≡ 0
    → s.cursor_x ≤ 672
    → 680 ≤ s.mode.width
    → 672 < s.cursor_x + 8 * fuel
    → (s' : Screen) × (fill_gap font fuel fg bg s ≡ ok s') × Moves s 672 s.cursor_y s'
unfolding fill_gap vga_get_cursor_x
fill_gap-Moves font zero fg bg s r grid h wide enough = absurd (omega arith)
fill_gap-Moves font (suc fuel) fg bg s r grid h wide enough =
    elim (Bool-cases (ltb s.cursor_x 672)) [
      | inl more ↦
          let first = put_char-Moves font 32 fg bg s r refl refl (ground arith) in
          let k = first.kept in
          let (s', ended, moves) =
            fill_gap-Moves font fuel fg bg (vga_put_char font 32 fg bg s) k.ready
              (rw first.at_x (omega arith)) (rw first.at_x (ground arith)) (rw k.same_mode wide)
              (rw first.at_x (omega arith)) in
          (
            s',
            rw more ended,
            record {
              kept = IsKept-after s (vga_put_char font 32 fg bg s) s' k moves.kept;
              at_x = moves.at_x;
              at_y = moves.at_y ∙ first.at_y;
            },
          )
      | inr done ↦ (
        s,
        rw done refl,
        record { kept = put_all-IsKept font [] fg bg s r; at_x = ground arith; at_y = refl },
      )
    ]

-- A screen of fewer than 680 columns never lets the loop end.
fill_gap-stuck :
    (font : Font) (fuel fg bg : ℕ) (s : Screen)
    → IsReady s
    → s.mode.width < 680
    → fill_gap font fuel fg bg s ≡ out_of_fuel
unfolding fill_gap vga_get_cursor_x
fill_gap-stuck font zero fg bg s r narrow = refl
fill_gap-stuck font (suc fuel) fg bg s r narrow =
    let k = vga_put_char-IsKept font 32 fg bg s r in
    let column = r.column in
    let more : ltb s.cursor_x 672 ≡ true = ground arith in
    rw more (
      fill_gap-stuck font fuel fg bg (vga_put_char font 32 fg bg s) k.ready (rw k.same_mode narrow))

-- On a ready screen of fewer than 680 columns the loop of `klog_status` never ends: the result is out
-- of fuel whatever the fuel, the status and the colors.
pub klog_status-stuck :
    (font : Font) (fuel : ℕ) (status : LogStatus) (l : Log)
    → IsReady l.screen
    → l.screen.mode.width < 680
    → klog_status font fuel status l ≡ out_of_fuel
unfolding klog_status
klog_status-stuck font fuel status l r narrow =
    rw (fill_gap-stuck font fuel l.default_fg l.default_bg l.screen r narrow) refl

-- Characters that move the cursor by a cell each.
abbrev pub Plain : List ℕ → Type 0
Plain [] = Unit {0}
Plain (c ∷ cs) = ((c == 10) ≡ false) × ((c == 13) ≡ false) × Plain cs

Moves-after :
    (s : Screen) (x y : ℕ) (s1 : Screen) (x' y' : ℕ) (s2 : Screen)
    → Moves s x y s1
    → Moves s1 x' y' s2
    → Moves s x' y' s2
Moves-after s x y s1 x' y' s2 first second = record {
  kept = IsKept-after s s1 s2 first.kept second.kept;
  at_x = second.at_x;
  at_y = second.at_y;
}

pub put_all-Moves :
    (font : Font) (cs : List ℕ) (fg bg : ℕ) (s : Screen)
    → IsReady s
    → Plain cs
    → s.cursor_x + 8 * size_of cs + 8 ≤ s.mode.width
    → Moves s (s.cursor_x + 8 * size_of cs) s.cursor_y (put_all font cs fg bg s)
put_all-Moves font [] fg bg s r plain h = record {
  kept = put_all-IsKept font [] fg bg s r;
  at_x = omega arith;
  at_y = refl;
}
put_all-Moves font (c ∷ cs) fg bg s r (p, q, plain) h =
    let s1 = vga_put_char font c fg bg s in
    let first = put_char-Moves font c fg bg s r p q (omega arith) in
    let k = first.kept in
    let rest =
      put_all-Moves font cs fg bg s1 k.ready plain (rw (first.at_x, k.same_mode) (omega arith)) in
    record {
      kept = IsKept-after s s1 _ k rest.kept;
      at_x = rest.at_x ∙ rw first.at_x (omega arith);
      at_y = rest.at_y ∙ first.at_y;
    }

print_status-Moves :
    (font : Font) (status : LogStatus) (bg : ℕ) (s : Screen)
    → IsReady s
    → s.cursor_x + 40 ≤ s.mode.width
    → Moves s (s.cursor_x + 32) s.cursor_y (print_status font status bg s)
unfolding print_status
print_status-Moves font log_success bg s r h =
    put_all-Moves font (codes " OK ") _ bg s r
      (refl, refl, (refl, refl, (refl, refl, (refl, refl, tt)))) (omega arith)
print_status-Moves font log_failed bg s r h =
    put_all-Moves font (codes "FAIL") _ bg s r
      (refl, refl, (refl, refl, (refl, refl, (refl, refl, tt)))) (omega arith)
print_status-Moves font log_warning bg s r h =
    put_all-Moves font (codes "WARN") _ bg s r
      (refl, refl, (refl, refl, (refl, refl, (refl, refl, tt)))) (omega arith)

newline-Moves :
    (font : Font) (fg bg : ℕ) (s : Screen)
    → IsReady s
    → Moves s 0 (line_after s.mode s.cursor_y) (vga_put_char font 10 fg bg s)
newline-Moves font fg bg s r =
    let there = r.sound.there in
    let (wide, high) = IsReady-small s r in
    let shows = next_line-Shows bg s r.sound r.tall high r.line r.all in
    let e = vga_put_char_newline font 10 fg bg s (ground arith) refl in
    record {
      kept = vga_put_char-IsKept font 10 fg bg s r;
      at_x = rw e shows.at_x;
      at_y = rw e shows.at_y;
    }

print_tag-Moves :
    (font : Font) (status : LogStatus) (fg bg : ℕ) (s : Screen)
    → IsReady s
    → s.cursor_x + 72 ≤ s.mode.width
    → Moves s 0 (line_after s.mode s.cursor_y) (print_tag font status fg bg s)
unfolding print_tag
print_tag-Moves font status fg bg s r h =
    let s1 = put_all font (codes "[ ") fg bg s in
    let s2 = print_status font status bg s1 in
    let s3 = put_all font (codes " ]") fg bg s2 in
    let m1 =
      put_all-Moves font (codes "[ ") fg bg s r (refl, refl, (refl, refl, tt)) (omega arith) in
    let k1 = m1.kept in
    let m2 =
      print_status-Moves font status bg s1 k1.ready (rw (m1.at_x, k1.same_mode) (omega arith)) in
    let m12 = Moves-after s _ _ s1 _ _ s2 m1 m2 in
    let k2 = m12.kept in
    let x2 : s2.cursor_x ≡ s.cursor_x + 48 = m12.at_x ∙ rw m1.at_x (omega arith) in
    let m3 =
      put_all-Moves font (codes " ]") fg bg s2 k2.ready (refl, refl, (refl, refl, tt))
        (rw (x2, k2.same_mode) (omega arith)) in
    let m123 = Moves-after s _ _ s2 _ _ s3 m12 m3 in
    let k3 = m123.kept in
    let last = newline-Moves font fg bg s3 k3.ready in
    let y3 : s3.cursor_y ≡ s.cursor_y = m123.at_y ∙ m12.at_y ∙ m1.at_y in
    record {
      kept = IsKept-after s s3 _ k3 last.kept;
      at_x = last.at_x;
      at_y = last.at_y ∙ rw (k3.same_mode, y3) refl;
    }

-- On a ready screen of 744 columns or more whose cursor stands at the left edge of a cell, at column
-- 672 or before, `klog_status` returns within 85 tests of its loop: the colors are as before, the
-- cursor is at the start of the line after the one it was on, the screen is ready for more, and memory
-- around the framebuffer is as it was.
pub klog_status-returns :
    (font : Font) (fuel : ℕ) (status : LogStatus) (l : Log)
    → IsReady l.screen
    → l.screen.cursor_x % 8 ≡ 0
    → l.screen.cursor_x ≤ 672
    → 744 ≤ l.screen.mode.width
    → 85 ≤ fuel
    → (s' : Screen) × (klog_status font fuel status l ≡ ok (record l { screen = s' }))
      × IsKept l.screen s'
      × (s'.cursor_x ≡ 0)
      × (s'.cursor_y ≡ line_after l.screen.mode l.screen.cursor_y)
unfolding klog_status
klog_status-returns font fuel status l r grid h wide enough =
    let (s1, ended, m1) =
      fill_gap-Moves font fuel l.default_fg l.default_bg l.screen r grid h (omega arith)
        (omega arith) in
    let k1 = m1.kept in
    let m2 =
      print_tag-Moves font status l.default_fg l.default_bg s1 k1.ready
        (rw (m1.at_x, k1.same_mode) (omega arith)) in
    (
      print_tag font status l.default_fg l.default_bg s1,
      rw ended refl,
      IsKept-after l.screen s1 _ k1 m2.kept,
      m2.at_x,
      m2.at_y ∙ rw (k1.same_mode, m1.at_y) refl,
    )
