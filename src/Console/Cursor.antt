-- ===== src/Console/Cursor.antt =====
-- The cursor of the text terminal.
use icosaos.Prelude.{
  ℕ, zero, suc, ◌+◌, ◌*◌, ◌%◌, ◌≤◌, ◌<◌, ◌≡◌, ◌≢◌, inl, inr, refl, ap, ◌∙◌, arith, add32, mul32,
  update, ◌==◌, false, Bool-cases,
}
use icosaos.Console.{
  Terminal, vga_entry, terminal_putentryat, terminal_putchar, write_from, terminal_write,
}

-- The cursor stands on the screen.
pub record InScreen (s : Terminal) : Type 0 where
  pub row : s.row < 25
  pub column : s.column < 80

-- The cell of the cursor.
abbrev pub cursor : Terminal → ℕ
cursor s = s.row * 80 + s.column

-- A character that is drawn: neither newline nor backspace.
abbrev pub IsDrawn : ℕ → Type 0
IsDrawn c = (c ≢ 10) × (c ≢ 8)

-- A character is drawn in the cell of the cursor and in no other; the cursor moves on by one cell,
-- from the last one back to the first, and stays on the screen.
pub terminal_putchar-InScreen :
    (c : ℕ) (s : Terminal)
    → InScreen s
    → IsDrawn c
    → InScreen (terminal_putchar c s)
      × (cursor (terminal_putchar c s) ≡ (cursor s + 1) % 2000)
      × ((terminal_putchar c s).buffer ≡ update s.buffer (cursor s) (vga_entry c s.color))
      × ((terminal_putchar c s).color ≡ s.color)
unfolding terminal_putchar terminal_putentryat
terminal_putchar-InScreen c s v (a, b) =
    let hr = v.row in
    let hc = v.column in
    let at : add32 (mul32 s.row 80) s.column ≡ cursor s = omega arith in
    let newline : (c == 10) ≡ false = ground arith in
    let back : (c == 8) ≡ false = ground arith in
    elim (Bool-cases (add32 s.column 1 == 80)) [
      | inl wrap ↦ elim (Bool-cases (add32 s.row 1 == 25)) [
        | inl top ↦
            rw (newline, back, wrap, top, at)
              (record { row = omega arith; column = omega arith }, ground arith, refl, refl)
        | inr next ↦
            rw (newline, back, wrap, next, at)
              (record { row = ground arith; column = omega arith }, ground arith, refl, refl)
      ]
      | inr more ↦
          rw (newline, back, more, at)
            (record { row = hr; column = ground arith }, ground arith, refl, refl)
    ]

write_from-InScreen :
    (n i text : ℕ) (bytes : ℕ → ℕ) (s : Terminal)
    → InScreen s
    → ((k : ℕ) → i ≤ k → k < i + n → IsDrawn (bytes (add32 text k)))
    → InScreen (write_from n i text bytes s)
      × (cursor (write_from n i text bytes s) ≡ (cursor s + n) % 2000)
      × ((k : ℕ) → 2000 ≤ k → (write_from n i text bytes s).buffer k ≡ s.buffer k)
unfolding write_from
write_from-InScreen zero i text bytes s v drawn =
    let hr = v.row in let hc = v.column in (v, omega arith, λ k h. refl)
write_from-InScreen (suc n) i text bytes s v drawn =
    let hr = v.row in
    let hc = v.column in
    let (w, moved, cell, _) =
      terminal_putchar-InScreen (bytes (add32 text i)) s v (drawn i (omega arith) (omega arith)) in
    let (w', moved', outside) =
      write_from-InScreen n (i + 1) text bytes (terminal_putchar (bytes (add32 text i)) s) w
        (λ k p q. drawn k (omega arith) (omega arith)) in
    let below : cursor s < 2000 = omega arith in
    (
      w',
      moved' ∙ omega (arith, moved),
      λ k h. outside k h ∙ ap (λ (b : ℕ → ℕ). b k) cell ∙ ground arith,
    )

-- A text of drawn characters moves the cursor on by its length, around the screen, and writes
-- nothing outside of the 2000 cells.
pub terminal_write-InScreen :
    (text size : ℕ) (bytes : ℕ → ℕ) (s : Terminal)
    → InScreen s
    → ((k : ℕ) → 0 ≤ k → k < size → IsDrawn (bytes (add32 text k)))
    → InScreen (terminal_write text size bytes s)
      × (cursor (terminal_write text size bytes s) ≡ (cursor s + size) % 2000)
      × ((k : ℕ) → 2000 ≤ k → (terminal_write text size bytes s).buffer k ≡ s.buffer k)
unfolding terminal_write
terminal_write-InScreen text size bytes s v drawn =
    write_from-InScreen size 0 text bytes s v (λ k p q. drawn k p (omega arith))

-- A newline on the last row leaves the screen: the next character is written to cell 2000, behind
-- the last one.
pub terminal_putchar-overflow :
    (c : ℕ) (s : Terminal)
    → s.row ≡ 24
    → IsDrawn c
    → (terminal_putchar c (terminal_putchar 10 s)).buffer 2000 ≡ vga_entry c s.color
unfolding terminal_putchar terminal_putentryat
terminal_putchar-overflow c s last (a, b) =
    let newline : (c == 10) ≡ false = ground arith in
    let back : (c == 8) ≡ false = ground arith in rw (newline, back) (rw last refl)
