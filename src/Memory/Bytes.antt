-- ===== src/Memory/Bytes.antt =====
-- The bit operations of memory.c on one byte, checked for every byte and every bit.
use icosaos.Prelude.{
  every, every-lt, ℕ, ◌<◌, ◌≡◌, refl, Bool, true, false, ◌&&◌, ◌||◌, not, arith, ◌==◌,
}
use icosaos.Memory.{is_clear, set_bit, clear_bit}

same : Bool → Bool → Bool
same true b = b
same false b = not b

same→eq : (a b : Bool) → same a b ≡ true → a ≡ b
unfolding same
same→eq true b h = ground arith
same→eq false b h = ground arith

-- One row of the table: the byte `b`, the bit written `k`, the bit read `j`.
abbrev row : ℕ → ℕ → ℕ → Bool
row b k j =
    same (is_clear (set_bit b k) j) (not (k == j) && is_clear b j)
    && same (is_clear (clear_bit b k) j) ((k == j) || is_clear b j)

bit_table : every 256 (λ b. every 8 (λ k. every 8 (λ j. row b k j))) ≡ true
unfolding every same is_clear set_bit clear_bit
bit_table = refl

unfold_row : (b k j : ℕ) → b < 256 → k < 8 → j < 8 → row b k j ≡ true
unfold_row b k j hb hk hj = every-lt 8 _ (every-lt 8 _ (every-lt 256 _ bit_table b hb) k hk) j hj

and_left : (p q : Bool) → (p && q) ≡ true → p ≡ true
and_left p q h = ground arith

and_right : (p q : Bool) → (p && q) ≡ true → q ≡ true
and_right p q h = ground arith

-- Setting bit `k` leaves exactly the other clear bits clear.
pub is_clear-set_bit :
    (b k j : ℕ)
    → b < 256
    → k < 8
    → j < 8
    → is_clear (set_bit b k) j ≡ (not (k == j) && is_clear b j)
is_clear-set_bit b k j hb hk hj = same→eq _ _ (and_left _ _ (unfold_row b k j hb hk hj))

-- Clearing bit `k` makes it clear and leaves the others as they were.
pub is_clear-clear_bit :
    (b k j : ℕ) → b < 256 → k < 8 → j < 8 → is_clear (clear_bit b k) j ≡ ((k == j) || is_clear b j)
is_clear-clear_bit b k j hb hk hj = same→eq _ _ (and_right _ _ (unfold_row b k j hb hk hj))

pub set_bit-lt : (b k : ℕ) → set_bit b k < 256
unfolding set_bit
set_bit-lt b k = omega arith

pub clear_bit-lt : (b k : ℕ) → clear_bit b k < 256
unfolding clear_bit
clear_bit-lt b k = omega arith

undo_table :
    every 256 (λ b. every 8 (λ k. not (is_clear b k) || (clear_bit (set_bit b k) k == b))) ≡ true
unfolding every is_clear set_bit clear_bit
undo_table = refl

-- Clearing a bit that was just set gives the byte back.
pub clear_bit-set_bit :
    (b k : ℕ) → b < 256 → k < 8 → is_clear b k ≡ true → clear_bit (set_bit b k) k ≡ b
clear_bit-set_bit b k hb hk h = ground (arith, every-lt 8 _ (every-lt 256 _ undo_table b hb) k hk)

full_table : every 8 (λ k. not (is_clear 255 k)) ≡ true
unfolding every is_clear
full_table = refl

pub is_clear-full : (k : ℕ) → k < 8 → is_clear 255 k ≡ false
is_clear-full k h = ground (arith, every-lt 8 (λ k. not (is_clear 255 k)) full_table k h)
