-- ===== src/Fat32/Names.antt =====
-- Short names: what is printed of the 8 and 3 characters of a directory entry.
use icosaos.Prelude.{
  ℕ, zero, suc, ◌+◌, ◌≤◌, ◌<◌, ◌≡◌, refl, inl, inr, ap, ◌∙◌, ◌||◌, not, List, [], ◌∷◌, ◌++◌, arith,
  update, ◌==◌, if◌then◌else◌, Bool-cases, size_of, false,
}
use icosaos.Fat32.{copy_used, format_fat_name}

-- The characters among `n` from `i` on that are no blanks.
abbrev pub used : ℕ → ℕ → (ℕ → ℕ) → List ℕ
used zero i raw_name = []
used (suc n) i raw_name =
    let rest = used n (i + 1) raw_name in if raw_name i == 32 then rest else raw_name i ∷ rest

-- The name, and behind a dot the extension, if there is one.
abbrev pub dotted : List ℕ → List ℕ → List ℕ
dotted name [] = name
dotted name (c ∷ cs) = name ++ 46 ∷ c ∷ cs

abbrev pub HoldsAt : (ℕ → ℕ) → ℕ → List ℕ → Type 0
HoldsAt dest p [] = Unit {0}
HoldsAt dest p (c ∷ cs) = (dest p ≡ c) × HoldsAt dest (p + 1) cs

-- The characters `cs` were written from `p` on, and nothing else.
pub record Writes (dest : ℕ → ℕ) (p : ℕ) (cs : List ℕ) (r : ℕ × (ℕ → ℕ)) : Type 0 where
  pub end : r.0 ≡ p + size_of cs
  pub holds : HoldsAt r.1 p cs
  pub below : (k : ℕ) → k < p → r.1 k ≡ dest k
  pub above : (k : ℕ) → p + size_of cs ≤ k → r.1 k ≡ dest k

copy_used-Writes :
    (n i : ℕ) (raw_name : ℕ → ℕ) (p : ℕ) (dest : ℕ → ℕ)
    → Writes dest p (used n i raw_name) (copy_used n i raw_name p dest)
unfolding copy_used
copy_used-Writes zero i raw_name p dest = record {
  end = omega arith;
  holds = tt;
  below = λ k h. refl;
  above = λ k h. refl;
}
copy_used-Writes (suc n) i raw_name p dest = elim (Bool-cases (raw_name i == 32)) [
  | inl blank ↦ rw blank (copy_used-Writes n (i + 1) raw_name p dest)
  | inr char ↦
      let w = copy_used-Writes n (i + 1) raw_name (p + 1) (update dest p (raw_name i)) in
      let last = w.end in
      rw char (record {
        end = omega arith;
        holds = (w.below p (omega arith) ∙ ground arith, w.holds);
        below = λ k h. w.below k (omega arith) ∙ ground arith;
        above = λ k h. w.above k (omega arith) ∙ ground arith;
      })
]

pub HoldsAt-frame :
    (dest dest' : ℕ → ℕ) (p : ℕ) (cs : List ℕ)
    → ((k : ℕ) → p ≤ k → k < p + size_of cs → dest' k ≡ dest k)
    → HoldsAt dest p cs
    → HoldsAt dest' p cs
HoldsAt-frame dest dest' p [] same h = tt
HoldsAt-frame dest dest' p (c ∷ cs) same h = (
  same p (omega arith) (omega arith) ∙ h.0,
  HoldsAt-frame dest dest' (p + 1) cs (λ k a b. same k (omega arith) (omega arith)) h.1,
)

HoldsAt-append :
    (dest : ℕ → ℕ) (p q : ℕ) (xs ys : List ℕ)
    → q ≡ p + size_of xs
    → HoldsAt dest p xs
    → HoldsAt dest q ys
    → HoldsAt dest p (xs ++ ys)
HoldsAt-append dest p q [] ys e h k = let f : p ≡ q = omega arith in rw f k
HoldsAt-append dest p q (x ∷ xs) ys e h k =
    (h.0, HoldsAt-append dest (p + 1) q xs ys (omega arith) h.1 k)

size_of-append : (xs ys : List ℕ) → size_of (xs ++ ys) ≡ size_of xs + size_of ys
size_of-append [] ys = omega arith
size_of-append (x ∷ xs) ys = omega (arith, size_of-append xs ys)

size_of-used : (n i : ℕ) (raw_name : ℕ → ℕ) → size_of (used n i raw_name) ≤ n
size_of-used zero i raw_name = omega arith
size_of-used (suc n) i raw_name = ground (arith, size_of-used n (i + 1) raw_name)

-- What `format_fat_name` leaves in the 13 bytes of a name.
pub record Names (dest : ℕ → ℕ) (cs : List ℕ) (r : ℕ → ℕ) : Type 0 where
  pub holds : HoldsAt r 0 cs
  pub terminated : r (size_of cs) ≡ 0
  pub fits : size_of cs ≤ 12
  pub outside : (k : ℕ) → 13 ≤ k → r k ≡ dest k

-- Without an extension.
plain-Names :
    (dest : ℕ → ℕ) (name : List ℕ) (r : ℕ × (ℕ → ℕ))
    → Writes dest 0 name r
    → size_of name ≤ 8
    → Names dest name (update r.1 r.0 0)
plain-Names dest name r w small =
    let end = w.end in
    record {
      holds = HoldsAt-frame r.1 _ 0 name (λ k a b. ground arith) w.holds;
      terminated = ground arith;
      fits = omega arith;
      outside = λ k h. ground (arith, w.above k);
    }

-- With the extension `ext`, written behind a dot.
extended-Names :
    (dest : ℕ → ℕ) (name ext : List ℕ) (r q : ℕ × (ℕ → ℕ))
    → Writes dest 0 name r
    → Writes (update r.1 r.0 46) (r.0 + 1) ext q
    → size_of name ≤ 8
    → size_of ext ≤ 3
    → Names dest (name ++ 46 ∷ ext) (update q.1 q.0 0)
extended-Names dest name ext r q w x small short =
    let end = w.end in
    let last = x.end in
    let size = size_of-append name (46 ∷ ext) in
    record {
      holds =
          HoldsAt-append _ 0 r.0 name (46 ∷ ext) (omega arith)
            (HoldsAt-frame r.1 _ 0 name (λ k a b. ground (arith, x.below k)) w.holds)
            (
              ground (arith, x.below r.0),
              HoldsAt-frame q.1 _ (r.0 + 1) ext (λ k a b. ground arith) x.holds,
            );
      terminated = ground arith;
      fits = omega arith;
      outside = λ k h. ground (arith, x.above k, w.above k);
    }

has_extension :
    (raw_name : ℕ → ℕ)
    → (not (raw_name 8 == 32) || (not (raw_name 9 == 32) || not (raw_name 10 == 32)))
      ≡ not (size_of (used 3 8 raw_name) == 0)
has_extension raw_name = ground arith

-- `format_fat_name` writes the characters of the name that are no blanks, and behind a dot those of
-- the extension if it has any, with a zero behind them, all within the 13 bytes of the field.
pub format_fat_name-Names :
    (raw_name dest : ℕ → ℕ)
    → Names dest (dotted (used 8 0 raw_name) (used 3 8 raw_name)) (format_fat_name raw_name dest)
unfolding format_fat_name
format_fat_name-Names raw_name dest = cases_on (used 3 8 raw_name) refl
  where
    cases_on :
        (ext : List ℕ)
        → used 3 8 raw_name ≡ ext
        → Names dest (dotted (used 8 0 raw_name) ext) (format_fat_name raw_name dest)
    cases_on [] e =
        rw (has_extension raw_name, ap size_of e)
          (plain-Names dest (used 8 0 raw_name) (copy_used 8 0 raw_name 0 dest)
            (copy_used-Writes 8 0 raw_name 0 dest) (size_of-used 8 0 raw_name))
    cases_on (c ∷ cs) e =
        let r = copy_used 8 0 raw_name 0 dest in
        let some_ext : (size_of (c ∷ cs) == 0) ≡ false = ground arith in
        let short : size_of (c ∷ cs) ≤ 3 = omega (arith, size_of-used 3 8 raw_name, ap size_of e) in
        let written = copy_used-Writes 3 8 raw_name (r.0 + 1) (update r.1 r.0 46) in
        rw (has_extension raw_name, ap size_of e)
          (rw some_ext (
            extended-Names dest (used 8 0 raw_name) (c ∷ cs) r
              (copy_used 3 8 raw_name (r.0 + 1) (update r.1 r.0 46))
              (copy_used-Writes 8 0 raw_name 0 dest) (rw e at written) (size_of-used 8 0 raw_name)
              short))
