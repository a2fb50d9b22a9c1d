-- ===== src/Keyboard/Line.antt =====
-- The line that the editor reads, against the keys that were typed.
use icosaos.Prelude.{
  ℕ, zero, suc, ◌+◌, ◌≤◌, ◌<◌, ◌^◌, ◌≡◌, inl, inr, ap, ◌∙◌, true, false, List, [], ◌∷◌, arith,
  sub32, update, ◌==◌, ltb, if◌then◌else◌, Option, none, some, ok, size_of,
}
use icosaos.Keyboard.{
  Keys, keyboard_get_char, keyboard_get_char_blocking, interrupts, Editor, erase, type_key,
}
use icosaos.Keyboard.Queue.{IsQueue, contents, keyboard_get_char-contents}

abbrev pub drop_last : List ℕ → List ℕ
drop_last [] = []
drop_last (x ∷ xs) = xs

-- Editing on the list of typed keys: the line so far, its last character first, becomes the line
-- when Enter is typed or `limit` characters are reached; the keys behind it are left over. `none`
-- when the keys end before that.
abbrev pub edit : ℕ → List ℕ → List ℕ → Option (List ℕ × List ℕ)
edit limit [] line = if ltb (size_of line) limit then none else some (line, [])
edit limit (c ∷ cs) line =
    let shorter = edit limit cs (drop_last line) in
    let longer = edit limit cs (c ∷ line) in
    if ltb (size_of line) limit
    then if c == 10 then some (line, cs) else if c == 8 then shorter else longer
    else some (line, c ∷ cs)

-- The line, last character first, stands in the buffer below index `size_of line`.
abbrev pub Holds : (ℕ → ℕ) → List ℕ → Type 0
Holds buffer [] = Unit {0}
Holds buffer (c ∷ cs) = (buffer (size_of cs) ≡ c) × Holds buffer cs

-- No interrupt arrives for at least `n` looks at the buffer.
abbrev pub Quiet : ℕ → List (List ℕ) → Type 0
Quiet zero arrivals = Unit {0}
Quiet (suc n) [] = ⊥
Quiet (suc n) (now ∷ later) = (now ≡ []) × Quiet n later

-- With a key waiting the blocking read returns the oldest one at its first look.
pub keyboard_get_char_blocking-contents :
    (later : List (List ℕ)) (s : Keys) {c : ℕ} {cs : List ℕ}
    → IsQueue s
    → contents s ≡ c ∷ cs
    → (s' : Keys) × (keyboard_get_char_blocking ([] ∷ later) s ≡ ok (c, later, s'))
      × (contents s' ≡ cs)
      × IsQueue s'
unfolding keyboard_get_char_blocking interrupts
keyboard_get_char_blocking-contents later s {c} {cs} q e = elim (keyboard_get_char-contents s q) [
  | inl (empty, _) ↦ absurd (ground arith)
  | inr (d, ds, f, pos, got, rest, v) ↦
      let same : d ≡ c = ground arith in
      let sames : ds ≡ cs = ground arith in
      let nonzero : ((keyboard_get_char s).0 == 0) ≡ false = ground arith in
      (
        (keyboard_get_char s).1,
        rw nonzero (ap (λ (k : ℕ). ok (k, later, (keyboard_get_char s).1)) (got ∙ same)),
        rest ∙ sames,
        v,
      )
]

pub Holds-update :
    (buffer : ℕ → ℕ) (line : List ℕ) (j x : ℕ)
    → size_of line ≤ j
    → Holds buffer line
    → Holds (update buffer j x) line
Holds-update buffer [] j x h v = tt
Holds-update buffer (c ∷ cs) j x h v =
    let other : (j == size_of cs) ≡ false = ground arith in
    (rw other v.0, Holds-update buffer cs j x (omega arith) v.1)

-- The editor with the line typed so far, and the keys that wait.
pub record Edits (max_len : ℕ) (line keys : List ℕ) (e : Editor) : Type 0 where
  pub index : e.index ≡ size_of line
  pub holds : Holds e.buffer line
  pub queue : IsQueue e.keys
  pub waiting : contents e.keys ≡ keys
  pub fits : size_of line < max_len

pub type_key-Edits :
    (max_len c : ℕ) (line keys : List ℕ) (e : Editor)
    → max_len < 2 ^ 32
    → size_of line + 1 < max_len
    → Edits max_len line keys e
    → Edits max_len (c ∷ line) keys (type_key c e)
unfolding type_key
type_key-Edits max_len c line keys e small room v =
    let at = v.index in
    record {
      index = omega arith;
      holds = (ground arith, Holds-update e.buffer line e.index c (omega arith) v.holds);
      queue = v.queue;
      waiting = v.waiting;
      fits = omega arith;
    }

pub erase-Edits :
    (max_len : ℕ) (line keys : List ℕ) (e : Editor)
    → max_len < 2 ^ 32
    → Edits max_len line keys e
    → Edits max_len (drop_last line) keys (erase e)
unfolding erase
erase-Edits max_len [] keys e small v =
    let at = v.index in let none_typed : ltb 0 e.index ≡ false = ground arith in rw none_typed v
erase-Edits max_len (c ∷ line) keys e small v =
    let at = v.index in
    let fits = v.fits in
    let typed : ltb 0 e.index ≡ true = ground arith in
    let back : sub32 e.index 1 ≡ size_of line = omega arith in
    rw typed (record {
      index = back;
      holds = rw back (Holds-update e.buffer line (size_of line) 0 (omega arith) v.holds.1);
      queue = v.queue;
      waiting = v.waiting;
      fits = omega arith;
    })
