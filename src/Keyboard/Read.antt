-- ===== src/Keyboard/Read.antt =====
-- The line editor reads the line that was typed.
use icosaos.Prelude.{
  ℕ, zero, suc, ◌-◌, ◌<◌, ◌^◌, ◌≡◌, inl, inr, refl, sym, ap, true, false, List, [], ◌∷◌, arith,
  sub32, update, ◌==◌, ltb, if◌then◌else◌, Bool-cases, some, Run, ok, size_of,
}
use mathlib.Core.Path.{subst}
use icosaos.Keyboard.{
  Keys, keyboard_get_char_blocking, Editor, put, clear_buffer, erase, type_key, edit_loop,
  kernel_read_line,
}
use icosaos.Keyboard.Queue.{IsQueue, contents}
use icosaos.Keyboard.Line.{
  edit, drop_last, Quiet, keyboard_get_char_blocking-contents, Edits, Holds-update, type_key-Edits,
  erase-Edits,
}

erase-arrivals : (e : Editor) → (erase e).arrivals ≡ e.arrivals
unfolding erase
erase-arrivals e = elim (Bool-cases (ltb 0 e.index)) [
  | inl some_typed ↦ rw some_typed refl
  | inr none_typed ↦ rw none_typed refl
]

edit_loop-full :
    (fuel max_len : ℕ) (e : Editor)
    → ltb e.index (sub32 max_len 1) ≡ false
    → edit_loop (suc fuel) max_len e ≡ ok e
unfolding edit_loop
edit_loop-full fuel max_len e full = rw full refl

-- The round of the loop for the key `c`.
abbrev after_key : ℕ → ℕ → ℕ → Editor → Run Editor
after_key fuel max_len c e =
    if c == 10
    then ok (record e { screen = put 10 ∷ e.screen })
    else if c == 8
    then edit_loop fuel max_len (erase e)
    else edit_loop fuel max_len (type_key c e)

edit_loop-key :
    (fuel max_len c : ℕ) (later : List (List ℕ)) (k : Keys) (e : Editor)
    → ltb e.index (sub32 max_len 1) ≡ true
    → keyboard_get_char_blocking e.arrivals e.keys ≡ ok (c, later, k)
    → edit_loop (suc fuel) max_len e
      ≡ after_key fuel max_len c (record e { keys = k; arrivals = later })
unfolding edit_loop
edit_loop-key fuel max_len c later k e room got = rw (room, got) refl

Quiet-cons :
    (n : ℕ) (arrivals : List (List ℕ))
    → Quiet (suc n) arrivals
    → (later : List (List ℕ)) × (arrivals ≡ [] ∷ later) × Quiet n later
Quiet-cons n [] q = absurd q
Quiet-cons n (now ∷ later) q = (later, ap (λ (x : List ℕ). x ∷ later) q.0, q.1)

-- With more fuel than keys that wait, and no interrupts for as many looks, the loop edits the line.
edit_loop-Edits :
    (fuel max_len : ℕ) (cs line line' rest : List ℕ) (e : Editor)
    → size_of cs < fuel
    → 0 < max_len
    → max_len < 2 ^ 32
    → Quiet (size_of cs) e.arrivals
    → Edits max_len line cs e
    → edit (max_len - 1) cs line ≡ some (line', rest)
    → (e' : Editor) × (edit_loop fuel max_len e ≡ ok e') × Edits max_len line' rest e'
unfolding type_key
edit_loop-Edits zero max_len cs line line' rest e h pos small quiet v f = absurd (omega arith)
edit_loop-Edits (suc fuel) max_len [] line line' rest e h pos small quiet v f =
    elim (Bool-cases (ltb (size_of line) (max_len - 1))) [
      | inr full ↦
          let at = v.index in
          let done : ltb e.index (sub32 max_len 1) ≡ false = ground arith in
          let same : line ≡ line' = ground arith in
          let none_left : [] ≡ rest = ground arith in
          (e, edit_loop-full fuel max_len e done, rw (sym same, sym none_left) v)
      | inl room ↦ absurd (ground arith)
    ]
edit_loop-Edits (suc fuel) max_len (c ∷ cs) line line' rest e h pos small quiet v f =
    elim (Bool-cases (ltb (size_of line) (max_len - 1))) [
      | inr full ↦
          let at = v.index in
          let done : ltb e.index (sub32 max_len 1) ≡ false = ground arith in
          let same : line ≡ line' = ground arith in
          let left : c ∷ cs ≡ rest = ground arith in
          (e, edit_loop-full fuel max_len e done, rw (sym same, sym left) v)
      | inl room ↦
          let at = v.index in
          let more : ltb e.index (sub32 max_len 1) ≡ true = ground arith in
          let (later, quiet_now, quiet') = Quiet-cons (size_of cs) e.arrivals quiet in
          let (k, got, waiting, queue) =
            keyboard_get_char_blocking-contents later e.keys v.queue v.waiting in
          let next : Editor = record e { keys = k; arrivals = later } in
          let w : Edits max_len line cs next = record {
            index = v.index;
            holds = v.holds;
            queue = queue;
            waiting = waiting;
            fits = v.fits;
          } in
          let step = edit_loop-key fuel max_len c later k e more (rw (sym quiet_now) at got) in
          rw step (elim (Bool-cases (c == 10)) [
            | inl enter ↦
                let same : line ≡ line' = ground arith in
                let left : cs ≡ rest = ground arith in
                rw enter (
                  record next { screen = put 10 ∷ e.screen },
                  refl,
                  rw (sym same, sym left)
                      (record {
                        index = v.index;
                        holds = v.holds;
                        queue = queue;
                        waiting = waiting;
                        fits = v.fits;
                      }),
                )
            | inr other ↦ elim (Bool-cases (c == 8)) [
              | inl back ↦
                  rw (other, back)
                    (edit_loop-Edits fuel max_len cs (drop_last line) line' rest (erase next)
                      (omega arith) pos small
                      (subst (Quiet (size_of cs)) (sym (erase-arrivals next)) quiet')
                      (erase-Edits max_len line cs next small w) (rw (room, other, back) at f))
              | inr typed ↦
                  rw (other, typed)
                    (edit_loop-Edits fuel max_len cs (c ∷ line) line' rest (type_key c next)
                      (omega arith) pos small quiet'
                      (type_key-Edits max_len c line cs next small (ground arith) w)
                      (rw (room, other, typed) at f))
            ]
          ])
    ]

-- When the keys that wait hold a line, with its corrections, no interrupt arrives for as many looks,
-- and there is more fuel than keys, `kernel_read_line` ends with that line in the buffer, a zero
-- behind it and within `max_len`, and leaves the keys behind the line.
pub kernel_read_line-edit :
    (fuel max_len : ℕ) (buffer : ℕ → ℕ) (arrivals : List (List ℕ)) (s : Keys) (line rest : List ℕ)
    → IsQueue s
    → size_of (contents s) < fuel
    → 0 < max_len
    → max_len < 2 ^ 32
    → Quiet (size_of (contents s)) arrivals
    → edit (max_len - 1) (contents s) [] ≡ some (line, rest)
    → (e : Editor) × (kernel_read_line fuel max_len buffer arrivals s ≡ ok e)
      × Edits max_len line rest e
      × (e.buffer (size_of line) ≡ 0)
unfolding kernel_read_line
kernel_read_line-edit fuel max_len buffer arrivals s line rest q h pos small quiet f =
    let start : Editor = record {
      buffer = clear_buffer max_len 0 buffer;
      index = 0;
      screen = [];
      keys = s;
      arrivals = arrivals;
    } in
    let v : Edits max_len [] (contents s) start = record {
      index = refl;
      holds = tt;
      queue = q;
      waiting = refl;
      fits = pos;
    } in
    let (e, g, w) =
      edit_loop-Edits fuel max_len (contents s) [] line rest start h pos small quiet v f in
    let at = w.index in
    rw g (
      record e { buffer = update e.buffer e.index 0 },
      refl,
      record {
        index = w.index;
        holds = Holds-update e.buffer line e.index 0 (omega arith) w.holds;
        queue = w.queue;
        waiting = w.waiting;
        fits = w.fits;
      },
      ground arith,
    )
