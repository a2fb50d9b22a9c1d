-- ===== src/Keyboard/Queue.antt =====
-- The ring buffer as a queue of at most 255 keys, none of them zero.
use icosaos.Prelude.{
  ℕ, zero, suc, ◌+◌, ◌-◌, ◌%◌, ◌<◌, ◌≡◌, ◌⊎◌, inl, inr, refl, sym, ap, ◌∙◌, true, false, not, ◌&&◌,
  List, [], ◌∷◌, ◌++◌, arith, add32, update, bit_and, ◌==◌, ltb, if◌then◌else◌, Bool-cases, every,
  every-lt, get_elem, size_of,
}
use mathlib.Core.Path.{subst}
use icosaos.Keyboard.{Keys, scancode_to_ascii, enqueue_key, keyboard_get_char, keyboard_handler}

-- `n` keys from index `i` on, around the ring.
abbrev pub content : ℕ → ℕ → (ℕ → ℕ) → List ℕ
content zero i buffer = []
content (suc n) i buffer = buffer (i % 256) ∷ content n (i + 1) buffer

abbrev pub count : Keys → ℕ
count s = (s.buf_head + 256 - s.buf_tail) % 256

-- The keys that wait, the oldest first.
abbrev pub contents : Keys → List ℕ
contents s = content (count s) s.buf_tail s.key_buffer

abbrev pub AllKeys : List ℕ → Type 0
AllKeys [] = Unit {0}
AllKeys (c ∷ cs) = (0 < c) × AllKeys cs

pub record IsQueue (s : Keys) : Type 0 where
  pub head : s.buf_head < 256
  pub tail : s.buf_tail < 256
  pub keys : AllKeys (contents s)

content-mod : (n i : ℕ) (buffer : ℕ → ℕ) → content n i buffer ≡ content n (i % 256) buffer
content-mod zero i buffer = refl
content-mod (suc n) i buffer =
    let e : i % 256 % 256 ≡ i % 256 = omega arith in
    let f : (i % 256 + 1) % 256 ≡ (i + 1) % 256 = omega arith in
    let l = content-mod n (i + 1) buffer in
    let r = content-mod n (i % 256 + 1) buffer in
    rw e (ap (λ (cs : List ℕ). buffer (i % 256) ∷ cs) (l ∙ sym (rw f at r)))

content-append :
    (n i j c : ℕ) (buffer : ℕ → ℕ)
    → n < 256
    → j ≡ (i + n) % 256
    → content (suc n) i (update buffer j c) ≡ content n i buffer ++ c ∷ []
content-append zero i j c buffer h e = ground arith
content-append (suc n) i j c buffer h e =
    let other : (j == i % 256) ≡ false = ground arith in
    let rest = content-append n (i + 1) j c buffer (omega arith) (omega arith) in
    rw other (ap (λ (cs : List ℕ). buffer (i % 256) ∷ cs) rest)

size_of-content : (n i : ℕ) (buffer : ℕ → ℕ) → size_of (content n i buffer) ≡ n
size_of-content zero i buffer = refl
size_of-content (suc n) i buffer = ap suc (size_of-content n (i + 1) buffer)

AllKeys-append : (cs : List ℕ) (c : ℕ) → AllKeys cs → 0 < c → AllKeys (cs ++ c ∷ [])
AllKeys-append [] c h p = (p, tt)
AllKeys-append (d ∷ cs) c h p = (h.0, AllKeys-append cs c h.1 p)

-- A key is put behind the keys that wait; with 255 keys waiting it is dropped.
pub enqueue_key-contents :
    (c : ℕ) (s : Keys)
    → IsQueue s
    → 0 < c
    → IsQueue (enqueue_key c s)
      × (contents (enqueue_key c s)
          ≡ (if ltb (size_of (contents s)) 255 then contents s ++ c ∷ [] else contents s))
unfolding enqueue_key
enqueue_key-contents c s q pos =
    let hh = q.head in
    let ht = q.tail in
    let size : size_of (contents s) ≡ count s = size_of-content (count s) s.buf_tail s.key_buffer in
    elim (Bool-cases (add32 s.buf_head 1 % 256 == s.buf_tail)) [
      | inl full ↦
          let f : ltb (size_of (contents s)) 255 ≡ false = ground arith in rw (full, f) (q, refl)
      | inr room ↦
          let f : ltb (size_of (contents s)) 255 ≡ true = ground arith in
          let n : (add32 s.buf_head 1 % 256 + 256 - s.buf_tail) % 256 ≡ suc (count s) =
            ground arith in
          let e =
            content-append (count s) s.buf_tail s.buf_head c s.key_buffer (omega arith)
              (omega arith) in
          rw (room, f)
            (
              record {
                head = omega arith;
                tail = ht;
                keys =
                    subst AllKeys
                      (sym (
                        ap (λ (k : ℕ). content k s.buf_tail (update s.key_buffer s.buf_head c)) n
                        ∙ e))
                      (AllKeys-append (contents s) c q.keys pos);
              },
              ap (λ (k : ℕ). content k s.buf_tail (update s.key_buffer s.buf_head c)) n ∙ e,
            )
    ]

-- Reading a key returns the oldest one and takes it away; 0 says that none waits.
pub keyboard_get_char-contents :
    (s : Keys)
    → IsQueue s
    → (contents s ≡ []) × (keyboard_get_char s ≡ (0, s))
      ⊎ ((c : ℕ) × (cs : List ℕ) × (contents s ≡ c ∷ cs)
          × (0 < c)
          × ((keyboard_get_char s).0 ≡ c)
          × (contents (keyboard_get_char s).1 ≡ cs)
          × IsQueue (keyboard_get_char s).1)
unfolding keyboard_get_char
keyboard_get_char-contents s q =
    let hh = q.head in
    let ht = q.tail in
    elim (Bool-cases (s.buf_head == s.buf_tail)) [
      | inl empty ↦ let n : count s ≡ 0 = ground arith in rw (empty, n) (inl (refl, refl))
      | inr some_key ↦
          let next = add32 s.buf_tail 1 % 256 in
          let m = (s.buf_head + 256 - next) % 256 in
          let n : count s ≡ suc m = ground arith in
          let at : s.buf_tail % 256 ≡ s.buf_tail = omega arith in
          let wrap : (s.buf_tail + 1) % 256 ≡ next = omega arith in
          let rest = content-mod m (s.buf_tail + 1) s.key_buffer in
          let keys = rw n at q.keys in
          rw some_key (
            inr (
              s.key_buffer s.buf_tail,
              content m next s.key_buffer,
              rw (n, at) (ap (λ (cs : List ℕ). s.key_buffer s.buf_tail ∷ cs) (rw wrap at rest)),
              rw at at keys.0,
              refl,
              refl,
              record { head = hh; tail = omega arith; keys = rw (rest, wrap) at keys.1 },
            ))
    ]

press_table : every 58 (λ scancode. bit_and scancode 0x80 == 0) ≡ true
unfolding every
press_table = refl

IsQueue-end_of_interrupt :
    (s : Keys) (ports : List (ℕ × ℕ)) → IsQueue s → IsQueue (record s { ports = ports })
IsQueue-end_of_interrupt s ports q = record { head = q.head; tail = q.tail; keys = q.keys }

enqueue_key-ports : (c : ℕ) (s : Keys) → (enqueue_key c s).ports ≡ s.ports
unfolding enqueue_key
enqueue_key-ports c s = elim (Bool-cases (add32 s.buf_head 1 % 256 == s.buf_tail)) [
  | inl full ↦ rw full refl
  | inr room ↦ rw room refl
]

-- On a sound queue the interrupt handler queues the character of a key that is pressed, if it has one and there is
-- room, and nothing for a release or an unknown key; it always ends the interrupt.
pub keyboard_handler-contents :
    (scancode : ℕ) (s : Keys)
    → IsQueue s
    → IsQueue (keyboard_handler scancode s)
      × (contents (keyboard_handler scancode s) ≡ (
          if ltb scancode 58
            && not (get_elem scancode_to_ascii scancode == 0)
            && ltb (size_of (contents s)) 255
          then contents s ++ get_elem scancode_to_ascii scancode ∷ []
          else contents s))
      × ((keyboard_handler scancode s).ports ≡ (0x20, 0x20) ∷ s.ports)
unfolding keyboard_handler
keyboard_handler-contents scancode s q = elim (Bool-cases (ltb scancode 58)) [
  | inl known ↦
      let press : (bit_and scancode 0x80 == 0) ≡ true =
        every-lt 58 _ press_table scancode (ground arith) in
      elim (Bool-cases (get_elem scancode_to_ascii scancode == 0)) [
        | inl silent ↦ rw (press, known, silent) (IsQueue-end_of_interrupt s _ q, refl, refl)
        | inr sounds ↦
            let (v, e) =
              enqueue_key-contents (get_elem scancode_to_ascii scancode) s q (ground arith) in
            rw (press, known, sounds)
              (
                IsQueue-end_of_interrupt _ _ v,
                e,
                ap (λ (p : List (ℕ × ℕ)). (0x20, 0x20) ∷ p)
                    (enqueue_key-ports (get_elem scancode_to_ascii scancode) s),
              )
      ]
  | inr unknown ↦ elim (Bool-cases (bit_and scancode 0x80 == 0)) [
    | inl press ↦ rw (press, unknown) (IsQueue-end_of_interrupt s _ q, refl, refl)
    | inr release ↦ rw (release, unknown) (IsQueue-end_of_interrupt s _ q, refl, refl)
  ]
]
