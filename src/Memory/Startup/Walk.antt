-- ===== src/Memory/Startup/Walk.antt =====
-- The walk along the tags of the boot information visits the entries of the maps of the memory, one
-- after another.
use icosaos.Prelude.{
  ℕ, zero, suc, ◌+◌, ◌*◌, ◌/◌, ◌<◌, ◌^◌, ◌≡◌, ◌∙◌, refl, inl, inr, arith, false, ◌==◌, Bool-cases,
  List, [], ◌∷◌, ◌++◌, load32, add32, sub32, if◌then◌else◌, Run, ok, ◌>>=◌, bind_cong, bind_assoc,
  sym,
}
use icosaos.Prelude.Bits.{and-tag_mask}
use icosaos.Memory.Startup.{each_entry, each_tag}

-- `n` tags stand one behind another from `tag` on, eight-byte aligned, up to the end mark.
abbrev pub Tags : (ℕ → ℕ) → ℕ → ℕ → Type 0
Tags bytes zero tag = load32 tag bytes ≡ 0
Tags bytes (suc n) tag =
    ((load32 tag bytes == 0) ≡ false)
    × (tag + load32 (add32 tag 4) bytes + 7 < 2 ^ 32)
    × Tags bytes n (tag + (load32 (add32 tag 4) bytes + 7) / 8 * 8)

-- The addresses of the entries of a table, and of those of all tables of `n` tags.
abbrev pub entries_from : ℕ → ℕ → ℕ → List ℕ
entries_from zero entry entry_size = []
entries_from (suc n) entry entry_size = entry ∷ entries_from n (add32 entry entry_size) entry_size

abbrev pub entries_at : (ℕ → ℕ) → ℕ → List ℕ
entries_at bytes tag =
    if load32 tag bytes == 6
    then entries_from (sub32 (load32 (add32 tag 4) bytes) 16 / load32 (add32 tag 8) bytes)
        (add32 tag 16) (load32 (add32 tag 8) bytes)
    else []

abbrev pub entries : (ℕ → ℕ) → ℕ → ℕ → List ℕ
entries bytes zero tag = []
entries bytes (suc n) tag =
    entries_at bytes tag ++ entries bytes n (tag + (load32 (add32 tag 4) bytes + 7) / 8 * 8)

module _ {S : Type 0} where
  -- A body at each entry of a list.
  abbrev pub run_all : (ℕ → S → Run S) → List ℕ → S → Run S
  run_all body [] s = ok s
  run_all body (e ∷ es) s = body e s >>= λ s'. run_all body es s'

  run_all-append :
      (body : ℕ → S → Run S) (es fs : List ℕ) (s : S)
      → run_all body (es ++ fs) s ≡ (run_all body es s >>= λ s'. run_all body fs s')
  run_all-append body [] fs s = refl
  run_all-append body (e ∷ es) fs s =
      bind_cong (body e s) _ _ (λ s'. run_all-append body es fs s')
      ∙ bind_assoc (body e s) (λ s'. run_all body es s') (λ s'. run_all body fs s')

  each_entry-run_all :
      (body : ℕ → S → Run S) (n entry entry_size : ℕ) (s : S)
      → each_entry body n entry entry_size s ≡ run_all body (entries_from n entry entry_size) s
  unfolding each_entry
  each_entry-run_all body zero entry entry_size s = refl
  each_entry-run_all body (suc n) entry entry_size s =
      bind_cong (body entry s) _ _
        (λ s'. each_entry-run_all body n (add32 entry entry_size) entry_size s')

  pub each_tag-run_all :
      (body : ℕ → S → Run S) (bytes : ℕ → ℕ) (n fuel tag : ℕ) (s : S)
      → Tags bytes n tag
      → n < fuel
      → each_tag body fuel tag bytes s ≡ run_all body (entries bytes n tag) s
  unfolding each_tag
  each_tag-run_all body bytes n zero tag s tags h = absurd (omega arith)
  each_tag-run_all body bytes zero (suc fuel) tag s end h = rw end refl
  each_tag-run_all body bytes (suc n) (suc fuel) tag s (more, small, tags) h =
      let size = load32 (add32 tag 4) bytes in
      let next_tag = tag + (size + 7) / 8 * 8 in
      let padded : add32 size 7 ≡ size + 7 = omega arith in
      let next : add32 tag ((size + 7) / 8 * 8) ≡ next_tag = omega arith in
      let rest = λ (s' : S). each_tag-run_all body bytes n fuel next_tag s' tags (omega arith) in
      let here = λ (r : Run S).
        bind_cong r (λ s'. each_tag body fuel next_tag bytes s')
          (λ s'. run_all body (entries bytes n next_tag) s') rest in
      rw (more, padded, and-tag_mask (size + 7) (omega arith), next)
        (elim (Bool-cases (load32 tag bytes == 6)) [
          | inr other ↦ rw other (rest s)
          | inl table ↦
              let at =
                entries_from (sub32 size 16 / load32 (add32 tag 8) bytes) (add32 tag 16)
                  (load32 (add32 tag 8) bytes) in
              rw table (
                here _
                ∙ rw
                    (each_entry-run_all body (sub32 size 16 / load32 (add32 tag 8) bytes)
                      (add32 tag 16) (load32 (add32 tag 8) bytes) s)
                    refl
                ∙ sym (run_all-append body at (entries bytes n next_tag) s))
        ])
