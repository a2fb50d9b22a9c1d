-- ===== src/Fat32/Directory/Listing.antt =====
-- The loop that fills a listing from a buffer.
use icosaos.Prelude.{
  ℕ, zero, suc, ◌+◌, ◌*◌, ◌<◌, ◌≤◌, ◌^◌, ◌≡◌, ◌⊎◌, ◌∙◌, inl, inr, refl, arith, Bool, true, false,
  add32, mul32, if◌then◌else◌, Bool-cases, List, [], ◌∷◌, size_of,
}
use icosaos.Fat32.Directory.{entry_at, is_last, is_skipped, write_info, list_entries}
use icosaos.Fat32.Directory.Info.{
  Info, info_of, HoldsInfo, HoldsInfo-same, info_of-same, BytesIn, Writes,
}
use icosaos.Fat32.Directory.Writing.{write_info-Writes}

-- What the entries of a buffer that count say, up to the last entry; and whether that was met.
abbrev pub listed : ℕ → ℕ → ℕ → (ℕ → ℕ) → List Info
listed zero i buffer bytes = []
listed (suc n) i buffer bytes =
    let rest = listed n (i + 1) buffer bytes in
    if is_last (entry_at buffer i) bytes
    then []
    else if is_skipped (entry_at buffer i) bytes
    then rest
    else info_of (entry_at buffer i) bytes ∷ rest

abbrev pub meets_last : ℕ → ℕ → ℕ → (ℕ → ℕ) → Bool
meets_last zero i buffer bytes = false
meets_last (suc n) i buffer bytes =
    let rest = meets_last n (i + 1) buffer bytes in
    if is_last (entry_at buffer i) bytes then true else rest

-- The array `infos` holds a list of them, from an index on.
abbrev pub HoldsInfos : ℕ → ℕ → List Info → (ℕ → ℕ) → Type 0
HoldsInfos infos index [] bytes = Unit {0}
HoldsInfos infos index (x ∷ xs) bytes =
    HoldsInfo (infos + index * 28) x bytes × HoldsInfos infos (index + 1) xs bytes

same_listed :
    (n i buffer : ℕ) (bytes bytes' : ℕ → ℕ)
    → buffer + (i + n) * 32 < 2 ^ 32
    → ((a : ℕ) → buffer + i * 32 ≤ a → a < buffer + (i + n) * 32 → bytes' a ≡ bytes a)
    → (listed n i buffer bytes' ≡ listed n i buffer bytes)
      × (meets_last n i buffer bytes' ≡ meets_last n i buffer bytes)
unfolding is_last is_skipped
same_listed zero i buffer bytes bytes' room same = (refl, refl)
same_listed (suc n) i buffer bytes bytes' room same =
    let at : add32 buffer (mul32 i 32) ≡ buffer + i * 32 = omega arith in
    let attr : add32 (buffer + i * 32) 11 ≡ buffer + i * 32 + 11 = omega arith in
    let here : info_of (buffer + i * 32) bytes' ≡ info_of (buffer + i * 32) bytes =
      info_of-same (buffer + i * 32) bytes bytes' (omega arith)
        (λ a from to. same a (omega arith) (omega arith)) in
    let (rest, rest_last) =
      same_listed n (i + 1) buffer bytes bytes' (omega arith)
        (λ a from to. same a (omega arith) (omega arith)) in
    rw (at, attr)
      (rw
        (
          same (buffer + i * 32) (omega arith) (omega arith),
          same (buffer + i * 32 + 11) (omega arith) (omega arith),
          here,
          rest,
          rest_last,
        )
        (refl, refl))

-- What the loop leaves: whether the last entry was met, the index behind the list, and memory that holds
-- the list and differs from `bytes` nowhere else.
pub record Lists (infos index : ℕ) (met : Bool) (xs : List Info) (bytes : ℕ → ℕ)
    (r : Bool × ℕ × (ℕ → ℕ)) : Type 0 where
  pub ended : r.0 ≡ met
  pub count : r.1 ≡ index + size_of xs
  pub infos_hold : HoldsInfos infos index xs r.2
  pub outside :
      (a : ℕ)
      → a < 2 ^ 32
      → (a < infos + index * 28) ⊎ (infos + (index + size_of xs) * 28 ≤ a)
      → r.2 a ≡ bytes a

-- An info in front of those that follow.
one_more :
    (infos index : ℕ) (met : Bool) (x : Info) (xs : List Info) (bytes bytes1 : ℕ → ℕ)
    (r : Bool × ℕ × (ℕ → ℕ))
    → HoldsInfo (infos + index * 28) x bytes1
    → ((a : ℕ)
        → a < 2 ^ 32
        → (a < infos + index * 28) ⊎ (infos + index * 28 + 28 ≤ a)
        → bytes1 a ≡ bytes a)
    → infos + (index + 1) * 28 < 2 ^ 32
    → Lists infos (index + 1) met xs bytes1 r
    → Lists infos index met (x ∷ xs) bytes r
one_more infos index met x xs bytes bytes1 r holds outside place rest = record {
  ended = rest.ended;
  count = rest.count ∙ omega arith;
  infos_hold = (
    HoldsInfo-same (infos + index * 28) x bytes1 r.2 holds (omega arith)
        (λ a from to. rest.outside a (omega arith) (inl (omega arith))),
    rest.infos_hold,
  );
  outside = λ a h out. rest.outside a h (ground (arith, out)) ∙ outside a h (ground (arith, out));
}

-- Where a buffer of `n` more entries that holds bytes and an array with room for as many more infos lie
-- apart in memory, the loop of `fat32_list_directory` over one cluster writes, for each entry that
-- counts before the last one, its name, size, kind and cluster to the next element of the array; it
-- says whether it met the last entry, and changes no other byte.
pub list_entries-Lists :
    (n i buffer infos index : ℕ) (bytes : ℕ → ℕ)
    → buffer + (i + n) * 32 < 2 ^ 32
    → infos + (index + n) * 28 < 2 ^ 32
    → (buffer + (i + n) * 32 ≤ infos) ⊎ (infos + (index + n) * 28 ≤ buffer)
    → BytesIn buffer (buffer + (i + n) * 32) bytes
    → Lists infos index
        (meets_last n i buffer bytes)
        (listed n i buffer bytes)
        bytes
        (list_entries n i buffer infos index bytes)
unfolding list_entries
list_entries-Lists zero i buffer infos index bytes room place apart all = record {
  ended = refl;
  count = omega arith;
  infos_hold = tt;
  outside = λ a h out. refl;
}
list_entries-Lists (suc n) i buffer infos index bytes room place apart all =
    let entry = entry_at buffer i in
    elim (Bool-cases (is_last entry bytes)) [
      | inl last ↦
          rw last (record {
            ended = refl;
            count = omega arith;
            infos_hold = tt;
            outside = λ a h out. refl;
          })
      | inr more ↦ elim (Bool-cases (is_skipped entry bytes)) [
        | inl skipped ↦
            let rest =
              list_entries-Lists n (i + 1) buffer infos index bytes (omega arith) (omega arith)
                (ground (arith, apart)) (λ a from to. all a (omega arith) (omega arith)) in
            rw (more, skipped) rest
        | inr live ↦
            let at : add32 buffer (mul32 i 32) ≡ buffer + i * 32 = omega arith in
            let to_info : add32 infos (mul32 index 28) ≡ infos + index * 28 = omega arith in
            let next : add32 index 1 ≡ index + 1 = omega arith in
            let info = infos + index * 28 in
            let bytes1 = write_info entry info bytes in
            let wrote : Writes entry info bytes bytes1 =
              write_info-Writes entry info bytes (omega arith) (omega arith) (ground (arith, apart))
                (λ a from to. all a (omega arith) (omega arith)) in
            let same : (a : ℕ)
                → buffer + (i + 1) * 32 ≤ a
                → a < buffer + (i + 1 + n) * 32
                → bytes1 a ≡ bytes a =
              λ a from to. wrote.outside a (omega arith) (ground (arith, apart)) in
            let (same_list, same_last) =
              same_listed n (i + 1) buffer bytes bytes1 (omega arith) same in
            let rest =
              list_entries-Lists n (i + 1) buffer infos (index + 1) bytes1 (omega arith)
                (omega arith) (ground (arith, apart))
                (λ a from to.
                  rw (wrote.outside a (omega arith) (ground (arith, apart)))
                    (all a from (omega arith))) in
            rw (more, live, to_info, next)
              (one_more infos index (meets_last n (i + 1) buffer bytes) (info_of entry bytes)
                (listed n (i + 1) buffer bytes) bytes bytes1 _ wrote.holds wrote.outside
                (omega arith) (rw (same_list, same_last) at rest))
      ]
    ]
