-- ===== src/Strings/Blocks.antt =====
-- Copying, filling and comparing blocks of memory, address by address.
use icosaos.Prelude.{
  ℕ, zero, suc, ◌+◌, ◌-◌, ◌≤◌, ◌<◌, ◌^◌, ◌≡◌, ◌≢◌, ◌⊎◌, inl, inr, refl, ◌&&◌, arith, u8, add32,
  sub32, update, ◌==◌, leb, ltb, if◌then◌else◌, Bool-cases,
}
use icosaos.Strings.{compare_from, memcmp, copy_from, memcpy, fill_from, memset}

copy_from-at :
    (n i dest src : ℕ) (bytes : ℕ → ℕ)
    → dest + i + n ≤ 2 ^ 32
    → src + i + n ≤ 2 ^ 32
    → (dest + i + n ≤ src + i) ⊎ (src + i + n ≤ dest + i)
    → (a : ℕ)
    → copy_from n i dest src bytes a
      ≡ (if leb (dest + i) a && ltb a (dest + i + n) then bytes (src + (a - dest)) else bytes a)
unfolding copy_from
copy_from-at zero i dest src bytes hd hs apart a = ground arith
copy_from-at (suc n) i dest src bytes hd hs apart a =
    let d : add32 dest i ≡ dest + i = omega arith in
    let s : add32 src i ≡ src + i = omega arith in
    rw (d, s)
      (ground (
        arith,
        copy_from-at n (i + 1) dest src (update bytes (dest + i) (bytes (src + i))) (omega arith)
            (omega arith) (ground arith) a,
      ))

-- Between two blocks that lie apart within the address space, `memcpy` copies the bytes of the
-- source to the destination, changes no other byte, and returns the destination.
pub memcpy-copies :
    (dest src n : ℕ) (bytes : ℕ → ℕ)
    → dest + n ≤ 2 ^ 32
    → src + n ≤ 2 ^ 32
    → (dest + n ≤ src) ⊎ (src + n ≤ dest)
    → ((memcpy dest src n bytes).0 ≡ dest)
      × ((a : ℕ)
          → (memcpy dest src n bytes).1 a
            ≡ (if leb dest a && ltb a (dest + n) then bytes (src + (a - dest)) else bytes a))
unfolding memcpy
memcpy-copies dest src n bytes hd hs apart = (
  refl,
  λ a. ground (arith, copy_from-at n 0 dest src bytes (omega arith) (omega arith) (ground arith) a),
)

fill_from-at :
    (n i s c : ℕ) (bytes : ℕ → ℕ)
    → s + i + n ≤ 2 ^ 32
    → (a : ℕ)
    → fill_from n i s c bytes a ≡ (if leb (s + i) a && ltb a (s + i + n) then u8 c else bytes a)
unfolding fill_from
fill_from-at zero i s c bytes h a = ground arith
fill_from-at (suc n) i s c bytes h a =
    let e : add32 s i ≡ s + i = omega arith in
    rw e (ground (arith, fill_from-at n (i + 1) s c (update bytes (s + i) (u8 c)) (omega arith) a))

-- Within the address space `memset` writes the lowest byte of its argument to the bytes of the
-- block, changes no other byte, and returns the block.
pub memset-fills :
    (s c n : ℕ) (bytes : ℕ → ℕ)
    → s + n ≤ 2 ^ 32
    → ((memset s c n bytes).0 ≡ s)
      × ((a : ℕ) → (memset s c n bytes).1 a ≡ (if leb s a && ltb a (s + n) then u8 c else bytes a))
unfolding memset
memset-fills s c n bytes h = (refl, λ a. ground (arith, fill_from-at n 0 s c bytes (omega arith) a))

-- How a comparison of `n` bytes from offset `i` on ends.
abbrev Compared : ℕ → ℕ → ℕ → ℕ → (ℕ → ℕ) → ℕ → Type 0
Compared n i s1 s2 bytes r =
    (r ≡ 0) × ((k : ℕ) → i ≤ k → k < i + n → bytes (s1 + k) ≡ bytes (s2 + k))
    ⊎ ((k : ℕ) × (i ≤ k)
        × (k < i + n)
        × (bytes (s1 + k) ≢ bytes (s2 + k))
        × (r ≡ sub32 (bytes (s1 + k)) (bytes (s2 + k)))
        × ((j : ℕ) → i ≤ j → j < k → bytes (s1 + j) ≡ bytes (s2 + j)))

compare_from-Compared :
    (n i s1 s2 : ℕ) (bytes : ℕ → ℕ)
    → s1 + i + n ≤ 2 ^ 32
    → s2 + i + n ≤ 2 ^ 32
    → Compared n i s1 s2 bytes (compare_from n i s1 s2 bytes)
unfolding compare_from
compare_from-Compared zero i s1 s2 bytes h1 h2 = inl (refl, λ k p q. absurd (omega arith))
compare_from-Compared (suc n) i s1 s2 bytes h1 h2 =
    let d : add32 s1 i ≡ s1 + i = omega arith in
    let s : add32 s2 i ≡ s2 + i = omega arith in
    elim (Bool-cases (bytes (s1 + i) == bytes (s2 + i))) [
      | inl same ↦
          let here : bytes (s1 + i) ≡ bytes (s2 + i) = ground arith in
          rw (d, s, same)
            (elim (compare_from-Compared n (i + 1) s1 s2 bytes (omega arith) (omega arith)) [
              | inl (e, all) ↦ inl (e, λ k p q. first here all k p q)
              | inr (k, ge, lt, ne, e, before) ↦
                  inr (k, omega arith, omega arith, ne, e, λ j p q. first_below here before j p q)
            ])
      | inr differs ↦
          rw (d, s, differs)
            (inr (
              i,
              omega arith,
              omega arith,
              λ e. absurd (ground arith),
              refl,
              λ j p q. absurd (omega arith),
            ))
    ]
  where
    first :
        bytes (s1 + i) ≡ bytes (s2 + i)
        → ((k : ℕ) → i + 1 ≤ k → k < i + 1 + n → bytes (s1 + k) ≡ bytes (s2 + k))
        → (k : ℕ) → i ≤ k
        → k < i + suc n
        → bytes (s1 + k) ≡ bytes (s2 + k)
    first here all k p q = elim (Bool-cases (i == k)) [
      | inl e ↦ let f : k ≡ i = ground arith in rw f here
      | inr ne ↦ all k (ground arith) (omega arith)
    ]

    first_below :
        {m : ℕ}
        → bytes (s1 + i) ≡ bytes (s2 + i)
        → ((k : ℕ) → i + 1 ≤ k → k < m → bytes (s1 + k) ≡ bytes (s2 + k))
        → (k : ℕ) → i ≤ k
        → k < m
        → bytes (s1 + k) ≡ bytes (s2 + k)
    first_below here all k p q = elim (Bool-cases (i == k)) [
      | inl e ↦ let f : k ≡ i = ground arith in rw f here
      | inr ne ↦ all k (ground arith) q
    ]

-- Within the address space `memcmp` returns 0 where all bytes of the blocks agree, and otherwise
-- the difference at the first offset where they do not.
pub memcmp-first_difference :
    (s1 s2 n : ℕ) (bytes : ℕ → ℕ)
    → s1 + n ≤ 2 ^ 32
    → s2 + n ≤ 2 ^ 32
    → Compared n 0 s1 s2 bytes (memcmp s1 s2 n bytes)
unfolding memcmp
memcmp-first_difference s1 s2 n bytes h1 h2 =
    compare_from-Compared n 0 s1 s2 bytes (omega arith) (omega arith)
