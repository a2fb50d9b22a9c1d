-- ===== src/Fat32/Paths.antt =====
-- The parts of a path: the names between the slashes, in upper case.
use icosaos.Prelude.{
  ℕ, zero, suc, ◌+◌, ◌-◌, ◌≤◌, ◌<◌, ◌^◌, ◌≡◌, refl, inl, inr, ◌∙◌, ◌&&◌, List, [], ◌∷◌, map, arith,
  update, ◌==◌, if◌then◌else◌, Bool-cases, size_of, true, false, leb, add32, Run, ok, out_of_fuel,
  ◌>>=◌, Option, none, some,
}
use mathlib.Core.Path.{subst}
use icosaos.Strings.Compare.{HoldsString}
use icosaos.Fat32.{fat32_normalize_path_token, skip_slashes, copy_node, get_next_path_node}
use icosaos.Fat32.Names.{HoldsAt, HoldsAt-frame}

abbrev pub upper : ℕ → ℕ
upper c = if leb 97 c && leb c 122 then c - 32 else c

HoldsString-update :
    (bytes : ℕ → ℕ) (p k x : ℕ) (cs : List ℕ)
    → k < p
    → HoldsString bytes p cs
    → HoldsString (update bytes k x) p cs
HoldsString-update bytes p k x [] h (z, lt) = (ground arith, lt)
HoldsString-update bytes p k x (c ∷ cs) h (e, pos, small, lt, rest) =
    (ground arith, pos, small, lt, HoldsString-update bytes (p + 1) k x cs (omega arith) rest)

-- With more fuel than characters, `fat32_normalize_path_token` turns the string into upper case in
-- its place, and changes no byte in front of it.
pub fat32_normalize_path_token-upper :
    (fuel str : ℕ) (bytes : ℕ → ℕ) (cs : List ℕ)
    → size_of cs < fuel
    → HoldsString bytes str cs
    → (bytes' : ℕ → ℕ) × (fat32_normalize_path_token fuel str bytes ≡ ok bytes')
      × HoldsString bytes' str (map upper cs)
      × ((k : ℕ) → k < str → bytes' k ≡ bytes k)
unfolding fat32_normalize_path_token
fat32_normalize_path_token-upper zero str bytes cs h v = absurd (omega arith)
fat32_normalize_path_token-upper (suc fuel) str bytes [] h (z, lt) =
    let stop : (bytes str == 0) ≡ true = ground arith in rw stop (bytes, refl, (z, lt), λ k p. refl)
fat32_normalize_path_token-upper (suc fuel) str bytes (c ∷ cs) h (e, pos, small, lt, rest) =
    let next : add32 str 1 ≡ str + 1 = omega arith in
    let go_on : (bytes str == 0) ≡ false = ground arith in
    elim (Bool-cases (leb 97 (bytes str) && leb (bytes str) 122)) [
      | inl lower ↦
          let (b, f, held, same) =
            fat32_normalize_path_token-upper fuel (str + 1) (update bytes str (bytes str - 32)) cs
              (omega arith) (HoldsString-update bytes (str + 1) str _ cs (omega arith) rest) in
          rw (next, go_on, lower)
            (
              b,
              f,
              (same str (omega arith) ∙ ground arith, ground arith, ground arith, lt, held),
              λ k p. same k (omega arith) ∙ ground arith,
            )
      | inr other ↦
          let (b, f, held, same) =
            fat32_normalize_path_token-upper fuel (str + 1) bytes cs (omega arith) rest in
          rw (next, go_on, other)
            (
              b,
              f,
              (same str (omega arith) ∙ ground arith, ground arith, ground arith, lt, held),
              λ k p. same k (omega arith),
            )
    ]

abbrev pub drop_slashes : List ℕ → List ℕ
drop_slashes [] = []
drop_slashes (c ∷ cs) = let rest = drop_slashes cs in if c == 47 then rest else c ∷ cs

-- The name up to the next slash, and what follows it.
abbrev pub node_name : List ℕ → List ℕ
node_name [] = []
node_name (c ∷ cs) = let rest = node_name cs in if c == 47 then [] else c ∷ rest

abbrev pub after_node : List ℕ → List ℕ
after_node [] = []
after_node (c ∷ cs) = let rest = after_node cs in if c == 47 then c ∷ cs else rest

skip_slashes-drop_slashes :
    (fuel path : ℕ) (bytes : ℕ → ℕ) (cs : List ℕ)
    → size_of cs < fuel
    → HoldsString bytes path cs
    → (q : ℕ) × (skip_slashes fuel path bytes ≡ ok q) × HoldsString bytes q (drop_slashes cs)
unfolding skip_slashes
skip_slashes-drop_slashes zero path bytes cs h v = absurd (omega arith)
skip_slashes-drop_slashes (suc fuel) path bytes [] h (z, lt) =
    let stop : (bytes path == 47) ≡ false = ground arith in rw stop (path, refl, (z, lt))
skip_slashes-drop_slashes (suc fuel) path bytes (c ∷ cs) h (e, pos, small, lt, rest) =
    let next : add32 path 1 ≡ path + 1 = omega arith in
    elim (Bool-cases (c == 47)) [
      | inl slash ↦
          rw (e, next, slash)
            (skip_slashes-drop_slashes fuel (path + 1) bytes cs (omega arith) rest)
      | inr other ↦ rw (e, other) (path, refl, (e, pos, small, lt, rest))
    ]

copy_node-node_name :
    (fuel path len : ℕ) (bytes buffer : ℕ → ℕ) (cs : List ℕ)
    → size_of cs < fuel
    → HoldsString bytes (path + len) cs
    → (b : ℕ → ℕ) × (copy_node fuel path len bytes buffer ≡ ok (len + size_of (node_name cs), b))
      × HoldsAt b len (node_name cs)
      × ((k : ℕ) → k < len → b k ≡ buffer k)
      × HoldsString bytes (path + len + size_of (node_name cs)) (after_node cs)
unfolding copy_node
copy_node-node_name zero path len bytes buffer cs h v = absurd (omega arith)
copy_node-node_name (suc fuel) path len bytes buffer [] h (z, lt) =
    let at : add32 path len ≡ path + len = omega arith in
    let stop : (bytes (path + len) == 0) ≡ true = ground arith in
    let none_more : len + 0 ≡ len = omega arith in
    let here : path + len + 0 ≡ path + len = omega arith in
    rw (at, z, none_more, here) (buffer, refl, tt, λ k p. refl, (z, lt))
copy_node-node_name (suc fuel) path len bytes buffer (c ∷ cs) h (e, pos, small, lt, rest) =
    let at : add32 path len ≡ path + len = omega arith in
    let next : add32 len 1 ≡ len + 1 = omega arith in
    let nonzero : (c == 0) ≡ false = ground arith in
    elim (Bool-cases (c == 47)) [
      | inl slash ↦
          let none_more : len + 0 ≡ len = omega arith in
          let here : path + len + 0 ≡ path + len = omega arith in
          rw (at, e, slash, none_more, here)
            (buffer, refl, tt, λ k p. refl, (e, pos, small, lt, rest))
      | inr other ↦
          let moved : path + len + 1 ≡ path + (len + 1) = omega arith in
          let (b, f, held, same, behind) =
            copy_node-node_name fuel path (len + 1) bytes (update buffer len c) cs (omega arith)
              (rw moved at rest) in
          let count : len + 1 + size_of (node_name cs) ≡ len + suc (size_of (node_name cs)) =
            omega arith in
          let place : path + (len + 1) + size_of (node_name cs)
              ≡ path + len + suc (size_of (node_name cs)) =
            omega arith in
          rw (at, e, next, other, nonzero)
            (
              b,
              rw count at f,
              (same len (omega arith) ∙ ground arith, held),
              λ k p. same k (omega arith) ∙ ground arith,
              rw place at behind,
            )
    ]

size_of-drop_slashes : (cs : List ℕ) → size_of (drop_slashes cs) ≤ size_of cs
size_of-drop_slashes [] = omega arith
size_of-drop_slashes (c ∷ cs) = ground (arith, size_of-drop_slashes cs)

-- How a step along the path `cs` ends: at its end, or with the next name in the buffer, a zero
-- behind it, and a pointer to the rest of the path.
abbrev pub Node : (ℕ → ℕ) → List ℕ → Run (Option (ℕ × (ℕ → ℕ))) → Type 0
Node bytes cs out_of_fuel = ⊥
Node bytes cs (ok none) = drop_slashes cs ≡ []
Node bytes cs (ok (some (p, b))) =
    (0 < size_of (drop_slashes cs))
    × HoldsAt b 0 (node_name (drop_slashes cs))
    × (b (size_of (node_name (drop_slashes cs))) ≡ 0)
    × HoldsString bytes p (after_node (drop_slashes cs))

HoldsString-below : (bytes : ℕ → ℕ) (p : ℕ) (cs : List ℕ) → HoldsString bytes p cs → p < 2 ^ 32
HoldsString-below bytes p [] h = omega (arith, h.1)
HoldsString-below bytes p (c ∷ cs) (e, pos, small, lt, rest) = omega arith

-- With more fuel than characters, `get_next_path_node` skips the slashes and returns NULL at the end
-- of the path, or puts the name up to the next slash into the buffer and returns the rest.
pub get_next_path_node-Node :
    (fuel path : ℕ) (bytes buffer : ℕ → ℕ) (cs : List ℕ)
    → size_of cs < fuel
    → HoldsString bytes path cs
    → Node bytes cs (get_next_path_node fuel path bytes buffer)
unfolding get_next_path_node
get_next_path_node-Node fuel path bytes buffer cs h v =
    let (q, e, held) = skip_slashes-drop_slashes fuel path bytes cs h v in
    let fewer = size_of-drop_slashes cs in rw e (step (drop_slashes cs) refl q (omega arith) held)
  where
    step :
        (ds : List ℕ)
        → drop_slashes cs ≡ ds
        → (q : ℕ) → size_of ds < fuel
        → HoldsString bytes q ds
        → Node bytes cs (
            if bytes q == 0
            then ok none
            else (copy_node fuel q 0 bytes buffer >>= λ r.
                ok (some (add32 q r.0, update r.1 r.0 0))))
    step [] f q h (z, lt) = rw z f
    step (d ∷ ds) f q h (e, pos, small, lt, rest) =
        let go_on : (d == 0) ≡ false = ground arith in
        let here : q + 0 ≡ q = omega arith in
        let (b, g, held, same, behind) =
          copy_node-node_name fuel q 0 bytes buffer (d ∷ ds) h
            (rw here (e, pos, small, lt, rest)) in
        let below = HoldsString-below bytes _ (after_node (d ∷ ds)) behind in
        let place : q + 0 + size_of (node_name (d ∷ ds))
            ≡ add32 q (0 + size_of (node_name (d ∷ ds))) =
          omega arith in
        rw (e, go_on, g, f)
          (
            omega arith,
            HoldsAt-frame b _ 0 (node_name (d ∷ ds)) (λ k a c. ground arith) held,
            ground arith,
            subst (λ (p : ℕ). HoldsString bytes p (after_node (d ∷ ds))) place behind,
          )
