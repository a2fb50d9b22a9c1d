-- ===== src/Strings.antt =====
-- src/kernel/string.c: blocks of memory and strings. Memory is a function of the address to its
-- byte, addresses wrap at 32 bits, and an `int` result is its 32-bit two's complement.
pub mod Blocks
pub mod Compare
use icosaos.Prelude.{
  ℕ, zero, suc, ◌+◌, not, ◌&&◌, u8, add32, sub32, update, ◌==◌, if◌then◌else◌, Run, ok, out_of_fuel,
}

-- The loop of `memcmp`, with `n` rounds left.
unfoldable pub compare_from : ℕ → ℕ → ℕ → ℕ → (ℕ → ℕ) → ℕ
compare_from zero i s1 s2 bytes = 0
compare_from (suc n) i s1 s2 bytes =
    let rest = compare_from n (i + 1) s1 s2 bytes in
    if bytes (add32 s1 i) == bytes (add32 s2 i)
    then rest
    else sub32 (bytes (add32 s1 i)) (bytes (add32 s2 i))

unfoldable pub memcmp : ℕ → ℕ → ℕ → (ℕ → ℕ) → ℕ
memcmp s1 s2 n bytes = compare_from n 0 s1 s2 bytes

-- The loop of `memcpy`.
unfoldable pub copy_from : ℕ → ℕ → ℕ → ℕ → (ℕ → ℕ) → ℕ → ℕ
copy_from zero i dest src bytes = bytes
copy_from (suc n) i dest src bytes =
    copy_from n (i + 1) dest src (update bytes (add32 dest i) (bytes (add32 src i)))

unfoldable pub memcpy : ℕ → ℕ → ℕ → (ℕ → ℕ) → ℕ × (ℕ → ℕ)
memcpy dest src n bytes = (dest, copy_from n 0 dest src bytes)

-- The loop of `memset`.
unfoldable pub fill_from : ℕ → ℕ → ℕ → ℕ → (ℕ → ℕ) → ℕ → ℕ
fill_from zero i s c bytes = bytes
fill_from (suc n) i s c bytes = fill_from n (i + 1) s c (update bytes (add32 s i) (u8 c))

unfoldable pub memset : ℕ → ℕ → ℕ → (ℕ → ℕ) → ℕ × (ℕ → ℕ)
memset s c n bytes = (s, fill_from n 0 s c bytes)

-- The loop takes fuel.
unfoldable pub strcmp : ℕ → ℕ → ℕ → (ℕ → ℕ) → Run ℕ
strcmp zero a b bytes = out_of_fuel
strcmp (suc fuel) a b bytes =
    let rest = strcmp fuel (add32 a 1) (add32 b 1) bytes in
    let difference = ok (sub32 (bytes a) (bytes b)) in
    if not (bytes a == 0) && not (bytes b == 0)
    then if not (bytes a == bytes b) then difference else rest
    else difference

unfoldable pub strncmp : ℕ → ℕ → ℕ → (ℕ → ℕ) → ℕ
strncmp s1 s2 zero bytes = 0
strncmp s1 s2 (suc n) bytes =
    let rest = strncmp (add32 s1 1) (add32 s2 1) n bytes in
    if not (bytes s1 == bytes s2)
    then sub32 (bytes s1) (bytes s2)
    else if bytes s1 == 0
    then 0
    else rest
