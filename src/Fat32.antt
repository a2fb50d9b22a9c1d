-- ===== src/Fat32.antt =====
-- src/kernel/fat32.c: the names of files. Memory is a function of the address to its byte; the loops
-- along a path take fuel.
pub mod Names
pub mod Paths
pub mod Volume
pub mod Directory
pub mod Resolve
use icosaos.Prelude.{
  ℕ, zero, suc, ◌+◌, ◌-◌, ◌||◌, ◌&&◌, not, Option, none, some, add32, u8, update, leb, ◌==◌,
  if◌then◌else◌, Run, ok, out_of_fuel, ◌>>=◌,
}

-- The loops of `format_fat_name`: the characters that are no blanks, from `i` on, are written from
-- `p` on.
unfoldable pub copy_used : ℕ → ℕ → (ℕ → ℕ) → ℕ → (ℕ → ℕ) → ℕ × (ℕ → ℕ)
copy_used zero i raw_name p dest = (p, dest)
copy_used (suc n) i raw_name p dest =
    let written = copy_used n (i + 1) raw_name (p + 1) (update dest p (raw_name i)) in
    let skipped = copy_used n (i + 1) raw_name p dest in
    if not (raw_name i == 32) then written else skipped

unfoldable pub format_fat_name : (ℕ → ℕ) → (ℕ → ℕ) → ℕ → ℕ
format_fat_name raw_name dest =
    let (p, name) = copy_used 8 0 raw_name 0 dest in
    let (q, full) = copy_used 3 8 raw_name (p + 1) (update name p 46) in
    if not (raw_name 8 == 32) || (not (raw_name 9 == 32) || not (raw_name 10 == 32))
    then update full q 0
    else update name p 0

-- The loop of `fat32_normalize_path_token`.
unfoldable pub fat32_normalize_path_token : ℕ → ℕ → (ℕ → ℕ) → Run (ℕ → ℕ)
fat32_normalize_path_token zero str bytes = out_of_fuel
fat32_normalize_path_token (suc fuel) str bytes =
    let is_lower = leb 97 (bytes str) && leb (bytes str) 122 in
    let bytes' = if is_lower then update bytes str (bytes str - (97 - 65)) else bytes in
    let rest = fat32_normalize_path_token fuel (add32 str 1) bytes' in
    if bytes str == 0 then ok bytes else rest

-- The loops of `get_next_path_node`: over the slashes, and over the characters of the name.
unfoldable pub skip_slashes : ℕ → ℕ → (ℕ → ℕ) → Run ℕ
skip_slashes zero path bytes = out_of_fuel
skip_slashes (suc fuel) path bytes =
    let rest = skip_slashes fuel (add32 path 1) bytes in if bytes path == 47 then rest else ok path

unfoldable pub copy_node : ℕ → ℕ → ℕ → (ℕ → ℕ) → (ℕ → ℕ) → Run (ℕ × (ℕ → ℕ))
copy_node zero path length bytes output_buffer = out_of_fuel
copy_node (suc fuel) path length bytes output_buffer =
    let c = bytes (add32 path length) in
    let rest = copy_node fuel path (add32 length 1) bytes (update output_buffer length c) in
    if not (c == 47) && not (c == 0) then rest else ok (length, output_buffer)

-- The pointer behind the name and the buffer with the name, or `none` for NULL.
unfoldable pub get_next_path_node : ℕ → ℕ → (ℕ → ℕ) → (ℕ → ℕ) → Run (Option (ℕ × (ℕ → ℕ)))
get_next_path_node fuel path bytes output_buffer = do
  start ← skip_slashes fuel path bytes
  if bytes start == 0 then ok none else (do
    (length, name) ← copy_node fuel start 0 bytes output_buffer
    ok (some (add32 start length, update name length 0)))
