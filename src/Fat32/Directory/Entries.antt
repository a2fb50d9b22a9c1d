-- ===== src/Fat32/Directory/Entries.antt =====
-- Searching a directory in a buffer, and counting and listing its entries.
use icosaos.Prelude.{
  ℕ, zero, suc, ◌+◌, ◌<◌, ◌^◌, ◌≡◌, inl, inr, refl, arith, add32, ◌==◌, if◌then◌else◌, Bool-cases,
  List, [], ◌∷◌, Option, none, some, size_of, update,
}
use icosaos.Prelude.{◌/◌, ◌%◌, ◌*◌, Bool, ◌||◌, AllBytes, load16}
use icosaos.Prelude.Bits.{and-lowest, and-zero, or_fields, or-zero, zero-or}
use icosaos.Strings.{memcmp}
use icosaos.Fat32.Volume.{null, first_cluster}
use icosaos.Fat32.Directory.{entry_at, is_last, is_skipped, is_directory, find_entry, count_entries}

-- An entry of a directory by its bytes: the end mark is a zero; a deleted entry begins with 0xE5, and a
-- part of a long name has the attributes 0x0F; bit 4 of the attributes marks a directory; and the first
-- cluster stands in two words.
abbrev pub ends_list : ℕ → (ℕ → ℕ) → Bool
ends_list e bytes = bytes e == 0

abbrev pub does_not_count : ℕ → (ℕ → ℕ) → Bool
does_not_count e bytes = bytes e == 0xE5 || bytes (add32 e 11) == 0x0F

abbrev pub directory_bit : ℕ → (ℕ → ℕ) → ℕ
directory_bit e bytes = bytes (add32 e 11) / 16 % 2

abbrev pub cluster_words : ℕ → (ℕ → ℕ) → ℕ
cluster_words e bytes =
    (bytes (add32 e 20) + 256 * bytes (add32 (add32 e 20) 1)) * 65536
    + (bytes (add32 e 26) + 256 * bytes (add32 (add32 e 26) 1))

is_directory-bit : (e : ℕ) (bytes : ℕ → ℕ) → is_directory e bytes ≡ directory_bit e bytes
unfolding is_directory
is_directory-bit e bytes =
    let x = bytes (add32 e 11) in
    ground (
      arith,
      and-lowest x 16,
      and-lowest (x / 2) 8,
      and-lowest (x / 2 / 2) 4,
      and-lowest (x / 2 / 2 / 2) 2,
      and-lowest (x / 2 / 2 / 2 / 2) 1,
      and-zero (x / 2 / 2 / 2 / 2 / 2),
    )

first_cluster-words :
    (e : ℕ) (bytes : ℕ → ℕ) → AllBytes bytes → first_cluster e bytes ≡ cluster_words e bytes
unfolding first_cluster load16
first_cluster-words e bytes all =
    let high = bytes (add32 e 20) + 256 * bytes (add32 (add32 e 20) 1) in
    let low = bytes (add32 e 26) + 256 * bytes (add32 (add32 e 26) 1) in
    let below : low < 2 ^ 16 = omega (arith, all (add32 e 26), all (add32 (add32 e 26) 1)) in
    let room : high < 2 ^ 16 = omega (arith, all (add32 e 20), all (add32 (add32 e 20) 1)) in
    let fields = or_fields 16 high 0 0 low (omega arith) below in
    let a : high * 2 ^ 16 + 0 ≡ high * 65536 = omega arith in
    let b : 0 * 2 ^ 16 + low ≡ low = omega arith in rw (a, b, or-zero, zero-or) at fields

-- The entries of a buffer that count: those up to the last that are not skipped.
abbrev pub live_entries : ℕ → ℕ → ℕ → (ℕ → ℕ) → List ℕ
live_entries zero i buffer bytes = []
live_entries (suc n) i buffer bytes =
    let rest = live_entries n (i + 1) buffer bytes in
    if ends_list (entry_at buffer i) bytes
    then []
    else if does_not_count (entry_at buffer i) bytes
    then rest
    else entry_at buffer i ∷ rest

-- The first of them with a name.
abbrev pub first_named : ℕ → (ℕ → ℕ) → List ℕ → Option ℕ
first_named target bytes [] = none
first_named target bytes (e ∷ es) =
    let rest = first_named target bytes es in if memcmp e target 11 bytes == 0 then some e else rest

-- What a search returns for the entry it found.
abbrev pub found_at : ℕ → (ℕ → ℕ) → Option ℕ → ℕ × (ℕ → ℕ)
found_at is_dir bytes none = (0, bytes)
found_at is_dir bytes (some e) = (
  cluster_words e bytes,
  if is_dir == null then bytes else update bytes is_dir (directory_bit e bytes),
)

-- In a memory of bytes the loop of `find_in_directory_cluster` returns the cluster, made of its two
-- words, of the first entry with the name among those before the end mark that are neither deleted nor
-- a part of a long name, and notes at `is_dir`, unless that is NULL, its directory bit; where there is
-- none it returns 0 and changes nothing.
pub find_entry-first_named :
    (n i buffer target is_dir : ℕ) (bytes : ℕ → ℕ)
    → AllBytes bytes
    → find_entry n i buffer target is_dir bytes
      ≡ found_at is_dir bytes (first_named target bytes (live_entries n i buffer bytes))
unfolding find_entry is_last is_skipped
find_entry-first_named zero i buffer target is_dir bytes all = refl
find_entry-first_named (suc n) i buffer target is_dir bytes all =
    let rest = find_entry-first_named n (i + 1) buffer target is_dir bytes all in
    elim (Bool-cases (ends_list (entry_at buffer i) bytes)) [
      | inl last ↦ rw last refl
      | inr more ↦ elim (Bool-cases (does_not_count (entry_at buffer i) bytes)) [
        | inl skipped ↦ rw (more, skipped) rest
        | inr live ↦ elim (Bool-cases (memcmp (entry_at buffer i) target 11 bytes == 0)) [
          | inl here ↦
              rw
                (
                  more,
                  live,
                  here,
                  first_cluster-words (entry_at buffer i) bytes all,
                  is_directory-bit (entry_at buffer i) bytes,
                )
                refl
          | inr other ↦ rw (more, live, other) rest
        ]
      ]
    ]

-- The loop that counts adds the number of the entries of the buffer that count, as long as the sum is
-- a 32-bit number.
pub count_entries-live :
    (n i buffer total : ℕ) (bytes : ℕ → ℕ)
    → total + n < 2 ^ 32
    → (count_entries n i buffer bytes total).1 ≡ total + size_of (live_entries n i buffer bytes)
unfolding count_entries is_last is_skipped
count_entries-live zero i buffer total bytes h = omega arith
count_entries-live (suc n) i buffer total bytes h =
    let next : add32 total 1 ≡ total + 1 = omega arith in
    let counted = count_entries-live n (i + 1) buffer (total + 1) bytes (omega arith) in
    let skipped = count_entries-live n (i + 1) buffer total bytes (omega arith) in
    elim (Bool-cases (ends_list (entry_at buffer i) bytes)) [
      | inl last ↦ rw last (omega arith)
      | inr more ↦ elim (Bool-cases (does_not_count (entry_at buffer i) bytes)) [
        | inl skip ↦ rw (more, skip) skipped
        | inr live ↦ rw (more, live, next) (omega arith)
      ]
    ]
