-- ===== src/Fat32/Directory.antt =====
-- src/kernel/fat32.c: directories and paths. An entry of a directory and a `struct fat32_file_info`
-- are addresses of memory, where their fields stand at fixed offsets.
pub mod Entries
pub mod Info
pub mod Writing
pub mod Listing
use icosaos.Prelude.{
  ℕ, zero, suc, ◌+◌, ◌-◌, ◌*◌, ◌/◌, ◌%◌, ◌||◌, ◌&&◌, not, add32, sub32, mul32, bit_and, update, leb,
  ltb, ◌==◌, load32, store32, Bool, true, false, Option, none, some, if◌then◌else◌, Run, ok,
  out_of_fuel, ◌>>=◌,
}
use icosaos.Disk.{Registers}
use icosaos.Strings.{memcmp, memcpy, strcmp}
use icosaos.Fat32.{format_fat_name, fat32_normalize_path_token, skip_slashes, get_next_path_node}
use icosaos.Fat32.Volume.{
  KernelAllocator, Volume, Files, null, entry_size, entry_attr, entry_file_size, fat_attr_directory,
  fat_attr_long_name, end_of_chain, first_cluster, cluster_sector, read_cluster, release,
  fat32_get_next_cluster,
}

-- The size of `struct fat32_file_info`, and offsets in it; the size of `struct fat32_dir_listing`.
abbrev pub info_size : ℕ
info_size = 28

abbrev pub info_file_size : ℕ
info_file_size = 16

abbrev pub info_is_directory : ℕ
info_is_directory = 20

abbrev pub info_first_cluster : ℕ
info_first_cluster = 24

abbrev pub listing_size : ℕ
listing_size = 8

abbrev pub listing_entries : ℕ
listing_entries = 4

-- Whether an entry ends the directory, and whether it is none that counts: deleted, or a part of a
-- long name.
unfoldable pub is_last : ℕ → (ℕ → ℕ) → Bool
is_last entry bytes = bytes entry == 0

unfoldable pub is_skipped : ℕ → (ℕ → ℕ) → Bool
is_skipped entry bytes = bytes entry == 0xE5 || bytes (add32 entry entry_attr) == fat_attr_long_name

unfoldable pub is_directory : ℕ → (ℕ → ℕ) → ℕ
is_directory entry bytes =
    if bit_and (bytes (add32 entry entry_attr)) fat_attr_directory == 0 then 0 else 1

abbrev pub entry_at : ℕ → ℕ → ℕ
entry_at buffer i = add32 buffer (mul32 i entry_size)

-- The loop of `find_in_directory_cluster`, with `n` rounds left; `is_dir` is a pointer or NULL.
unfoldable pub find_entry : ℕ → ℕ → ℕ → ℕ → ℕ → (ℕ → ℕ) → ℕ × (ℕ → ℕ)
find_entry zero i buffer target is_dir bytes = (0, bytes)
find_entry (suc n) i buffer target is_dir bytes =
    let entry = entry_at buffer i in
    let rest = find_entry n (i + 1) buffer target is_dir bytes in
    let noted = if is_dir == null then bytes else update bytes is_dir (is_directory entry bytes) in
    if is_last entry bytes
    then (0, bytes)
    else if is_skipped entry bytes
    then rest
    else if memcmp entry target 11 bytes == 0
    then (first_cluster entry bytes, noted)
    else rest

-- The loop over the entries of one cluster that counts: whether the last entry was met, and the count.
unfoldable pub count_entries : ℕ → ℕ → ℕ → (ℕ → ℕ) → ℕ → Bool × ℕ
count_entries zero i buffer bytes total = (false, total)
count_entries (suc n) i buffer bytes total =
    let entry = entry_at buffer i in
    let counted = count_entries n (i + 1) buffer bytes (add32 total 1) in
    let skipped = count_entries n (i + 1) buffer bytes total in
    if is_last entry bytes
    then (true, total)
    else if is_skipped entry bytes
    then skipped
    else counted

-- `struct fat32_file_info` of an entry, at `info`.
unfoldable pub write_info : ℕ → ℕ → (ℕ → ℕ) → ℕ → ℕ
write_info entry info bytes =
    let name = format_fat_name (λ k. bytes (add32 entry k)) (λ k. bytes (add32 info k)) in
    let named = λ (a : ℕ). name (sub32 a info) in
    let sized =
      store32 (add32 info info_file_size) (load32 (add32 entry entry_file_size) named) named in
    let kind = update sized (add32 info info_is_directory) (is_directory entry sized) in
    store32 (add32 info info_first_cluster) (first_cluster entry kind) kind

-- The loop over the entries of one cluster that fills the listing.
unfoldable pub list_entries : ℕ → ℕ → ℕ → ℕ → ℕ → (ℕ → ℕ) → Bool × ℕ × (ℕ → ℕ)
list_entries zero i buffer infos index bytes = (false, index, bytes)
list_entries (suc n) i buffer infos index bytes =
    let entry = entry_at buffer i in
    let listed =
      list_entries n (i + 1) buffer infos (add32 index 1)
        (write_info entry (add32 infos (mul32 index info_size)) bytes) in
    let skipped = list_entries n (i + 1) buffer infos index bytes in
    if is_last entry bytes
    then (true, index, bytes)
    else if is_skipped entry bytes
    then skipped
    else listed

module _ {A : KernelAllocator} (drive : Registers → ℕ → ℕ) where
  abbrev entries_per_cluster : Files A → ℕ
  entries_per_cluster s = mul32 s.volume.sectors_per_cluster 512 / entry_size

  -- `find_in_directory_cluster` behind the allocation.
  unfoldable pub find_in_buffer : ℕ → ℕ → ℕ → ℕ → Files A → Run (ℕ × Files A)
  find_in_buffer cluster_num target is_dir cluster_buffer s =
      let s1 = read_cluster drive cluster_num cluster_buffer s in
      let (found_cluster, bytes) =
        find_entry (entries_per_cluster s) 0 cluster_buffer target is_dir s1.bytes in
      if cluster_buffer == null
      then ok (0, s)
      else release drive cluster_buffer found_cluster (record s1 { bytes = bytes })

  unfoldable pub find_in_directory_cluster : ℕ → ℕ → ℕ → Files A → Run (ℕ × Files A)
  find_in_directory_cluster cluster_num target_11_char_name is_dir s = do
    (cluster_buffer, heap) ← A.kmalloc (mul32 s.volume.sectors_per_cluster 512) s.heap
    find_in_buffer cluster_num target_11_char_name is_dir cluster_buffer (record s { heap = heap })

  -- The loop of `fat32_list_directory` that counts, up to `counting_done`.
  unfoldable pub count_clusters : ℕ → ℕ → ℕ → ℕ → Files A → Run (ℕ × Files A)
  count_clusters zero current cluster_buf total s = out_of_fuel
  count_clusters (suc fuel) current cluster_buf total s =
      let s1 = read_cluster drive current cluster_buf s in
      let (done, total') = count_entries (entries_per_cluster s) 0 cluster_buf s1.bytes total in
      let rest = fat32_get_next_cluster drive current s1 >>= λ r.
      count_clusters fuel r.0 cluster_buf total' r.1 in
      if ltb current end_of_chain then (if done then ok (total', s1) else rest) else ok (total, s)

  -- The loop that fills the listing, up to `population_done`.
  unfoldable pub list_clusters : ℕ → ℕ → ℕ → ℕ → ℕ → ℕ → Files A → Run (Files A)
  list_clusters zero current cluster_buf infos index total s = out_of_fuel
  list_clusters (suc fuel) current cluster_buf infos index total s =
      let s1 = read_cluster drive current cluster_buf s in
      let (done, index', bytes) =
        list_entries (entries_per_cluster s) 0 cluster_buf infos index s1.bytes in
      let s2 = record s1 { bytes = bytes } in
      let rest = fat32_get_next_cluster drive current s2 >>= λ r.
      list_clusters fuel r.0 cluster_buf infos index' total r.1 in
      if ltb current end_of_chain && ltb index total then (if done then ok s2 else rest) else ok s

  -- `fat32_list_directory` behind each of its allocations, from the last one on.
  unfoldable pub fill_listing : ℕ → ℕ → ℕ → ℕ → ℕ → ℕ → Files A → Run (ℕ × Files A)
  fill_listing fuel start_cluster cluster_buf total listing infos s =
      let s1 = record s { bytes = store32 (add32 listing listing_entries) infos s.bytes } in
      let refused = do
        (result, s2) ← release drive listing null s1
        release drive cluster_buf null s2
      in let filled = do
        s2 ← list_clusters fuel start_cluster cluster_buf infos 0 total s1
        release drive cluster_buf listing s2
        in if infos == null then refused else filled

  unfoldable pub start_listing : ℕ → ℕ → ℕ → ℕ → ℕ → Files A → Run (ℕ × Files A)
  start_listing fuel start_cluster cluster_buf total listing s =
      let counted = do
        (infos, heap) ← A.kmalloc (mul32 total info_size) s.heap
        fill_listing fuel start_cluster cluster_buf total listing infos
            (record s { heap = heap; bytes = store32 listing total s.bytes })
      in if listing == null then release drive cluster_buf null s else counted

  unfoldable pub count_and_list : ℕ → ℕ → ℕ → Files A → Run (ℕ × Files A)
  count_and_list fuel start_cluster cluster_buf s =
      let read = do
        (total, s1) ← count_clusters fuel start_cluster cluster_buf 0 s
        (listing, heap) ← A.kmalloc listing_size s1.heap
        start_listing fuel start_cluster cluster_buf total listing (record s1 { heap = heap })
      in if cluster_buf == null then ok (null, s) else read

  unfoldable pub fat32_list_directory : ℕ → ℕ → Files A → Run (ℕ × Files A)
  fat32_list_directory fuel start_cluster s = do
    (cluster_buf, heap) ← A.kmalloc (mul32 s.volume.sectors_per_cluster 512) s.heap
    count_and_list fuel start_cluster cluster_buf (record s { heap = heap })

  unfoldable pub fat32_free_dir_listing : ℕ → Files A → Run (Files A)
  fat32_free_dir_listing listing s =
      let infos = load32 (add32 listing listing_entries) s.bytes in
      let with_entries = do
        (result, s1) ← release drive infos 0 s
        (result', s2) ← release drive listing 0 s1
        ok s2
      in let alone = do (result, s1) ← release drive listing 0 s; ok s1
        in if listing == null then ok s else if infos == null then alone else with_entries
