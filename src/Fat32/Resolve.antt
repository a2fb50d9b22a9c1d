-- ===== src/Fat32/Resolve.antt =====
-- src/kernel/fat32.c: `fat32_resolve_path`. The path, the local array for the name of a node, and
-- `*out_info` are addresses of memory.
pub mod Root
use icosaos.Prelude.{
  ℕ, zero, suc, ◌+◌, ◌||◌, ◌&&◌, add32, sub32, mul32, update, ◌==◌, load32, store32, Bool, true,
  false, Option, none, some, if◌then◌else◌, Run, ok, out_of_fuel, ◌>>=◌,
}
use icosaos.Disk.{Registers}
use icosaos.Strings.{memcpy, strcmp}
use icosaos.Fat32.{fat32_normalize_path_token, skip_slashes, get_next_path_node}
use icosaos.Fat32.Volume.{KernelAllocator, Files, null}
use icosaos.Fat32.Directory.{
  info_size, info_file_size, info_is_directory, info_first_cluster, listing_entries,
  fat32_list_directory, fat32_free_dir_listing,
}

-- `path[0] == '/' && path[1] == '\0'`: the information about the root.
unfoldable pub write_root_info : ℕ → ℕ → (ℕ → ℕ) → ℕ → ℕ
write_root_info root_cluster out_info bytes =
    let named = update (update bytes out_info 47) (add32 out_info 1) 0 in
    let sized = store32 (add32 out_info info_file_size) 0 named in
    store32 (add32 out_info info_first_cluster) root_cluster
      (update sized (add32 out_info info_is_directory) 1)

-- The loop over the entries of a listing: whether the name was found, with the entry copied to
-- `out_info`.
unfoldable pub find_info : ℕ → ℕ → ℕ → ℕ → ℕ → ℕ → (ℕ → ℕ) → Run (Bool × (ℕ → ℕ))
find_info fuel zero i infos name out_info bytes = ok (false, bytes)
find_info fuel (suc n) i infos name out_info bytes =
    let info = add32 infos (mul32 i info_size) in
    let rest = find_info fuel n (i + 1) infos name out_info bytes in
    strcmp fuel info name bytes >>= λ difference.
    if difference == 0 then ok (true, (memcpy out_info info info_size bytes).1) else rest

-- How a round of the loop along the path ends: the function returns, or it goes on at a cursor in a
-- directory.
pub data Walk : Type 0 where
  returned : ℕ → Walk
  onward : ℕ → ℕ → Walk

module _ {A : KernelAllocator} (drive : Registers → ℕ → ℕ) where
  -- A round behind the search of the listing.
  unfoldable pub after_search : ℕ → ℕ → ℕ → ℕ → Bool → Files A → Run (Walk × Files A)
  after_search fuel path_cursor current_cluster out_info node_found s =
      let walk = do
        cursor ← skip_slashes fuel path_cursor s.bytes
        if s.bytes cursor == 0
            then ok (onward cursor current_cluster, s)
            else if s.bytes (add32 out_info info_is_directory) == 0
            then ok (returned 0, s)
            else ok (onward cursor (load32 (add32 out_info info_first_cluster) s.bytes), s)
      in if node_found then walk else ok (returned 0, s)

  -- A round behind the listing of the directory.
  unfoldable pub search_listing : ℕ → ℕ → ℕ → ℕ → ℕ → ℕ → Files A → Run (Walk × Files A)
  search_listing fuel path_cursor current_cluster node out_info listing s =
      let infos = load32 (add32 listing listing_entries) s.bytes in
      let search = do
        (node_found, bytes) ← find_info fuel (load32 listing s.bytes) 0 infos node out_info s.bytes
        s1 ← fat32_free_dir_listing drive listing (record s { bytes = bytes })
        after_search fuel path_cursor current_cluster out_info node_found s1
      in if listing == null then ok (returned 0, s) else search

  -- A round behind `get_next_path_node`.
  unfoldable pub enter_node : ℕ → ℕ → ℕ → ℕ → Option (ℕ × (ℕ → ℕ)) → Files A → Run (Walk × Files A)
  enter_node fuel current_cluster node out_info none s = ok (returned 1, s)
  enter_node fuel current_cluster node out_info (some (path_cursor, name)) s = do
    bytes ← fat32_normalize_path_token fuel node (λ a. name (sub32 a node))
    (listing, s1) ← fat32_list_directory drive fuel current_cluster (record s { bytes = bytes })
    search_listing fuel path_cursor current_cluster node out_info listing s1

  unfoldable pub resolve_from : ℕ → ℕ → ℕ → ℕ → ℕ → Files A → Run (ℕ × Files A)
  resolve_from zero path_cursor current_cluster node out_info s = out_of_fuel
  resolve_from (suc fuel) path_cursor current_cluster node out_info s =
      get_next_path_node fuel path_cursor s.bytes (λ k. s.bytes (add32 node k)) >>= λ next.
      enter_node fuel current_cluster node out_info next s >>= λ r. elim r.0 [
        | returned result ↦ ok (result, r.1)
        | onward cursor cluster ↦ resolve_from fuel cursor cluster node out_info r.1
      ]

  unfoldable pub fat32_resolve_path : ℕ → ℕ → ℕ → ℕ → ℕ → Files A → Run (ℕ × Files A)
  fat32_resolve_path fuel path root_cluster out_info node s =
      if path == null || out_info == null
      then ok (0, s)
      else if s.bytes path == 47 && s.bytes (add32 path 1) == 0
      then ok (1, record s { bytes = write_root_info root_cluster out_info s.bytes })
      else resolve_from fuel path root_cluster node out_info s
