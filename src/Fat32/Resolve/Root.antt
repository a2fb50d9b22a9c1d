-- ===== src/Fat32/Resolve/Root.antt =====
-- The root directory is resolved without the disk.
use icosaos.Prelude.{
  ℕ, ◌+◌, ◌≤◌, ◌<◌, ◌^◌, ◌≡◌, ◌≢◌, ◌⊎◌, ◌∙◌, refl, inl, arith, ◌==◌, add32, update, AllBytes,
  store32, store32-outside, load32, load32-store32, load32-same, ok, false,
}
use icosaos.Disk.{Registers}
use icosaos.Fat32.Volume.{KernelAllocator, Files}
use icosaos.Fat32.Directory.{info_size, info_file_size, info_is_directory, info_first_cluster}
use icosaos.Fat32.Resolve.{write_root_info, fat32_resolve_path}

-- `*info` describes the root: its name, the size 0, a directory, and its first cluster. The other bytes
-- are as in `bytes`.
pub record IsRoot (root info : ℕ) (bytes bytes' : ℕ → ℕ) : Type 0 where
  pub name : (bytes' info ≡ 47) × (bytes' (info + 1) ≡ 0)
  pub file_size : load32 (info + info_file_size) bytes' ≡ 0
  pub is_directory : bytes' (info + info_is_directory) ≡ 1
  pub cluster : load32 (info + info_first_cluster) bytes' ≡ root
  pub outside : (a : ℕ) → (a < info) ⊎ (info + info_size ≤ a) → bytes' a ≡ bytes a
  pub bytes_stay : AllBytes bytes → AllBytes bytes'

store32-AllBytes :
    (at value : ℕ) (bytes : ℕ → ℕ) → AllBytes bytes → AllBytes (store32 at value bytes)
unfolding store32
store32-AllBytes at value bytes h a = ground (arith, h a)

pub write_root_info-IsRoot :
    (root info : ℕ) (bytes : ℕ → ℕ)
    → root < 2 ^ 32
    → info + info_size < 2 ^ 32
    → IsRoot root info bytes (write_root_info root info bytes)
unfolding write_root_info
write_root_info-IsRoot root info bytes small fits =
    let second : add32 info 1 ≡ info + 1 = omega arith in
    let size_at : add32 info 16 ≡ info + 16 = omega arith in
    let kind_at : add32 info 20 ≡ info + 20 = omega arith in
    let cluster_at : add32 info 24 ≡ info + 24 = omega arith in
    let named = update (update bytes info 47) (info + 1) 0 in
    let sized = store32 (info + 16) 0 named in
    let kind = update sized (info + 20) 1 in
    let last : (a : ℕ)
        → (a < info + 24) ⊎ (info + 28 ≤ a)
        → store32 (info + 24) root kind a ≡ kind a =
      λ a out. store32-outside (info + 24) root a kind (omega arith) (ground (arith, out)) in
    let middle : (a : ℕ) → (a < info + 16) ⊎ (info + 20 ≤ a) → sized a ≡ named a =
      λ a out. store32-outside (info + 16) 0 a named (omega arith) (ground (arith, out)) in
    let kept : (a : ℕ) → info + 16 ≤ a → a < info + 20 → store32 (info + 24) root kind a ≡ sized a =
      λ a from to. ground (arith, last a (inl (omega arith))) in
    rw (second, size_at, kind_at, cluster_at)
      (record {
        name = (
          ground (arith, last info (inl (omega arith)), middle info (inl (omega arith))),
          ground
              (arith, last (info + 1) (inl (omega arith)), middle (info + 1) (inl (omega arith))),
        );
        file_size =
            load32-same (info + 16) sized (store32 (info + 24) root kind) (omega arith)
              (λ a from to. kept a from (omega arith))
            ∙ load32-store32 (info + 16) 0 named (omega arith)
            ∙ omega arith;
        is_directory = ground (arith, last (info + 20) (inl (omega arith)));
        cluster = load32-store32 (info + 24) root kind (omega arith) ∙ omega arith;
        outside = λ a out.
            ground (arith, out, last a (ground (arith, out)), middle a (ground (arith, out)));
        bytes_stay = λ h. store32-AllBytes (info + 24) root kind (λ a.
            ground (arith, store32-AllBytes (info + 16) 0 named (λ b. ground (arith, h b)) a));
      })

-- `fat32_resolve_path` of the text "/" succeeds on every disk: the answer is 1, the information
-- describes the given root cluster, and the volume, the heap and the console are as before.
pub fat32_resolve_path-IsRoot :
    {A : KernelAllocator} (drive : Registers → ℕ → ℕ) (fuel path root info node : ℕ) (s : Files A)
    → path ≢ 0
    → info ≢ 0
    → s.bytes path ≡ 47
    → s.bytes (add32 path 1) ≡ 0
    → root < 2 ^ 32
    → info + info_size < 2 ^ 32
    → (bytes : ℕ → ℕ) × (fat32_resolve_path drive fuel path root info node s
        ≡ ok (1, record s { bytes = bytes }))
      × IsRoot root info s.bytes bytes
unfolding fat32_resolve_path
fat32_resolve_path-IsRoot drive fuel path root info node s p i slash end small fits =
    let there : (path == 0) ≡ false = ground arith in
    let wanted : (info == 0) ≡ false = ground arith in
    (
      write_root_info root info s.bytes,
      rw (there, wanted, slash, end) refl,
      write_root_info-IsRoot root info s.bytes small fits,
    )
