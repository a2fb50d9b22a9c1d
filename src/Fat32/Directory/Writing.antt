-- ===== src/Fat32/Directory/Writing.antt =====
-- A round of the listing: `write_info` writes what the entry says, and nothing else.
use icosaos.Prelude.{
  ℕ, ◌+◌, ◌<◌, ◌≤◌, ◌^◌, ◌≡◌, ◌⊎◌, ◌∙◌, inl, refl, ap, arith, add32, sub32, update, load32, store32,
  store32-outside, load32-store32, load32-same,
}
use icosaos.Fat32.{format_fat_name}
use icosaos.Fat32.Names.{format_fat_name-Names}
use icosaos.Fat32.Volume.{first_cluster, entry_file_size}
use icosaos.Fat32.Directory.{write_info, is_directory, info_size}
use icosaos.Fat32.Directory.Info.{
  Info, info_of, HoldsAt-same, info_of-same, info_of-lt, BytesIn, Writes,
}

module _ (entry info : ℕ) (bytes : ℕ → ℕ) (room : entry + 32 < 2 ^ 32)
    (place : info + info_size < 2 ^ 32) (apart : (entry + 32 ≤ info) ⊎ (info + info_size ≤ entry))
    (all : BytesIn entry (entry + 32) bytes) where
  -- Where only the information differs, the entry says the same.
  entry_stays :
      (bytes' : ℕ → ℕ)
      → ((a : ℕ) → a < 2 ^ 32 → (a < info) ⊎ (info + info_size ≤ a) → bytes' a ≡ bytes a)
      → info_of entry bytes' ≡ info_of entry bytes
  entry_stays bytes' outside =
      info_of-same entry bytes bytes' room
        (λ a from to. outside a (omega arith) (ground (arith, apart)))

  named : ℕ → ℕ
  named a = format_fat_name (λ k. bytes (add32 entry k)) (λ k. bytes (add32 info k)) (sub32 a info)

  named-outside : (a : ℕ) → a < 2 ^ 32 → (a < info) ⊎ (info + 13 ≤ a) → named a ≡ bytes a
  unfolding named
  named-outside a h out =
      let names = format_fat_name-Names (λ k. bytes (add32 entry k)) (λ k. bytes (add32 info k)) in
      let back : add32 info (sub32 a info) ≡ a = ground (arith, out) in
      names.outside (sub32 a info) (ground (arith, out)) ∙ ap bytes back

  named-inside :
      (k : ℕ)
      → k < 28
      → named (info + k)
        ≡ format_fat_name (λ j. bytes (add32 entry j)) (λ j. bytes (add32 info j)) k
  unfolding named
  named-inside k h =
      let e : sub32 (info + k) info ≡ k = omega arith in
      ap (format_fat_name (λ j. bytes (add32 entry j)) (λ j. bytes (add32 info j))) e

  -- The name with three values behind it.
  sized : ℕ → ℕ → ℕ
  sized size = store32 (info + 16) size named

  kind : ℕ → ℕ → ℕ → ℕ
  kind size directory = update (sized size) (info + 20) directory

  stored : ℕ → ℕ → ℕ → ℕ → ℕ
  stored size directory cluster = store32 (info + 24) cluster (kind size directory)

  sized-outside : (size a : ℕ) → (a < info + 16) ⊎ (info + 20 ≤ a) → sized size a ≡ named a
  unfolding sized
  sized-outside size a out =
      store32-outside (info + 16) size a named (omega arith) (ground (arith, out))

  kind-outside :
      (size directory a : ℕ) → (a < info + 16) ⊎ (info + 21 ≤ a) → kind size directory a ≡ named a
  unfolding kind
  kind-outside size directory a out =
      ground (arith, out, sized-outside size a (ground (arith, out)))

  stored-outside :
      (size directory cluster a : ℕ)
      → (a < info + 16) ⊎ (info + 28 ≤ a)
      → stored size directory cluster a ≡ named a
  unfolding stored
  stored-outside size directory cluster a out =
      store32-outside (info + 24) cluster a (kind size directory) (omega arith)
        (ground (arith, out))
      ∙ kind-outside size directory a (ground (arith, out))

  stored-fields :
      (size directory cluster : ℕ)
      → size < 2 ^ 32
      → cluster < 2 ^ 32
      → (load32 (info + 16) (stored size directory cluster) ≡ size)
        × (stored size directory cluster (info + 20) ≡ directory)
        × (load32 (info + 24) (stored size directory cluster) ≡ cluster)
  unfolding stored kind sized
  stored-fields size directory cluster hs hc =
      let last : (a : ℕ) → a < info + 24 → stored size directory cluster a ≡ kind size directory a =
        λ a h.
          store32-outside (info + 24) cluster a (kind size directory) (omega arith)
            (inl (omega arith)) in
      (
        load32-same (info + 16) (sized size) (stored size directory cluster) (omega arith)
              (λ a from to. last a (omega arith) ∙ ground arith)
            ∙ load32-store32 (info + 16) size named (omega arith)
            ∙ omega arith,
        last (info + 20) (omega arith) ∙ ground arith,
        load32-store32 (info + 24) cluster (kind size directory) (omega arith) ∙ omega arith,
      )

  write_info-stored :
      write_info entry info bytes
      ≡ stored
          (load32 (add32 entry entry_file_size) bytes)
          (is_directory entry bytes)
          (first_cluster entry bytes)
  unfolding write_info stored kind sized named
  write_info-stored =
      let size = load32 (add32 entry entry_file_size) bytes in
      let directory = is_directory entry bytes in
      let same_named = entry_stays named (λ a h out. named-outside a h (ground (arith, out))) in
      let same_sized = entry_stays (sized size) (λ a h out.
        sized-outside size a (ground (arith, out)) ∙ named-outside a h (ground (arith, out))) in
      let same_kind = entry_stays (kind size directory) (λ a h out.
        kind-outside size directory a (ground (arith, out))
        ∙ named-outside a h (ground (arith, out))) in
      let at16 : add32 info 16 ≡ info + 16 = omega arith in
      let at20 : add32 info 20 ≡ info + 20 = omega arith in
      let at24 : add32 info 24 ≡ info + 24 = omega arith in
      rw (at16, at20, at24)
        (rw (ap (λ (x : Info). x.file_size) same_named) (
          rw (ap (λ (x : Info). x.directory) same_sized)
            (rw (ap (λ (x : Info). x.cluster) same_kind) refl)))

  pub write_info-Writes : Writes entry info bytes (write_info entry info bytes)
  write_info-Writes =
      let names = format_fat_name-Names (λ k. bytes (add32 entry k)) (λ k. bytes (add32 info k)) in
      let (small_size, small_cluster) = info_of-lt entry bytes room all in
      let size = load32 (add32 entry entry_file_size) bytes in
      let directory = is_directory entry bytes in
      let cluster = first_cluster entry bytes in
      let (e1, e2, e3) = stored-fields size directory cluster small_size small_cluster in
      let short = names.fits in
      let cell : (k : ℕ)
          → k < 13
          → stored size directory cluster (info + k)
            ≡ format_fat_name (λ j. bytes (add32 entry j)) (λ j. bytes (add32 info j)) k =
        λ k h.
          stored-outside size directory cluster (info + k) (inl (omega arith))
          ∙ named-inside k (omega arith) in
      rw write_info-stored (record {
        holds = record {
          name =
              HoldsAt-same (info_of entry bytes).name 0 _
                (λ k. stored size directory cluster (info + k)) names.holds
                (λ k from to. cell k (omega arith));
          terminated = cell _ (omega arith) ∙ names.terminated;
          short = short;
          file_size = e1;
          directory = e2;
          cluster = e3;
        };
        outside = λ a h out.
            stored-outside size directory cluster a (ground (arith, out))
            ∙ named-outside a h (ground (arith, out));
      })
