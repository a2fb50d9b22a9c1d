-- ===== src/Fat32/Directory/Info.antt =====
-- The information about an entry of a directory, and where memory holds it.
use icosaos.Prelude.{
  ℕ, zero, suc, ◌+◌, ◌*◌, ◌<◌, ◌≤◌, ◌^◌, ◌≡◌, ◌⊎◌, ◌∙◌, refl, arith, add32, List, [], ◌∷◌, size_of,
  load16, load32, load32-same,
}
use icosaos.Prelude.Bits.{or-lt}
use icosaos.Fat32.Names.{used, dotted, HoldsAt}
use icosaos.Fat32.Volume.{first_cluster, entry_file_size}
use icosaos.Fat32.Directory.{
  is_directory, info_size, info_file_size, info_is_directory, info_first_cluster,
}

pub record Info : Type 0 where
  pub name : List ℕ
  pub file_size : ℕ
  pub directory : ℕ
  pub cluster : ℕ

-- What an entry of a directory says.
abbrev pub info_of : ℕ → (ℕ → ℕ) → Info
info_of entry bytes = record {
  name = dotted (used 8 0 (λ k. bytes (add32 entry k))) (used 3 8 (λ k. bytes (add32 entry k)));
  file_size = load32 (add32 entry entry_file_size) bytes;
  directory = is_directory entry bytes;
  cluster = first_cluster entry bytes;
}

-- The 28 bytes at `info` hold the information.
pub record HoldsInfo (info : ℕ) (x : Info) (bytes : ℕ → ℕ) : Type 0 where
  pub name : HoldsAt (λ k. bytes (info + k)) 0 x.name
  pub terminated : bytes (info + size_of x.name) ≡ 0
  pub short : size_of x.name ≤ 12
  pub file_size : load32 (info + info_file_size) bytes ≡ x.file_size
  pub directory : bytes (info + info_is_directory) ≡ x.directory
  pub cluster : load32 (info + info_first_cluster) bytes ≡ x.cluster

pub HoldsAt-same :
    (cs : List ℕ) (p : ℕ) (r r' : ℕ → ℕ)
    → HoldsAt r p cs
    → ((k : ℕ) → p ≤ k → k < p + size_of cs → r' k ≡ r k)
    → HoldsAt r' p cs
HoldsAt-same [] p r r' h same = tt
HoldsAt-same (c ∷ cs) p r r' (here, later) same = (
  same p (omega arith) (omega arith) ∙ here,
  HoldsAt-same cs (p + 1) r r' later (λ k from to. same k (omega arith) (omega arith)),
)

-- Memory that is the same in the 28 bytes holds the same.
pub HoldsInfo-same :
    (info : ℕ) (x : Info) (bytes bytes' : ℕ → ℕ)
    → HoldsInfo info x bytes
    → info + info_size < 2 ^ 32
    → ((a : ℕ) → info ≤ a → a < info + info_size → bytes' a ≡ bytes a)
    → HoldsInfo info x bytes'
HoldsInfo-same info x bytes bytes' h room same =
    let short = h.short in
    record {
      name =
          HoldsAt-same x.name 0 (λ k. bytes (info + k)) (λ k. bytes' (info + k)) h.name
            (λ k from to. same (info + k) (omega arith) (omega arith));
      terminated = same (info + size_of x.name) (omega arith) (omega arith) ∙ h.terminated;
      short = short;
      file_size =
          load32-same (info + 16) bytes bytes' (omega arith)
            (λ a from to. same a (omega arith) (omega arith))
          ∙ h.file_size;
      directory = same (info + 20) (omega arith) (omega arith) ∙ h.directory;
      cluster =
          load32-same (info + 24) bytes bytes' (omega arith)
            (λ a from to. same a (omega arith) (omega arith))
          ∙ h.cluster;
    }

used-same :
    (n i : ℕ) (raw raw' : ℕ → ℕ)
    → ((k : ℕ) → i ≤ k → k < i + n → raw' k ≡ raw k)
    → used n i raw' ≡ used n i raw
used-same zero i raw raw' same = refl
used-same (suc n) i raw raw' same =
    rw
      (
        same i (omega arith) (omega arith),
        used-same n (i + 1) raw raw' (λ k from to. same k (omega arith) (omega arith)),
      )
      refl

-- Memory that is the same in the 32 bytes of an entry says the same.
pub info_of-same :
    (entry : ℕ) (bytes bytes' : ℕ → ℕ)
    → entry + 32 < 2 ^ 32
    → ((a : ℕ) → entry ≤ a → a < entry + 32 → bytes' a ≡ bytes a)
    → info_of entry bytes' ≡ info_of entry bytes
unfolding is_directory first_cluster load16
info_of-same entry bytes bytes' room same =
    let at : (k : ℕ) → k < 32 → bytes' (add32 entry k) ≡ bytes (add32 entry k) =
      λ k h. same (add32 entry k) (omega arith) (omega arith) in
    let raw = λ (k : ℕ). bytes (add32 entry k) in
    let raw' = λ (k : ℕ). bytes' (add32 entry k) in
    let e1 = used-same 8 0 raw raw' (λ k from to. at k (omega arith)) in
    let e2 = used-same 3 8 raw raw' (λ k from to. at k (omega arith)) in
    let size : load32 (add32 entry 28) bytes' ≡ load32 (add32 entry 28) bytes =
      load32-same (add32 entry 28) bytes bytes' (omega arith)
        (λ a from to. same a (omega arith) (omega arith)) in
    let next : (k : ℕ)
        → k < 31
        → bytes' (add32 (add32 entry k) 1) ≡ bytes (add32 (add32 entry k) 1) =
      λ k h. same (add32 (add32 entry k) 1) (omega arith) (omega arith) in
    rw
      (
        e1,
        e2,
        size,
        at 11 (omega arith),
        at 20 (omega arith),
        next 20 (omega arith),
        at 26 (omega arith),
        next 26 (omega arith),
      )
      refl

-- The cells from `from` up to `to` hold bytes.
abbrev pub BytesIn : ℕ → ℕ → (ℕ → ℕ) → Type 0
BytesIn from to bytes = (a : ℕ) → from ≤ a → a < to → bytes a < 256

-- The size and the cluster of an entry are 32-bit numbers.
pub info_of-lt :
    (entry : ℕ) (bytes : ℕ → ℕ)
    → entry + 32 < 2 ^ 32
    → BytesIn entry (entry + 32) bytes
    → (load32 (add32 entry entry_file_size) bytes < 2 ^ 32) × (first_cluster entry bytes < 2 ^ 32)
unfolding first_cluster load16 load32
info_of-lt entry bytes room all =
    let at : (k : ℕ) → k < 32 → bytes (add32 entry k) < 256 =
      λ k h. all (add32 entry k) (omega arith) (omega arith) in
    let next : (k j : ℕ) → k + j < 32 → bytes (add32 (add32 entry k) j) < 256 =
      λ k j h. all (add32 (add32 entry k) j) (omega arith) (omega arith) in
    let high : bytes (add32 entry 20) + 256 * bytes (add32 (add32 entry 20) 1) < 2 ^ 16 =
      omega (arith, at 20 (omega arith), next 20 1 (omega arith)) in
    let low : bytes (add32 entry 26) + 256 * bytes (add32 (add32 entry 26) 1) < 2 ^ 16 =
      omega (arith, at 26 (omega arith), next 26 1 (omega arith)) in
    (
      omega (
        arith,
        at 28 (omega arith),
        next 28 1 (omega arith),
        next 28 2 (omega arith),
        next 28 3 (omega arith),
      ),
      or-lt 32 _ _ (omega arith) (omega arith),
    )

-- A round of the listing: the information about the entry at `info`, and every other byte of the 32-bit
-- memory as it was.
pub record Writes (entry info : ℕ) (bytes bytes' : ℕ → ℕ) : Type 0 where
  pub holds : HoldsInfo info (info_of entry bytes) bytes'
  pub outside : (a : ℕ) → a < 2 ^ 32 → (a < info) ⊎ (info + info_size ≤ a) → bytes' a ≡ bytes a
