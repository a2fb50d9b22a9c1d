-- ===== src/Fat32/Volume/Rounds.antt =====
-- The content of a file: the bytes of the clusters of its chain, and one round of the loop that reads
-- them.
use icosaos.Prelude.{
  ℕ, zero, suc, ◌+◌, ◌-◌, ◌*◌, ◌≤◌, ◌<◌, ◌^◌, ◌≡◌, ◌⊎◌, inl, inr, refl, ◌∙◌, arith, true, ◌&&◌,
  add32, sub32, mul32, ltb, leb, if◌then◌else◌, Bool-cases, List, ok,
}
use mathlib.Core.Path.{subst}
use icosaos.Disk.{Registers}
use icosaos.Strings.{memcpy}
use icosaos.Strings.Blocks.{memcpy-copies}
use icosaos.Fat32.Volume.{
  KernelAllocator, Volume, Files, cluster_sector, read_sectors, read_cluster,
  fat32_get_next_cluster, read_clusters, end_of_chain,
}
use icosaos.Fat32.Volume.Allocation.{Region, Apart}
use icosaos.Fat32.Volume.Sectors.{IsDrive, cluster_byte, fat_entry, read_sectors-bytes}
use icosaos.Fat32.Volume.Table.{InTable}

abbrev pub cluster_size : Volume → ℕ
cluster_size v = v.sectors_per_cluster * 512

-- The chain of at least `n` clusters from `c` on: none of them ends it, and their sectors and entries
-- are numbers that the drive takes.
abbrev pub Chain : (ℕ → ℕ → ℕ) → Volume → ℕ → ℕ → Type 0
Chain disk v zero c = Unit {0}
Chain disk v (suc n) c =
    (c < end_of_chain)
    × (cluster_sector v c + v.sectors_per_cluster + 2048 ≤ 2 ^ 28)
    × InTable v c
    × Chain disk v n (fat_entry disk v c)

-- The byte `k` of the `n` clusters from `c` on.
abbrev pub chain_byte : (ℕ → ℕ → ℕ) → Volume → ℕ → ℕ → ℕ → ℕ
chain_byte disk v zero c k = 0
chain_byte disk v (suc n) c k =
    let rest = chain_byte disk v n (fat_entry disk v c) (k - cluster_size v) in
    if ltb k (cluster_size v) then cluster_byte disk v c k else rest

-- The two buffers of a file of `size` bytes, and the regions lent before them.
pub record Buffers (v : Volume) (file_buffer cluster_buf size : ℕ) (rs : List Region) : Type 0 where
  pub file_fits : file_buffer + size ≤ 2 ^ 32
  pub cluster_fits : cluster_buf + cluster_size v ≤ 2 ^ 32
  pub buffers_apart :
      (cluster_buf + cluster_size v ≤ file_buffer) ⊎ (file_buffer + size ≤ cluster_buf)
  pub file_apart : Apart file_buffer size rs
  pub cluster_apart : Apart cluster_buf (cluster_size v) rs
  pub there : 0 < cluster_buf
  pub some_sectors : 0 < v.sectors_per_cluster

-- The part of the file in the next cluster.
abbrev pub part : Volume → ℕ → ℕ
part v remaining = if ltb (cluster_size v) remaining then cluster_size v else remaining

module _ {A : KernelAllocator} (drive : Registers → ℕ → ℕ) (disk : ℕ → ℕ → ℕ)
    (d : IsDrive drive disk) where
  -- One round: the cluster in the cluster's buffer, and its part of the file in the file's.
  pub round :
      (v : Volume) (c copied at cluster_buf : ℕ) (s : Files A)
      → s.volume ≡ v
      → cluster_sector v c + v.sectors_per_cluster + 2048 ≤ 2 ^ 28
      → cluster_buf + cluster_size v ≤ 2 ^ 32
      → at + copied ≤ 2 ^ 32
      → copied ≤ cluster_size v
      → (at + copied ≤ cluster_buf) ⊎ (cluster_buf + cluster_size v ≤ at)
      → (a : ℕ)
      → (memcpy at cluster_buf copied (read_cluster drive c cluster_buf s).bytes).1 a ≡ (
          if leb at a && ltb a (at + copied)
          then cluster_byte disk v c (a - at)
          else if leb cluster_buf a && ltb a (cluster_buf + cluster_size v)
          then cluster_byte disk v c (a - cluster_buf)
          else s.bytes a)
  unfolding read_cluster
  round v c copied at cluster_buf s e sector fits fits' le apart a =
      let read =
        read_sectors-bytes drive disk v.sectors_per_cluster 0 (cluster_sector v c) cluster_buf
          s.bytes d (omega arith) (omega arith) in
      let (same, copies) =
        memcpy-copies at cluster_buf copied
          (read_sectors drive v.sectors_per_cluster 0 (cluster_sector v c) cluster_buf s.bytes)
          fits' (omega arith) (ground arith) in
      rw e (
        copies a ∙ elim (Bool-cases (leb at a && ltb a (at + copied))) [
          | inl here ↦
              let same_byte : cluster_buf + (a - at) - cluster_buf ≡ a - at = omega arith in
              rw here (read (cluster_buf + (a - at)) ∙ rw same_byte (ground arith))
          | inr there ↦ rw there (read a ∙ ground arith)
        ])

  pub read_clusters-done :
      (fuel c offset file_buffer cluster_buf : ℕ) (s : Files A)
      → read_clusters drive (suc fuel) c 0 offset file_buffer cluster_buf s ≡ ok s
  unfolding read_clusters
  read_clusters-done fuel c offset file_buffer cluster_buf s =
      elim (Bool-cases (ltb c end_of_chain)) [
        | inl going ↦ rw going refl
        | inr ended ↦ rw ended refl
      ]

  read_clusters-step :
      (fuel c remaining offset file_buffer cluster_buf next : ℕ) (s s3 : Files A)
      → cluster_size s.volume < 2 ^ 32
      → file_buffer + offset + remaining < 2 ^ 32
      → c < end_of_chain
      → 0 < remaining
      → fat32_get_next_cluster drive c (record (read_cluster drive c cluster_buf s) {
        bytes =
            (memcpy
              (file_buffer + offset)
              cluster_buf
              (part s.volume remaining)
              (read_cluster drive c cluster_buf s).bytes).1;
      })
        ≡ ok (next, s3)
      → read_clusters drive (suc fuel) c remaining offset file_buffer cluster_buf s
        ≡ read_clusters drive fuel next
            (remaining - part s.volume remaining)
            (offset + part s.volume remaining)
            file_buffer
            cluster_buf
            s3
  unfolding read_clusters
  read_clusters-step fuel c remaining offset file_buffer cluster_buf next s s3 small fits going some
        f =
      let size : mul32 s.volume.sectors_per_cluster 512 ≡ cluster_size s.volume = omega arith in
      let at : add32 file_buffer offset ≡ file_buffer + offset = omega arith in
      let less : part s.volume remaining ≤ remaining = ground arith in
      let left : sub32 remaining (part s.volume remaining) ≡ remaining - part s.volume remaining =
        ground arith in
      let on : add32 offset (part s.volume remaining) ≡ offset + part s.volume remaining =
        ground arith in
      let go_on : (ltb c end_of_chain && ltb 0 remaining) ≡ true = ground arith in
      rw (go_on, size, at, left, on) (rw f refl)

  pub read_clusters-at :
      (v : Volume) (fuel c remaining offset file_buffer cluster_buf next : ℕ) (s s3 : Files A)
      → s.volume ≡ v
      → file_buffer + offset + remaining < 2 ^ 32
      → c < end_of_chain
      → 0 < remaining
      → cluster_size v < 2 ^ 32
      → fat32_get_next_cluster drive c (record (read_cluster drive c cluster_buf s) {
        bytes =
            (memcpy
              (file_buffer + offset)
              cluster_buf
              (part v remaining)
              (read_cluster drive c cluster_buf s).bytes).1;
      })
        ≡ ok (next, s3)
      → read_clusters drive (suc fuel) c remaining offset file_buffer cluster_buf s
        ≡ read_clusters drive fuel next
            (remaining - part v remaining)
            (offset + part v remaining)
            file_buffer
            cluster_buf
            s3
  read_clusters-at v fuel c remaining offset file_buffer cluster_buf next s s3 e fits going some =
      subst
        (λ (w : Volume).
          cluster_size w < 2 ^ 32
          → fat32_get_next_cluster drive c (record (read_cluster drive c cluster_buf s) {
            bytes =
                (memcpy (file_buffer + offset) cluster_buf (part w remaining)
                  (read_cluster drive c cluster_buf s).bytes).1;
          })
            ≡ ok (next, s3)
          → read_clusters drive (suc fuel) c remaining offset file_buffer cluster_buf s
            ≡ read_clusters drive fuel next (remaining - part w remaining)
                (offset + part w remaining) file_buffer cluster_buf s3)
        e
        (λ small f.
          read_clusters-step fuel c remaining offset file_buffer cluster_buf next s s3 small fits
            going some f)
