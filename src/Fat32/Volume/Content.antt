-- ===== src/Fat32/Volume/Content.antt =====
-- The loop that reads a file into its buffer.
use icosaos.Prelude.{
  ℕ, zero, suc, ◌+◌, ◌-◌, ◌*◌, ◌≤◌, ◌<◌, ◌≡◌, ◌⊎◌, inl, inr, refl, ◌∙◌, arith, true, false, ◌&&◌,
  ltb, leb, if◌then◌else◌, Bool-cases, List, ◌∷◌, ok,
}
use icosaos.Disk.{Registers}
use icosaos.Strings.{memcpy}
use icosaos.Fat32.Volume.{KernelAllocator, Volume, Files, read_cluster, read_clusters}
use icosaos.Fat32.Volume.Allocation.{Region, Serves, Kept, Kept-after, Kept-self, Kept-two}
use icosaos.Fat32.Volume.Sectors.{IsDrive, cluster_byte, fat_entry}
use icosaos.Fat32.Volume.Table.{fat32_get_next_cluster-at}
use icosaos.Fat32.Volume.Rounds.{
  cluster_size, Chain, chain_byte, Buffers, part, round, read_clusters-done, read_clusters-at,
}

module _ {A : KernelAllocator} (laws : Serves A) (drive : Registers → ℕ → ℕ) (disk : ℕ → ℕ → ℕ)
    (d : IsDrive drive disk) (room : ℕ) where
  -- What the loop does: the file is in its buffer from `offset` on, and its bytes before that and the
  -- regions lent before are as they were.
  pub record Reads (v : Volume) (n c remaining offset file_buffer cluster_buf size : ℕ)
      (rs : List Region) (bytes : ℕ → ℕ) (s' : Files A) : Type 0 where
    pub same_volume : s'.volume ≡ v
    pub holds :
        laws.Holds (suc room) s'.heap ((cluster_buf, cluster_size v) ∷ (file_buffer, size) ∷ rs)
    pub content :
        (k : ℕ) → k < remaining → s'.bytes (file_buffer + offset + k) ≡ chain_byte disk v n c k
    pub before : (k : ℕ) → k < offset → s'.bytes (file_buffer + k) ≡ bytes (file_buffer + k)
    pub kept : Kept rs bytes s'.bytes

  -- One round and the rest of the loop.
  Reads-round :
      (v : Volume) (n c remaining offset file_buffer cluster_buf size : ℕ) (rs : List Region)
      (s s' : Files A) (b2 b3 : ℕ → ℕ)
      → Buffers v file_buffer cluster_buf size rs
      → offset + remaining < size
      → ((a : ℕ)
          → b2 a ≡ (
              if leb (file_buffer + offset) a && ltb a (file_buffer + offset + part v remaining)
              then cluster_byte disk v c (a - (file_buffer + offset))
              else if leb cluster_buf a && ltb a (cluster_buf + cluster_size v)
              then cluster_byte disk v c (a - cluster_buf)
              else s.bytes a))
      → Kept ((cluster_buf, cluster_size v) ∷ (file_buffer, size) ∷ rs) b2 b3
      → Reads v n
          (fat_entry disk v c)
          (remaining - part v remaining)
          (offset + part v remaining)
          file_buffer
          cluster_buf
          size
          rs
          b3
          s'
      → Reads v (suc n) c remaining offset file_buffer cluster_buf size rs s.bytes s'
  Reads-round v n c remaining offset file_buffer cluster_buf size rs s s' b2 b3 b lt one
        (own, (file, kept)) rest =
      let apart = b.buffers_apart in
      let less : part v remaining ≤ remaining = ground arith in
      let le : part v remaining ≤ cluster_size v = ground arith in
      let all : (part v remaining ≡ remaining) ⊎ (part v remaining ≡ cluster_size v) =
        ground arith in
      record {
        same_volume = rest.same_volume;
        holds = rest.holds;
        content = λ k h. elim (Bool-cases (ltb k (part v remaining))) [
          | inl first ↦
              let offset_of : file_buffer + offset + k - (file_buffer + offset) ≡ k = omega arith in
              let at : file_buffer + (offset + k) ≡ file_buffer + offset + k = omega arith in
              let moved = rest.before (offset + k) (ground arith) in
              let read = one (file_buffer + offset + k) in
              let saved = file (file_buffer + offset + k) (omega arith) (omega arith) in
              let whole : ltb k (cluster_size v) ≡ true = ground arith in
              rw whole (rw at at moved ∙ saved ∙ rw offset_of at read ∙ ground arith)
          | inr later ↦
              let full : part v remaining ≡ cluster_size v = ground arith in
              let beyond : ltb k (cluster_size v) ≡ false = ground arith in
              let at : file_buffer + (offset + part v remaining) + (k - cluster_size v)
                  ≡ file_buffer + offset + k =
                ground arith in
              let rest_at = rest.content (k - cluster_size v) (ground arith) in
              rw beyond (rw at at rest_at)
        ];
        before = λ k h.
            let moved = rest.before k (omega arith) in
            let saved = file (file_buffer + k) (omega arith) (omega arith) in
            moved ∙ saved ∙ one (file_buffer + k) ∙ ground arith;
        kept =
            Kept-after rs s.bytes b2 s'.bytes
              (Kept-two file_buffer size cluster_buf (cluster_size v) rs s.bytes b2 b.file_apart
                b.cluster_apart (λ a out out'. one a ∙ ground arith))
              (Kept-after rs b2 b3 s'.bytes kept rest.kept);
      }

  pub read_clusters-Reads :
      (v : Volume) (n fuel c remaining offset file_buffer cluster_buf size : ℕ) (rs : List Region)
      (s : Files A)
      → s.volume ≡ v
      → Buffers v file_buffer cluster_buf size rs
      → laws.Holds (suc room) s.heap ((cluster_buf, cluster_size v) ∷ (file_buffer, size) ∷ rs)
      → Chain disk v n c
      → remaining ≤ n * cluster_size v
      → offset + remaining < size
      → n < fuel
      → (s' : Files A) × (read_clusters drive fuel c remaining offset file_buffer cluster_buf s
          ≡ ok s')
        × Reads v n c remaining offset file_buffer cluster_buf size rs s.bytes s'
  unfolding read_cluster
  read_clusters-Reads v n zero c remaining offset file_buffer cluster_buf size rs s e b holds chain
        le lt enough =
      absurd (omega arith)
  read_clusters-Reads v zero (suc fuel) c remaining offset file_buffer cluster_buf size rs s e b
        holds chain le lt enough =
      let done : remaining ≡ 0 = omega arith in
      rw done (
        s,
        read_clusters-done drive disk d fuel c offset file_buffer cluster_buf s,
        record {
          same_volume = e;
          holds = holds;
          content = λ k h. absurd (omega arith);
          before = λ k h. refl;
          kept = Kept-self rs s.bytes;
        },
      )
  read_clusters-Reads v (suc n) (suc fuel) c remaining offset file_buffer cluster_buf size rs s e b
        holds (going, sector, table, chain) le lt enough =
      elim (Bool-cases (ltb 0 remaining)) [
        | inl going_on ↦
            let some : 0 < remaining = ground arith in
            let copied =
              (memcpy (file_buffer + offset) cluster_buf (part v remaining)
                (read_cluster drive c cluster_buf s).bytes).1 in
            let s2 = record (read_cluster drive c cluster_buf s) { bytes = copied } in
            let (s3, f, steps) =
              fat32_get_next_cluster-at laws drive disk d room v c s2
                ((cluster_buf, cluster_size v) ∷ (file_buffer, size) ∷ rs) e holds table in
            let e3 : s3.volume ≡ v = steps.same_volume ∙ e in
            let fits = b.file_fits in
            let cluster_fits = b.cluster_fits in
            let there = b.there in
            let (s', g, rest) =
              read_clusters-Reads v n fuel (fat_entry disk v c) (remaining - part v remaining)
                (offset + part v remaining) file_buffer cluster_buf size rs s3 e3 b steps.holds
                chain (ground arith) (ground arith) (omega arith) in
            let one =
              round drive disk d v c (part v remaining) (file_buffer + offset) cluster_buf s e
                sector cluster_fits (ground arith) (ground arith) (ground arith) in
            (
              s',
              read_clusters-at drive disk d v fuel c remaining offset file_buffer cluster_buf
                    (fat_entry disk v c) s s3 e (omega arith) going some (omega arith) f
                  ∙ g,
              Reads-round v n c remaining offset file_buffer cluster_buf size rs s s' copied
                  s3.bytes b lt one steps.kept rest,
            )
        | inr none_left ↦
            let done : remaining ≡ 0 = ground arith in
            rw done (
              s,
              read_clusters-done drive disk d fuel c offset file_buffer cluster_buf s,
              record {
                same_volume = e;
                holds = holds;
                content = λ k h. absurd (omega arith);
                before = λ k h. refl;
                kept = Kept-self rs s.bytes;
              },
            )
      ]
