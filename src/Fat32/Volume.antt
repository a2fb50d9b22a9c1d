-- ===== src/Fat32/Volume.antt =====
-- src/kernel/fat32.c: the volume, its clusters and its files. The allocator of the kernel is an
-- interface, whose pointers are addresses of the memory `bytes`; the drive is the one of Disk.antt. A
-- structure on the disk or in memory is read at the offsets of its packed or aligned fields.
pub mod Allocation
pub mod Sectors
pub mod Table
pub mod Rounds
pub mod Content
pub mod Reading
use icosaos.Prelude.{
  ℕ, zero, suc, ◌+◌, ◌-◌, ◌*◌, ◌/◌, ◌%◌, ◌||◌, ◌&&◌, not, add32, sub32, mul32, u8, bit_and, bit_or,
  ◌<<<◌, update, leb, ltb, ◌==◌, load16, load32, store32, codes, if◌then◌else◌, Run, ok,
  out_of_fuel, ◌>>=◌,
}
use icosaos.Console.{Terminal}
use icosaos.Console.Printk.{lprintkl}
use icosaos.Disk.{Registers, fat32_read_sector}
use icosaos.Strings.{memcmp, memcpy}

-- `kmalloc` and `kfree` as the file system uses them.
pub record KernelAllocator : Type 1 where
  pub Sys : Type 0
  pub kmalloc : ℕ → Sys → Run (ℕ × Sys)
  pub kfree : ℕ → Sys → Run Sys

abbrev pub null : ℕ
null = 0

-- Offsets in `struct fat32_bpb`.
abbrev pub bpb_sectors_per_cluster : ℕ
bpb_sectors_per_cluster = 13

abbrev pub bpb_reserved_sector_count : ℕ
bpb_reserved_sector_count = 14

abbrev pub bpb_num_fats : ℕ
bpb_num_fats = 16

abbrev pub bpb_fat_size_32 : ℕ
bpb_fat_size_32 = 36

abbrev pub bpb_root_cluster : ℕ
bpb_root_cluster = 44

abbrev pub bpb_boot_signature : ℕ
bpb_boot_signature = 66

-- The size of `struct fat32_directory_entry`, and offsets in it.
abbrev pub entry_size : ℕ
entry_size = 32

abbrev pub entry_attr : ℕ
entry_attr = 11

abbrev pub entry_first_cluster_high : ℕ
entry_first_cluster_high = 20

abbrev pub entry_first_cluster_low : ℕ
entry_first_cluster_low = 26

abbrev pub entry_file_size : ℕ
entry_file_size = 28

abbrev pub fat_attr_directory : ℕ
fat_attr_directory = 0x10

abbrev pub fat_attr_long_name : ℕ
fat_attr_long_name = 0x0F

abbrev pub end_of_chain : ℕ
end_of_chain = 0x0FFFFFF8

-- The static variables of the file system.
pub record Volume : Type 0 where
  pub data_region_start_sector : ℕ
  pub sectors_per_cluster : ℕ
  pub reserved_sector_count : ℕ

-- With them the heap, memory, and the console.
pub record Files (A : KernelAllocator) : Type 0 where
  pub volume : Volume
  pub heap : A.Sys
  pub bytes : ℕ → ℕ
  pub terminal : Terminal

-- The cluster of a directory entry.
unfoldable pub first_cluster : ℕ → (ℕ → ℕ) → ℕ
first_cluster entry bytes =
    bit_or (load16 (add32 entry entry_first_cluster_high) bytes <<< 16)
      (load16 (add32 entry entry_first_cluster_low) bytes)

module _ (drive : Registers → ℕ → ℕ) where
  -- The loops that read the sectors of a cluster, with `n` rounds left.
  unfoldable pub read_sectors : ℕ → ℕ → ℕ → ℕ → (ℕ → ℕ) → ℕ → ℕ
  read_sectors zero i relative_sector buffer bytes = bytes
  read_sectors (suc n) i relative_sector buffer bytes =
      read_sectors n (i + 1) relative_sector buffer
        (fat32_read_sector drive (add32 relative_sector i) (add32 buffer (mul32 i 512)) bytes).1

-- The first sector of a cluster.
unfoldable pub cluster_sector : Volume → ℕ → ℕ
cluster_sector v cluster =
    add32 v.data_region_start_sector (mul32 (sub32 cluster 2) v.sectors_per_cluster)

module _ {A : KernelAllocator} (drive : Registers → ℕ → ℕ) where
  -- A cluster in a buffer.
  unfoldable pub read_cluster : ℕ → ℕ → Files A → Files A
  read_cluster cluster buffer s = record s {
    bytes =
        read_sectors drive s.volume.sectors_per_cluster 0 (cluster_sector s.volume cluster) buffer
          s.bytes;
  }

  -- `kfree` and the result that is returned behind it.
  unfoldable pub release : ℕ → ℕ → Files A → Run (ℕ × Files A)
  release ptr result s = do heap ← A.kfree ptr s.heap; ok (result, record s { heap = heap })

  -- `init_fat32` behind the first allocation.
  unfoldable pub read_boot_record : ℕ → Files A → Run (ℕ × Files A)
  read_boot_record sector_buffer s =
      let (read, bytes) = fat32_read_sector drive 0 sector_buffer s.bytes in
      let field = λ (offset : ℕ). add32 sector_buffer offset in
      let failed = record s {
        bytes = bytes;
        terminal = lprintkl (codes "Failed to read FAT32 Boot Record!") s.terminal;
      } in
      let detected = record s {
        volume = record {
          data_region_start_sector =
              add32 (load16 (field bpb_reserved_sector_count) bytes)
                (mul32 (bytes (field bpb_num_fats)) (load32 (field bpb_fat_size_32) bytes));
          sectors_per_cluster = bytes (field bpb_sectors_per_cluster);
          reserved_sector_count = load16 (field bpb_reserved_sector_count) bytes;
        };
        bytes = bytes;
        terminal =
            if bytes (field bpb_boot_signature) == 0x29
            then lprintkl (codes "Successfully detected FAT32 Volume!") s.terminal
            else s.terminal;
      } in
      if sector_buffer == null
      then ok (0, s)
      else if read == 0
      then release sector_buffer 0 failed
      else release sector_buffer (load32 (field bpb_root_cluster) bytes) detected

  unfoldable pub init_fat32 : Files A → Run (ℕ × Files A)
  init_fat32 s = do
    (sector_buffer, heap) ← A.kmalloc 512 s.heap
    read_boot_record sector_buffer (record s { heap = heap })

  -- `fat32_get_next_cluster` behind the allocation.
  unfoldable pub look_up_next : ℕ → ℕ → Files A → Run (ℕ × Files A)
  look_up_next current_cluster buffer s =
      let fat_sector = add32 s.volume.reserved_sector_count (current_cluster / 128) in
      let fat_offset = current_cluster % 128 in
      let (read, bytes) = fat32_read_sector drive fat_sector buffer s.bytes in
      let s' = record s { bytes = bytes } in
      if buffer == null
      then ok (0x0FFFFFFF, s)
      else if read == 0
      then release buffer 0x0FFFFFFF s'
      else release buffer (bit_and (load32 (add32 buffer (4 * fat_offset)) bytes) 0x0FFFFFFF) s'

  unfoldable pub fat32_get_next_cluster : ℕ → Files A → Run (ℕ × Files A)
  fat32_get_next_cluster current_cluster s = do
    (buffer, heap) ← A.kmalloc 512 s.heap
    look_up_next current_cluster buffer (record s { heap = heap })

  -- The loop of `fat32_read_file`, on fuel.
  unfoldable pub read_clusters : ℕ → ℕ → ℕ → ℕ → ℕ → ℕ → Files A → Run (Files A)
  read_clusters zero current bytes_remaining buffer_offset file_buffer cluster_buf s = out_of_fuel
  read_clusters (suc fuel) current bytes_remaining buffer_offset file_buffer cluster_buf s =
      let cluster_size_bytes = mul32 s.volume.sectors_per_cluster 512 in
      let bytes_to_copy =
        if ltb cluster_size_bytes bytes_remaining then cluster_size_bytes else bytes_remaining in
      let s1 = read_cluster current cluster_buf s in
      let copied =
        (memcpy (add32 file_buffer buffer_offset) cluster_buf bytes_to_copy s1.bytes).1 in
      let rest = fat32_get_next_cluster current (record s1 { bytes = copied }) >>= λ r.
      read_clusters fuel r.0 (sub32 bytes_remaining bytes_to_copy)
        (add32 buffer_offset bytes_to_copy) file_buffer cluster_buf r.1 in
      if ltb current end_of_chain && ltb 0 bytes_remaining then rest else ok s

  -- `fat32_read_file` behind the second allocation, and behind the first.
  unfoldable pub fill_file : ℕ → ℕ → ℕ → ℕ → ℕ → Files A → Run (ℕ × Files A)
  fill_file fuel start_cluster file_size file_buffer cluster_buf s = do
    s' ← read_clusters fuel start_cluster file_size 0 file_buffer cluster_buf s
    (result, s'') ← release cluster_buf file_buffer s'
    ok (result, record s'' { bytes = update s''.bytes (add32 file_buffer file_size) 0 })

  unfoldable pub read_file_into : ℕ → ℕ → ℕ → ℕ → Files A → Run (ℕ × Files A)
  read_file_into fuel start_cluster file_size file_buffer s =
      let with_buffer = do
        (cluster_buf, heap) ← A.kmalloc (mul32 s.volume.sectors_per_cluster 512) s.heap
        if cluster_buf == null
            then release file_buffer null (record s { heap = heap })
            else fill_file fuel start_cluster file_size file_buffer cluster_buf
                (record s { heap = heap })
      in if file_buffer == null then ok (null, s) else with_buffer

  unfoldable pub fat32_read_file : ℕ → ℕ → ℕ → Files A → Run (ℕ × Files A)
  fat32_read_file fuel start_cluster file_size s =
      let read = do
        (file_buffer, heap) ← A.kmalloc (add32 file_size 1) s.heap
        read_file_into fuel start_cluster file_size file_buffer (record s { heap = heap })
      in if file_size == 0 || leb end_of_chain start_cluster then ok (null, s) else read
