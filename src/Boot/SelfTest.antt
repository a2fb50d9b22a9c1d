-- ===== src/Boot/SelfTest.antt =====
-- src/kernel/kernel.c: the self tests of the file system in `kernel_main`. Each of them says whether the
-- start goes on.
pub mod RootTest
use icosaos.Prelude.{
  ℕ, ◌==◌, ◌&&◌, not, Bool, true, false, List, codes, load32, add32, if◌then◌else◌, Run, ok, ◌>>=◌,
}
use icosaos.Disk.{Registers}
use icosaos.Strings.{strcmp}
use icosaos.Framebuffer.Text.{Font}
use icosaos.Klog.{log_success, log_failed}
use icosaos.Fat32.Volume.{Files, null, init_fat32, fat32_read_file}
use icosaos.Fat32.Directory.{info_file_size, info_is_directory, info_first_cluster}
use icosaos.Fat32.Resolve.{fat32_resolve_path}
use icosaos.Boot.Startup.{kernel_allocator, Image, Kernel, info_line, set_status, verdict}

module _ {fuel calls : ℕ} where
  unfoldable pub with_files :
      (Files (kernel_allocator fuel calls) → Run (ℕ × Files (kernel_allocator fuel calls)))
      → Kernel fuel calls
      → Run (ℕ × Kernel fuel calls)
  with_files f k = do (result, files) ← f k.files; ok (result, record k { files = files })

  module _ (font : Font) (drive : Registers → ℕ → ℕ) (image : Image) where
    -- `init_fat32` with its message.
    unfoldable pub start_files : Kernel fuel calls → Run (ℕ × Kernel fuel calls)
    start_files k = do
      k1 ← info_line font image (codes "Initalizing FAT32 driver...") k
      (root_cluster, k2) ← with_files (init_fat32 drive) k1
      k3 ← set_status font image (if root_cluster == 0 then log_failed else log_success) k2
      ok (root_cluster, k3)

    unfoldable pub resolve : List ℕ → ℕ → Kernel fuel calls → Run (ℕ × Kernel fuel calls)
    resolve path root_cluster =
        with_files
          (fat32_resolve_path drive fuel (image.literal path) root_cluster image.info image.node)

    unfoldable pub is_info_directory : Kernel fuel calls → Bool
    is_info_directory k = not (k.files.bytes (add32 image.info info_is_directory) == 0)

    -- Test 1
    unfoldable pub test_root : ℕ → Kernel fuel calls → Run (Bool × Kernel fuel calls)
    test_root root_cluster k = do
      k1 ← info_line font image (codes "FAT32 root resolution test...") k
      (found, k2) ← resolve (codes "/") root_cluster k1
      verdict font image (not (found == 0)) k2

    -- Test 2
    unfoldable pub test_directory : ℕ → Kernel fuel calls → Run (Bool × Kernel fuel calls)
    test_directory root_cluster k = do
      k1 ← info_line font image (codes "FAT32 directory resoultion test...") k
      (found, k2) ← resolve (codes "/BOOT") root_cluster k1
      verdict font image (not (found == 0) && is_info_directory k2) k2

    -- Test 4: the contents of the file, and the reading before.
    unfoldable pub compare_contents : ℕ → ℕ → Kernel fuel calls → Run (Bool × Kernel fuel calls)
    compare_contents expected file_data k = do
      difference ← strcmp fuel expected file_data k.files.bytes
      (passed, k') ← verdict font image (difference == 0) k
      heap ← (kernel_allocator fuel calls).kfree file_data k'.files.heap
      ok (passed, record k' { files = record (k'.files) { heap = heap } })

    unfoldable pub test_contents : Kernel fuel calls → Run (Bool × Kernel fuel calls)
    test_contents k =
        let field = λ (offset : ℕ). load32 (add32 image.info offset) k.files.bytes in
        with_files (fat32_read_file drive fuel (field info_first_cluster) (field info_file_size)) k
        >>= λ (file_data, k1).
            let compared = compare_contents (image.literal (codes "INFO\n")) file_data k1 in
            if file_data == null then verdict font image false k1 else compared

    -- Test 3 behind the path, and test 3.
    unfoldable pub test_found_file : Kernel fuel calls → Run (Bool × Kernel fuel calls)
    test_found_file k = do
      k1 ← set_status font image log_success k
      k2 ← info_line font image (codes "FAT32 file read test...") k1
      (is_file, k3) ← verdict font image (not (is_info_directory k2)) k2
      let contents = do
        k4 ← info_line font image (codes "FAT32 file contents test...") k3
        test_contents k4
      if is_file then contents else ok (false, k3)

    unfoldable pub test_file : ℕ → Kernel fuel calls → Run (Bool × Kernel fuel calls)
    test_file root_cluster k = do
      k1 ← info_line font image (codes "FAT32 file resolution test...") k
      (found, k2) ← resolve (codes "/BOOT/SELFTEST.SYS") root_cluster k1
      if found == 0 then verdict font image false k2 else test_found_file k2

    -- Test 5
    unfoldable pub test_rejection : ℕ → Kernel fuel calls → Run (Bool × Kernel fuel calls)
    test_rejection root_cluster k = do
      k1 ← info_line font image (codes "FAT32 path resolution rejection test...") k
      (found, k2) ← resolve (codes "/THIS_DOES_NOT_EXIST.TXT") root_cluster k1
      verdict font image (found == 0) k2

    -- A test behind the ones that passed.
    unfoldable pub and_then :
        (Kernel fuel calls → Run (Bool × Kernel fuel calls))
        → Bool × Kernel fuel calls
        → Run (Bool × Kernel fuel calls)
    and_then test (passed, k) = if passed then test k else ok (false, k)

    unfoldable pub self_tests : ℕ → Kernel fuel calls → Run (Bool × Kernel fuel calls)
    self_tests root_cluster k =
        test_root root_cluster k
        >>= and_then (test_directory root_cluster)
        >>= and_then (test_file root_cluster)
        >>= and_then (test_rejection root_cluster)
