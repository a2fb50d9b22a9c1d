-- ===== src/Boot/Main.antt =====
-- src/kernel/kernel.c: `kernel_main` from the information of the boot loader to the first program.
pub mod Same
pub mod Tables
pub mod Outcome
pub mod Reaches
use icosaos.Prelude.{ℕ, ◌==◌, Bool, true, false, List, codes, load32, if◌then◌else◌, Run, ok, ◌>>=◌}
use icosaos.Disk.{Registers}
use icosaos.Framebuffer.Text.{Font, vga_print}
use icosaos.Klog.{Log}
use icosaos.Handlers.{c_syscall_handler}
use icosaos.Boot.{Found, scan_tags, launch_isolated_user_process}
use icosaos.Boot.Startup.{
  Image, Kernel, End, returned, halted, entered, vga_black, greeting_color, multiboot2_magic,
  with_log, start_tables, start_paging,
}
use icosaos.Boot.SelfTest.{start_files, self_tests}

module _ {fuel calls : ℕ} (font : Font) (drive : Registers → ℕ → ℕ) (image : Image) where
  -- The first program, on the memory, the page tables and the ports of the kernel.
  unfoldable pub launch : Kernel fuel calls → Run (End × Kernel fuel calls)
  launch k =
      launch_isolated_user_process fuel calls image.dummy_user_program image.esp_at_pushal
        (record (k.tasks) {
          heap = record (k.tasks.heap) { sys = k.files.heap.sys };
          bytes = k.files.bytes;
        })
      >>= λ (top, tasks). ok (
        entered top,
        record k {
          tasks = tasks;
          files = record (k.files) {
            heap = record (k.files.heap) { sys = tasks.heap.sys };
            bytes = tasks.bytes;
          };
        },
      )

  -- Behind the self tests.
  unfoldable pub enter_shell : Kernel fuel calls → Run (End × Kernel fuel calls)
  enter_shell k = do
    k1 ←
        with_log
          (λ l.
            vga_print font fuel
              (image.literal (codes "\n--- All tests passed! Entering OS Shell ---\n\n"))
              greeting_color vga_black l.screen
            >>= λ s. ok (record l { screen = s }))
          k
    k2 ←
        with_log (λ l. ok (record l { screen = c_syscall_handler font l.screen }))
          (record k1 { interrupts_enabled = true })
    launch k2

  -- Behind the components that need no disk.
  unfoldable pub start_disk : Kernel fuel calls → Run (End × Kernel fuel calls)
  start_disk k = do
    (root_cluster, k1) ← start_files font drive image k
    let tested = do
      (passed, k2) ← self_tests font drive image root_cluster k1
      if passed then enter_shell k2 else ok (returned, k2)
    if root_cluster == 0 then ok (returned, k1) else tested

  unfoldable pub kernel_main : ℕ → ℕ → Kernel fuel calls → Run (End × Kernel fuel calls)
  kernel_main magic mbi_addr k =
      let screen = record (k.log.screen) { bytes = k.files.bytes } in
      let nothing : Found = record {
        fb_addr = 0;
        fb_width_local = 0;
        fb_height_local = 0;
        fb_pitch_local = 0;
        fb_bpp_local = 0;
        acpi_rsdp_phys = 0;
        screen = screen;
      } in
      let start = do
        found ← scan_tags fuel 8 mbi_addr (load32 mbi_addr k.files.bytes) k.files.bytes nothing
        k1 ←
            start_tables font image mbi_addr
              (record k { log = record (k.log) { screen = found.screen } })
        (running, k2) ← start_paging font image found k1
        if running then start_disk k2 else ok (halted, k2)
      in if magic == multiboot2_magic then start else ok (returned, k)
