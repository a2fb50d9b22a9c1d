-- ===== src/Boot.antt =====
-- src/kernel/kernel.c: the search of the boot loader's information for the framebuffer, and the start
-- of the first user program. The information is a memory of bytes; memory and the console are those of
-- the other components.
pub mod Tags
pub mod Startup
pub mod SelfTest
pub mod Main
use icosaos.Prelude.{
  ℕ, zero, suc, ◌+◌, ◌*◌, ◌&&◌, bit_and, not32, add32, ◌==◌, ltb, load32, if◌then◌else◌, Run, ok,
  out_of_fuel, ◌>>=◌,
}
use icosaos.Framebuffer.{Screen, vga_init}
use icosaos.Strings.{copy_from}
use icosaos.UserMemory.{allocate_user_space, create_user_stack}
use icosaos.Handlers.{user_code_base}
use icosaos.Tasks.{Tasks, context_size, process_kernel_stack_top, create_user_process, set_esp0}

-- The local variables of `kernel_main` that the loop sets, and the console.
pub record Found : Type 0 where
  pub fb_addr : ℕ
  pub fb_width_local : ℕ
  pub fb_height_local : ℕ
  pub fb_pitch_local : ℕ
  pub fb_bpp_local : ℕ
  pub acpi_rsdp_phys : ℕ
  pub screen : Screen

-- What is done at the tag of the framebuffer.
unfoldable pub take_framebuffer : ℕ → (ℕ → ℕ) → Found → Found
take_framebuffer tag bytes s =
    let addr = load32 (add32 tag 8) bytes in
    let pitch = load32 (add32 tag 16) bytes in
    let width = load32 (add32 tag 20) bytes in
    let height = load32 (add32 tag 24) bytes in
    let bpp = bytes (add32 tag 28) in
    record s {
      fb_addr = addr;
      fb_width_local = width;
      fb_height_local = height;
      fb_pitch_local = pitch;
      fb_bpp_local = bpp;
      screen = vga_init addr width height pitch bpp s.screen;
    }

-- The loop over the tags, on fuel.
unfoldable pub scan_tags : ℕ → ℕ → ℕ → ℕ → (ℕ → ℕ) → Found → Run Found
scan_tags zero offset mbi_addr mbi_size bytes s = out_of_fuel
scan_tags (suc fuel) offset mbi_addr mbi_size bytes s =
    let tag = add32 mbi_addr offset in
    let type = load32 tag bytes in
    let size = load32 (add32 tag 4) bytes in
    let noted = if type == 14 then record s { acpi_rsdp_phys = add32 tag 8 } else s in
    let rest =
      scan_tags fuel (add32 offset (bit_and (add32 size 7) (not32 7))) mbi_addr mbi_size bytes
        noted in
    if ltb offset mbi_size
    then if type == 0 && size == 8
      then ok s
      else if type == 8
      then ok (take_framebuffer tag bytes s)
      else rest
    else ok s

-- `launch_isolated_user_process` up to the switch to the program. `program` is the address of the
-- program's code in the kernel.
unfoldable pub launch_isolated_user_process : ℕ → ℕ → ℕ → ℕ → Tasks → Run (ℕ × Tasks)
launch_isolated_user_process fuel calls program esp_at_pushal s =
    let (mapped, machine) = allocate_user_space user_code_base 1 s.heap.sys in
    let bytes = copy_from 512 0 user_code_base program s.bytes in
    let (user_stack_top, machine') = create_user_stack machine in
    create_user_process fuel calls user_code_base user_stack_top esp_at_pushal
      (record s { heap = record (s.heap) { sys = machine' }; bytes = bytes })
    >>= λ proc.
        let top = load32 (add32 proc.0 process_kernel_stack_top) proc.1.bytes in
        ok (
          top,
          record proc.1 {
            current_process = proc.0;
            segments = set_esp0 (add32 top context_size) proc.1.segments;
          },
        )
