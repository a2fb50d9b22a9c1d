-- ===== src/Boot/Startup.antt =====
-- src/kernel/kernel.c: `kernel_main`, the start of the components one after the other, the self tests
-- of the file system, and the start of the first program. Memory stands in `files`, the page tables in
-- the kernel's heap, and the writes to ports in `tasks`; a component gets them for its calls. What the
-- compiler and the linker place is a parameter, as is what an interrupt does between two instructions.
pub mod Lines
pub mod Returns
pub mod Paged
use icosaos.Prelude.{
  ℕ, ◌==◌, ◌&&◌, not, Bool, true, false, List, codes, load32, add32, if◌then◌else◌, Run, ok, ◌>>=◌,
}
use icosaos.Disk.{Registers}
use icosaos.Strings.{strcmp}
use icosaos.Segments.{Segments, gdt_init}
use icosaos.Interrupts.{Interrupts, Stubs, idt_init}
use icosaos.Ports.{init_pic}
use icosaos.Memory.Startup.{init_bitmap_allocator}
use icosaos.Paging.{Started, running, panicked, init_paging}
use icosaos.KernelHeap.{kernel_pages, kmalloc, kfree}
use icosaos.Heap.{Heap}
use icosaos.Framebuffer.{Screen, vga_clear_screen}
use icosaos.Framebuffer.Text.{Font, vga_print}
use icosaos.Klog.{Log, LogStatus, log_success, log_failed, klog_init, klog_info, klog_status}
use icosaos.Fat32.Volume.{KernelAllocator, Files, null, init_fat32, fat32_read_file}
use icosaos.Fat32.Directory.{info_file_size, info_is_directory, info_first_cluster}
use icosaos.Fat32.Resolve.{fat32_resolve_path}
use icosaos.Tasks.{Tasks}
use icosaos.Handlers.{panic, c_syscall_handler}
use icosaos.Boot.{Found, scan_tags, launch_isolated_user_process}

abbrev pub kernel_allocator : ℕ → ℕ → KernelAllocator
kernel_allocator fuel calls = record {
  Sys = Heap kernel_pages;
  kmalloc = kmalloc fuel calls;
  kfree = kfree fuel;
}

-- `VGA_BLACK`, `VGA_WHITE`, and the color of the greeting.
abbrev pub vga_black : ℕ
vga_black = 0x00000000

abbrev pub vga_white : ℕ
vga_white = 0x00FFFFFF

abbrev pub greeting_color : ℕ
greeting_color = 0x00FF00FF

abbrev pub multiboot2_magic : ℕ
multiboot2_magic = 0x36D76289

-- The addresses of the string constants, of the linker's symbols, and of variables on the stack.
pub record Image : Type 0 where
  pub literal : List ℕ → ℕ
  pub kernel_end : ℕ
  pub stack_top : ℕ
  pub gdt : ℕ
  pub gdt_ptr : ℕ
  pub tss_entry : ℕ
  pub idt : ℕ
  pub idtr : ℕ
  pub stubs : Stubs
  pub dummy_user_program : ℕ
  pub esp_at_pushal : ℕ
  pub info : ℕ
  pub node : ℕ

pub record Kernel (fuel calls : ℕ) : Type 0 where
  pub log : Log
  pub interrupts : Interrupts
  pub files : Files (kernel_allocator fuel calls)
  pub tasks : Tasks
  pub interrupts_enabled : Bool

-- How `kernel_main` ends: it returns, it halts in `panic`, or it enters the program whose saved stack
-- is at an address.
pub data End : Type 0 where
  returned : End
  halted : End
  entered : ℕ → End

module _ {fuel calls : ℕ} where
  unfoldable pub with_log : (Log → Run Log) → Kernel fuel calls → Run (Kernel fuel calls)
  with_log f k = do
    l ← f (record (k.log) { screen = record (k.log.screen) { bytes = k.files.bytes } })
    ok (record k { log = l; files = record (k.files) { bytes = l.screen.bytes } })

  module _ (font : Font) (image : Image) where
    unfoldable pub info_line : List ℕ → Kernel fuel calls → Run (Kernel fuel calls)
    info_line message = with_log (klog_info font fuel (image.literal message))

    unfoldable pub set_status : LogStatus → Kernel fuel calls → Run (Kernel fuel calls)
    set_status status = with_log (klog_status font fuel status)

    -- The status of a test, and whether it goes on.
    unfoldable pub verdict : Bool → Kernel fuel calls → Run (Bool × Kernel fuel calls)
    verdict passed k = do
      k' ← set_status (if passed then log_success else log_failed) k
      ok (passed, k')

    -- A change of the state between its message and its status.
    unfoldable pub logged :
        List ℕ
        → (Kernel fuel calls → Kernel fuel calls)
        → Kernel fuel calls
        → Run (Kernel fuel calls)
    logged message change k = do k' ← info_line message k; set_status log_success (change k')

    unfoldable pub set_segments : Kernel fuel calls → Kernel fuel calls
    set_segments k = record k {
      tasks = record (k.tasks) {
        segments =
            gdt_init image.stack_top image.gdt image.gdt_ptr image.tss_entry k.tasks.segments;
      };
    }

    unfoldable pub set_interrupts : Kernel fuel calls → Kernel fuel calls
    set_interrupts k = record k {
      interrupts = idt_init image.stubs image.idt image.idtr k.interrupts;
    }

    unfoldable pub set_ports : Kernel fuel calls → Kernel fuel calls
    set_ports k = record k { tasks = record (k.tasks) { ports = init_pic k.tasks.ports } }

    unfoldable pub clear_screen : Kernel fuel calls → Run (Kernel fuel calls)
    clear_screen = with_log (λ l.
        ok (
          klog_init vga_white vga_black
            (record l { screen = vga_clear_screen vga_black l.screen })))

    unfoldable pub start_frames : ℕ → Kernel fuel calls → Run (Kernel fuel calls)
    start_frames mbi_addr k = do
      k' ← info_line (codes "Initializing system allocator...") k
      frames ←
          init_bitmap_allocator fuel mbi_addr image.kernel_end k'.files.bytes
            (λ i. k'.files.bytes (add32 image.kernel_end i))
      let heap = record (k'.files.heap) { sys = record (k'.files.heap.sys) { frames = frames } }
      set_status log_success (record k' { files = record (k'.files) { heap = heap } })

    -- The screen, the log, the segments, the interrupts and the frames.
    unfoldable pub start_tables : ℕ → Kernel fuel calls → Run (Kernel fuel calls)
    start_tables mbi_addr k =
        clear_screen k
        >>= logged (codes "Initializing GDT...") set_segments
        >>= logged (codes "Initializing IDT...") set_interrupts
        >>= logged (codes "Initializing PIC...") set_ports
        >>= start_frames mbi_addr

    -- Behind `init_paging`, and with it: whether it came back.
    unfoldable pub paging_started : Kernel fuel calls → Started → Run (Bool × Kernel fuel calls)
    paging_started k (running m) = do
      k' ←
          set_status log_success
            (record k { files = record (k.files) { heap = record (k.files.heap) { sys = m } } })
      ok (true, k')
    paging_started k panicked = do
      k' ←
          with_log
            (λ l. ok (record l {
              screen = panic font (codes "Out of memory during paging initialization") l.screen;
            }))
            (record k { interrupts_enabled = false })
      ok (false, k')

    unfoldable pub start_paging : Found → Kernel fuel calls → Run (Bool × Kernel fuel calls)
    start_paging found k = do
      k' ← info_line (codes "Initalizing paging...") k
      started ←
          init_paging fuel found.fb_addr found.fb_pitch_local found.fb_height_local
            k'.files.heap.sys
      paging_started k' started
