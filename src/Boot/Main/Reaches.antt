-- ===== src/Boot/Main/Reaches.antt =====
-- `kernel_main` reaches the file system, or halts because no frame is left.
use icosaos.Prelude.{ℕ, ◌*◌, ◌<◌, ◌≡◌, ◌⊎◌, true, false, add32, load32, ok}
use icosaos.Disk.{Registers}
use icosaos.Paging.{Machine}
use icosaos.Memory.{Allocator}
use icosaos.Memory.Spec.{used, managed}
use icosaos.Memory.Startup.Walk.{entries}
use icosaos.Memory.Startup.Frees.{Starts}
use icosaos.Paging.Start.{Covers, KeepsAddresses}
use icosaos.Framebuffer.{Mode, Screen}
use icosaos.Framebuffer.Text.{Font}
use icosaos.Framebuffer.Text.Kept.{IsKept}
use icosaos.Boot.Startup.{Image, Kernel, halted, multiboot2_magic}
use icosaos.Boot.Startup.Lines.{shown, with_screen, IsFresh}
use icosaos.Boot.Startup.Returns.{AroundSame, with_tables}
use icosaos.Boot.Main.{start_disk, kernel_main}
use icosaos.Boot.Startup.Paged.{with_machine}

module _ {fuel calls : ℕ} where
  -- The kernel with the console that the tag of the framebuffer describes.
  abbrev pub console : ℕ → Kernel fuel calls → Kernel fuel calls
  console tag k = record k {
    log = record (k.log) {
      screen = record {
        mode = record {
          framebuffer = load32 (add32 tag 8) k.files.bytes;
          width = load32 (add32 tag 20) k.files.bytes;
          height = load32 (add32 tag 24) k.files.bytes;
          pitch = load32 (add32 tag 16) k.files.bytes;
          bpp = k.files.bytes (add32 tag 28);
        };
        cursor_x = 0;
        cursor_y = 0;
        bytes = k.files.bytes;
      };
    };
  }

  abbrev pub mode_of : ℕ → Kernel fuel calls → Mode
  mode_of tag k = (console tag k).log.screen.mode

  -- What the start has done before the file system.
  pub record Reached (font : Font) (image : Image) (k k' : Kernel fuel calls) (fb total : ℕ)
      : Type 0 where
    pub machine : Machine
    pub screen : Screen
    pub state : k' ≡ with_screen screen (with_machine machine (with_tables font image k))
    pub fresh : IsFresh k'
    pub kept : IsKept (shown k) (shown k')
    pub keeps : KeepsAddresses fb total machine
    pub covers : Covers fb total machine

  -- The frames that the boot information makes available are all used.
  abbrev pub NoFrame : Image → ℕ → ℕ → Kernel fuel calls → Type 0
  NoFrame image n mbi_addr k =
      (a : Allocator) × (b : ℕ → ℕ) × AroundSame k b
      × Starts b (entries b n (add32 mbi_addr 8)) image.kernel_end a
      × ((q : ℕ) → q < managed a → used a q ≡ true)

  -- The two ends.
  abbrev pub Reaches : Font → (Registers → ℕ → ℕ) → Image → ℕ → ℕ → ℕ → Kernel fuel calls → Type 0
  Reaches font drive image n mbi_addr tag k =
      ((k' : Kernel fuel calls) × (kernel_main font drive image multiboot2_magic mbi_addr k
          ≡ ok (halted, k'))
        × (k'.interrupts_enabled ≡ false)
        × NoFrame image n mbi_addr (console tag k))
      ⊎ ((k' : Kernel fuel calls) × (kernel_main font drive image multiboot2_magic mbi_addr k
            ≡ start_disk font drive image k')
          × Reached font image (console tag k) k' (mode_of tag k).framebuffer
              ((mode_of tag k).pitch * (mode_of tag k).height))
