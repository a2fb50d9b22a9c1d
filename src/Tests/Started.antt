-- ===== src/Tests/Started.antt =====
-- The start of a kernel on boot information with a map of the memory and a framebuffer.
use icosaos.Prelude.{ℕ, ◌-◌, ◌≡◌, refl, true, ◌==◌, ltb, if◌then◌else◌, codes, load32}
use icosaos.Boot.Startup.{Image, Kernel}
use icosaos.Boot.Main.Reaches.{console, Reaches}
use icosaos.Tests.Framebuffers.{mode}
use icosaos.Tests.Startups.{nth, image, full_heap}
use icosaos.Tests.Tables.{empty_interrupts}
use icosaos.Tests.Processes.{tasks}

-- The boot information: a map of one available chunk, from 1 MiB to 2 MiB, then the framebuffer.
abbrev boot_tags : ℕ → ℕ
boot_tags a =
    if a == 0x800
    then 0x58
    else if a == 0x808
    then 6
    else if a == 0x80C
    then 40
    else if a == 0x810
    then 24
    else if a == 0x81A
    then 0x10
    else if a == 0x822
    then 0x10
    else if a == 0x828
    then 1
    else if a == 0x830
    then 8
    else if a == 0x834
    then 32
    else if a == 0x83B
    then 0xFD
    else if a == 0x840
    then 0x80
    else if a == 0x841
    then 0x0C
    else if a == 0x844
    then 0x20
    else if a == 0x845
    then 3
    else if a == 0x848
    then 0x58
    else if a == 0x849
    then 2
    else if a == 0x84C
    then 32
    else 0

-- The five messages of the start.
abbrev messages : ℕ → ℕ
messages a =
    if ltb a 0x2000
    then nth (codes "Initializing GDT...") (a - 0x1000)
    else if ltb a 0x3000
    then nth (codes "Initializing IDT...") (a - 0x2000)
    else if ltb a 0x4000
    then nth (codes "Initializing PIC...") (a - 0x3000)
    else if ltb a 0x5000
    then nth (codes "Initializing system allocator...") (a - 0x4000)
    else nth (codes "Initalizing paging...") (a - 0x5000)

abbrev loaded : ℕ → ℕ
loaded a = if ltb a 0x1000 then boot_tags a else messages a

-- The fourteenth letter tells the messages apart.
abbrev start_image : Image
start_image = record image {
  literal = λ cs.
      if nth cs 13 == 71
      then 0x1000
      else if nth cs 13 == 73
      then 0x2000
      else if nth cs 13 == 80
      then 0x3000
      else if nth cs 13 == 115
      then 0x4000
      else 0x5000;
}

abbrev loaded_kernel : Kernel 2000000 1
loaded_kernel = record {
  log = record {
    default_fg = 0;
    default_bg = 0;
    screen = record {
      mode = record { framebuffer = 0; width = 0; height = 0; pitch = 0; bpp = 0 };
      cursor_x = 5;
      cursor_y = 5;
      bytes = λ a. 0;
    };
  };
  interrupts = empty_interrupts;
  files = record {
    volume = record {
      data_region_start_sector = 0;
      sectors_per_cluster = 0;
      reserved_sector_count = 0;
    };
    heap = full_heap;
    bytes = loaded;
    terminal = record { row = 0; column = 0; color = 7; buffer = λ i. 0 };
  };
  tasks = tasks;
  interrupts_enabled = true;
}

console-mode : (console 0x830 loaded_kernel).log.screen.mode ≡ mode
unfolding load32
console-mode = refl
