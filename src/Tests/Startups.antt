-- ===== src/Tests/Startups.antt =====
-- The start of a kernel whose memory holds the texts of a log line, and whose frames are all used.
use icosaos.Prelude.{
  ℕ, zero, suc, ◌+◌, ◌-◌, ◌<◌, ◌≡◌, ◌⊎◌, inl, refl, arith, Bool, true, false, ◌&&◌, ◌==◌, ltb,
  if◌then◌else◌, List, [], ◌∷◌, size_of, codes, load32, add32, ok, Ends,
}
use icosaos.Disk.{Registers}
use icosaos.Memory.{Allocator}
use icosaos.Memory.Startup.{init_bitmap_allocator, load64, entry_addr, entry_len, entry_type}
use icosaos.Memory.Startup.Walk.{entries}
use icosaos.Memory.Startup.Frees.{Starts, init_bitmap_allocator-Starts}
use icosaos.Memory.Spec.{used, managed}
use icosaos.Paging.{Machine, running, panicked, init_paging}
use icosaos.Paging.Start.{Covers, KeepsAddresses, init_paging-KeepsAddresses}
use icosaos.Heap.{Heap}
use icosaos.KernelHeap.{kernel_pages}
use icosaos.Framebuffer.Text.Print.{StringAt}
use icosaos.Fat32.Directory.{info_is_directory, info_first_cluster}
use icosaos.Boot.Startup.{Image, Kernel}
use icosaos.Boot.Startup.Lines.{IsFresh}
use icosaos.Boot.SelfTest.{test_root}
use icosaos.Boot.SelfTest.RootTest.{test_root-passes}
use icosaos.Boot.Main.{kernel_main}
use icosaos.Boot.Main.Outcome.{Outcome, kernel_main-Outcome}
use icosaos.Tests.Pages.{machine, machine-IsValid}
use icosaos.Tests.Framebuffers.{mode, mode-IsMode, font}
use icosaos.Tests.Tables.{empty_interrupts, stubs}
use icosaos.Tests.Processes.{tasks}

-- One table of the memory map with one available chunk, from 1 MiB to 2 MiB, and the end mark.
abbrev map_tags : ℕ → ℕ
map_tags a =
    if a == 0x1008
    then 6
    else if a == 0x100C
    then 40
    else if a == 0x1010
    then 24
    else if a == 0x101A
    then 0x10
    else if a == 0x1022
    then 0x10
    else if a == 0x1028
    then 1
    else 0

init_bitmap_allocator-Starts_example :
    (a : Allocator) × (init_bitmap_allocator 2000000 0x1000 0x110000 map_tags (λ i. 0) ≡ ok a)
    × Starts map_tags (entries map_tags 1 0x1008) 0x110000 a
unfolding load32 load64 entry_addr entry_len entry_type
init_bitmap_allocator-Starts_example =
    init_bitmap_allocator-Starts 1 2000000 0x1000 0x110000 map_tags (λ i. 0)
      (refl, omega arith, refl) (λ e. omega arith, tt) (λ i. omega arith) (omega arith)
      (omega arith)

init_paging-KeepsAddresses_example :
    ((q : ℕ) → q < managed machine.frames → used machine.frames q ≡ true)
      × (init_paging 500 0xFD000000 3200 600 machine ≡ ok panicked)
    ⊎ ((m' : Machine) × (init_paging 500 0xFD000000 3200 600 machine ≡ ok (running m'))
        × KeepsAddresses 0xFD000000 1920000 m'
        × ((◌≡◌ {A = ℕ} 0xFD000000 0) ⊎ Covers 0xFD000000 1920000 m'))
init_paging-KeepsAddresses_example =
    init_paging-KeepsAddresses 499 0xFD000000 3200 600 machine (machine-IsValid).frames
      (omega arith) (omega arith) (omega arith)

-- A list of small numbers as memory.
unfoldable pub nth : List ℕ → ℕ → ℕ
nth [] i = 0
nth (c ∷ cs) zero = c
nth (c ∷ cs) (suc i) = nth cs i

unfoldable pub all_small : List ℕ → Bool
all_small [] = true
all_small (c ∷ cs) = ltb c 256 && all_small cs

pub nth-lt : (cs : List ℕ) (i : ℕ) → all_small cs ≡ true → nth cs i < 256
unfolding nth all_small
nth-lt [] i h = omega arith
nth-lt (c ∷ cs) zero h = ground arith
nth-lt (c ∷ cs) (suc i) h = nth-lt cs i (ground arith)

-- A text of memory below the framebuffer, tested.
unfoldable pub is_at : (ℕ → ℕ) → ℕ → List ℕ → Bool
is_at bytes str [] = bytes str == 0 && ltb str 0xFD000000
is_at bytes str (c ∷ cs) =
    bytes str == c && ltb 0 c && ltb str 0xFD000000 && is_at bytes (add32 str 1) cs

pub is_at-StringAt :
    (bytes : ℕ → ℕ) (str : ℕ) (cs : List ℕ) → is_at bytes str cs ≡ true → StringAt mode bytes str cs
unfolding is_at
is_at-StringAt bytes str [] h = (ground arith, inl (ground arith))
is_at-StringAt bytes str (c ∷ cs) h = (
  ground arith,
  ground arith,
  inl (ground arith),
  is_at-StringAt bytes (add32 str 1) cs (ground arith),
)

-- The two texts of a test stand at 0x1000 and 0x2000.
abbrev memory : List ℕ → ℕ → ℕ
memory text a =
    if ltb a 0x2000
    then (if ltb a 0x1000 then 0 else nth text (a - 0x1000))
    else nth (codes "/") (a - 0x2000)

memory-lt : (text : List ℕ) (a : ℕ) → all_small text ≡ true → memory text a < 256
unfolding all_small
memory-lt text a h =
    ground (arith, nth-lt text (a - 0x1000) h, nth-lt (codes "/") (a - 0x2000) refl)

abbrev pub image : Image
image = record {
  literal = λ cs. if size_of cs == 1 then 0x2000 else 0x1000;
  kernel_end = 0x150000;
  stack_top = 0x200000;
  gdt = 0x120000;
  gdt_ptr = 0x120100;
  tss_entry = 0x120200;
  idt = 0x121000;
  idtr = 0x120300;
  stubs = stubs;
  dummy_user_program = 0x101000;
  esp_at_pushal = 0;
  info = 0x1FFF00;
  node = 0x1FFE00;
}

-- A kernel heap without memory and without frames.
abbrev pub full_heap : Heap kernel_pages
full_heap = record {
  headers = λ a. record { size = 0; is_free = true; next = 0 };
  start = 0;
  current_end = 0xD0000000;
  sys = record machine { frames = record (machine.frames) { bitmap = λ i. 0xFF } };
}

abbrev kernel : List ℕ → Kernel 85 1
kernel text = record {
  log = record {
    default_fg = 0xFFFFFF;
    default_bg = 0;
    screen = record { mode = mode; cursor_x = 0; cursor_y = 16; bytes = λ a. 0 };
  };
  interrupts = empty_interrupts;
  files = record {
    volume = record {
      data_region_start_sector = 0;
      sectors_per_cluster = 0;
      reserved_sector_count = 0;
    };
    heap = full_heap;
    bytes = memory text;
    terminal = record { row = 0; column = 0; color = 7; buffer = λ i. 0 };
  };
  tasks = tasks;
  interrupts_enabled = false;
}

kernel-IsFresh : (text : List ℕ) → all_small text ≡ true → IsFresh (kernel text)
kernel-IsFresh text h = record {
  ready = record {
    sound = mode-IsMode;
    tall = omega arith;
    column = omega arith;
    line = omega arith;
    all = λ a. memory-lt text a h;
  };
  at_start = refl;
  wide = omega arith;
}

abbrev pub drive : Registers → ℕ → ℕ
drive r i = 0

kernel_main-Outcome_example :
    Ends
      (Outcome font drive image 0x3000 (kernel []))
      (kernel_main {fuel = 85} {calls = 1} font drive image 0x36D76289 0x3000 (kernel []))
kernel_main-Outcome_example = kernel_main-Outcome font drive image 0x36D76289 0x3000 (kernel [])

abbrev root_message : List ℕ
root_message = codes "FAT32 root resolution test..."

test_root-passes_example :
    (k' : Kernel 85 1) × (test_root font drive image 2 (kernel root_message) ≡ ok (true, k'))
    × IsFresh k'
    × (k'.files.bytes (0x1FFF00 + info_is_directory) ≡ 1)
    × (load32 (0x1FFF00 + info_first_cluster) k'.files.bytes ≡ 2)
unfolding is_at nth all_small
test_root-passes_example =
    test_root-passes font drive image 2 (kernel root_message) (kernel-IsFresh root_message refl)
      (is_at-StringAt (memory root_message) 0x1000 root_message refl)
      (is_at-StringAt (memory root_message) 0x2000 (codes "/") refl) (omega arith)
      (record { there = omega arith; fits = omega arith; outside = inl (omega arith) })
      (omega arith) (omega arith)
