-- ===== src/Tests/Framebuffers.antt =====
-- A framebuffer of 800 columns and 600 rows and one of 640 and 480, 32 bits a pixel, a font of
-- stripes, and the string "OK" in memory.
use icosaos.Prelude.{
  List, codes, ℕ, ◌≡◌, inl, refl, arith, ◌==◌, if◌then◌else◌, [], ◌∷◌, ok, out_of_fuel,
}
use icosaos.Framebuffer.{Mode, Screen, vga_write_pixel, vga_read_pixel, vga_clear_rect, vga_scroll}
use icosaos.Framebuffer.Geometry.{IsMode}
use icosaos.Framebuffer.Pixels.{shown, vga_read_pixel-write}
use icosaos.Framebuffer.Fill.{Draws, filled, vga_clear_rect-Draws}
use icosaos.Framebuffer.Scroll.{scrolled, vga_scroll-Draws}
use icosaos.Framebuffer.Text.{Font, vga_put_char, vga_print}
use icosaos.Framebuffer.Text.Place.{IsReady, Shows}
use icosaos.Framebuffer.Text.Put.{put_picture, vga_put_char-Shows}
use icosaos.Framebuffer.Text.Kept.{IsKept, vga_put_char-IsKept}
use icosaos.Framebuffer.Text.Print.{put_all, vga_print-put_all}
use icosaos.Klog.{log_failed, Log, klog_status}
use icosaos.Klog.Status.{klog_status-stuck}
use icosaos.Handlers.{Registers32, exception_handler_32, panic}
use icosaos.Handlers.Report.{
  Reports, AllShown, numbers, Begins, behind, exception_handler_32-Reports,
}

abbrev pub mode : Mode
mode = record { framebuffer = 0xFD000000; width = 800; height = 600; pitch = 3200; bpp = 32 }

pub mode-IsMode : IsMode mode
mode-IsMode = record {
  depth = inl refl;
  stride = omega arith;
  room = omega arith;
  there = omega arith;
  sizes = (omega arith, omega arith);
}

abbrev small_mode : Mode
small_mode = record { framebuffer = 0xFD000000; width = 640; height = 480; pitch = 2560; bpp = 32 }

small_mode-IsMode : IsMode small_mode
small_mode-IsMode = record {
  depth = inl refl;
  stride = omega arith;
  room = omega arith;
  there = omega arith;
  sizes = (omega arith, omega arith);
}

abbrev memory : ℕ → ℕ
memory a = if a == 100 then 79 else if a == 101 then 75 else 0

-- The cursor is in the last cell of the last line.
abbrev screen : Screen
screen = record { mode = mode; cursor_x = 792; cursor_y = 592; bytes = memory }

screen-IsReady : IsReady screen
screen-IsReady = record {
  sound = mode-IsMode;
  tall = omega arith;
  column = omega arith;
  line = omega arith;
  all = λ a. ground arith;
}

abbrev start : Screen
start = record { mode = mode; cursor_x = 80; cursor_y = 16; bytes = memory }

start-IsReady : IsReady start
start-IsReady = record {
  sound = mode-IsMode;
  tall = omega arith;
  column = omega arith;
  line = omega arith;
  all = λ a. ground arith;
}

abbrev small_screen : Screen
small_screen = record { mode = small_mode; cursor_x = 80; cursor_y = 16; bytes = memory }

small_screen-IsReady : IsReady small_screen
small_screen-IsReady = record {
  sound = small_mode-IsMode;
  tall = omega arith;
  column = omega arith;
  line = omega arith;
  all = λ a. ground arith;
}

abbrev pub font : Font
font c row = 0x3C

vga_read_pixel-write_example :
    vga_read_pixel mode 799 599 (vga_write_pixel mode 799 599 0xFF0000 memory) ≡ shown mode 0xFF0000
vga_read_pixel-write_example =
    vga_read_pixel-write mode mode-IsMode 799 599 0xFF0000 memory 799 599 (omega arith, omega arith)
      (omega arith, omega arith)

vga_clear_rect-Draws_example :
    Draws mode
      (filled mode 790 810 590 598 0xFF memory)
      memory
      (vga_clear_rect mode 790 590 20 8 0xFF memory)
vga_clear_rect-Draws_example =
    vga_clear_rect-Draws mode mode-IsMode 790 590 20 8 0xFF memory (omega arith) (omega arith)

vga_scroll-Draws_example :
    Draws mode
      (scrolled mode 7 (λ x y. vga_read_pixel mode x y memory))
      memory
      (vga_scroll 7 screen).bytes
    × (vga_scroll 7 screen ≡ record screen { bytes = (vga_scroll 7 screen).bytes; cursor_y = 592 })
vga_scroll-Draws_example = vga_scroll-Draws 7 screen mode-IsMode (omega arith) (screen-IsReady).all

vga_put_char-Shows_example :
    Shows mode
      (put_picture font 65 0xFFFFFF 0 screen)
      0
      592
      memory
      (vga_put_char font 65 0xFFFFFF 0 screen)
vga_put_char-Shows_example = vga_put_char-Shows font 65 0xFFFFFF 0 screen screen-IsReady refl refl

vga_put_char-IsKept_example : IsKept screen (vga_put_char font 10 0xFFFFFF 0 screen)
vga_put_char-IsKept_example = vga_put_char-IsKept font 10 0xFFFFFF 0 screen screen-IsReady

vga_print-put_all_example :
    vga_print font 3 100 7 0 screen ≡ ok (put_all font (79 ∷ 75 ∷ []) 7 0 screen)
vga_print-put_all_example =
    vga_print-put_all font (79 ∷ 75 ∷ []) 3 100 7 0 screen screen-IsReady
      (
        refl,
        omega arith,
        inl (omega arith),
        (refl, omega arith, inl (omega arith), (refl, inl (omega arith))),
      )
      (omega arith)

abbrev log : Log
log = record { default_fg = 0xFFFFFF; default_bg = 0; screen = start }

abbrev small_log : Log
small_log = record { default_fg = 0xFFFFFF; default_bg = 0; screen = small_screen }

klog_status-stuck_example : klog_status font 1000 log_failed small_log ≡ out_of_fuel
klog_status-stuck_example =
    klog_status-stuck font 1000 log_failed small_log small_screen-IsReady (omega arith)

abbrev registers : Registers32
registers = record {
  gs = 16;
  fs = 16;
  es = 16;
  ds = 16;
  edi = 0;
  esi = 0;
  ebp = 0;
  esp_at_pushal = 0x7000;
  ebx = 0;
  edx = 0;
  ecx = 0;
  eax = 1;
  interrupt_no = 14;
  error_code = 2;
  eip = 0x100000;
  cs = 8;
  eflags = 2;
}

exception_handler_32-Reports_example :
    ((ms : List (List ℕ)) × Reports font screen ms (exception_handler_32 font registers screen)
      × AllShown ms (numbers registers))
    × ((ms : List (List ℕ)) × (n : ℕ) × Reports font screen ms (panic font (79 ∷ 75 ∷ []) screen)
        × Begins (codes " ERROR MESSAGE:\n  " ∷ (79 ∷ 75 ∷ []) ∷ []) (behind n ms))
exception_handler_32-Reports_example =
    exception_handler_32-Reports font registers (79 ∷ 75 ∷ []) screen screen-IsReady (
      omega arith,
      (
        omega arith,
        (
          omega arith,
          (
            omega arith,
            (
              omega arith,
              (
                omega arith,
                (
                  omega arith,
                  (
                    omega arith,
                    (
                      omega arith,
                      (
                        omega arith,
                        (
                          omega arith,
                          (
                            omega arith,
                            (
                              omega arith,
                              (omega arith, (omega arith, (omega arith, (omega arith, tt)))),
                            ),
                          ),
                        ),
                      ),
                    ),
                  ),
                ),
              ),
            ),
          ),
        ),
      ),
    )
