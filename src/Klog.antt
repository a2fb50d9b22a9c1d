-- ===== src/Klog.antt =====
-- src/kernel/klog.c and headers/klog.h: the log of the start-up on the framebuffer console. A string
-- constant is the list of its characters, which `vga_print` puts in order
-- (Framebuffer/Text/Print).
pub mod Status
use icosaos.Prelude.{
  ℕ, zero, suc, ◌*◌, sub32, ltb, if◌then◌else◌, Run, ok, out_of_fuel, ◌>>=◌, List, codes,
}
use icosaos.Framebuffer.{Screen, vga_get_cursor_x}
use icosaos.Framebuffer.Text.{Font, vga_put_char, vga_print}
use icosaos.Framebuffer.Text.Print.{put_all}

pub data LogStatus : Type 0 where
  log_success : LogStatus
  log_failed : LogStatus
  log_warning : LogStatus

abbrev pub color_white : ℕ
color_white = 0x00FFFFFF

abbrev pub color_black : ℕ
color_black = 0x00000000

abbrev pub color_green : ℕ
color_green = 0x0000FF00

abbrev pub color_red : ℕ
color_red = 0x00FF0000

abbrev pub color_yellow : ℕ
color_yellow = 0x00FFFF00

-- The colors of the log, and the screen it writes on.
pub record Log : Type 0 where
  pub default_fg : ℕ
  pub default_bg : ℕ
  pub screen : Screen

abbrev pub screen_width : ℕ
screen_width = 800

abbrev pub scaled_font_width : ℕ
scaled_font_width = 16

abbrev pub status_char_count : ℕ
status_char_count = 8

unfoldable pub klog_init : ℕ → ℕ → Log → Log
klog_init fg_color bg_color l = record l { default_fg = fg_color; default_bg = bg_color }

unfoldable pub klog_info : Font → ℕ → ℕ → Log → Run Log
klog_info font fuel msg l = do
  s ← vga_print font fuel msg l.default_fg l.default_bg l.screen
  ok (record l { screen = s })

abbrev pub status_start_pixel : ℕ
status_start_pixel = sub32 screen_width (status_char_count * scaled_font_width)

-- The loop of `klog_status`.
unfoldable pub fill_gap : Font → ℕ → ℕ → ℕ → Screen → Run Screen
fill_gap font zero fg bg s = out_of_fuel
fill_gap font (suc fuel) fg bg s =
    let rest = fill_gap font fuel fg bg (vga_put_char font 32 fg bg s) in
    if ltb (vga_get_cursor_x s) status_start_pixel then rest else ok s

unfoldable pub print_status : Font → LogStatus → ℕ → Screen → Screen
print_status font log_success bg s = put_all font (codes " OK ") color_green bg s
print_status font log_failed bg s = put_all font (codes "FAIL") color_red bg s
print_status font log_warning bg s = put_all font (codes "WARN") color_yellow bg s

-- What follows the loop.
unfoldable pub print_tag : Font → LogStatus → ℕ → ℕ → Screen → Screen
print_tag font status fg bg s = vga_put_char font 10 fg bg (
    put_all font (codes " ]") fg bg
      (print_status font status bg (put_all font (codes "[ ") fg bg s)))

unfoldable pub klog_status : Font → ℕ → LogStatus → Log → Run Log
klog_status font fuel status l = do
  s ← fill_gap font fuel l.default_fg l.default_bg l.screen
  ok (record l { screen = print_tag font status l.default_fg l.default_bg s })

unfoldable pub klog_instant : Font → ℕ → ℕ → LogStatus → Log → Run Log
klog_instant font fuel msg status l = do
  l' ← klog_info font fuel msg l
  klog_status font fuel status l'
