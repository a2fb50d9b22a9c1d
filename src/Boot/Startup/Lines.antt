-- ===== src/Boot/Startup/Lines.antt =====
-- The lines of the log that `kernel_main` writes end, and keep memory around the framebuffer.
use icosaos.Prelude.{
  ℕ, ◌*◌, ◌%◌, ◌≤◌, ◌≡◌, ◌∙◌, refl, arith, Bool, true, ◌&&◌, not, ◌==◌, List, [], ◌∷◌, size_of, ok,
}
use icosaos.Framebuffer.{Screen}
use icosaos.Framebuffer.Text.{Font}
use icosaos.Framebuffer.Text.Place.{IsReady}
use icosaos.Framebuffer.Text.Kept.{IsKept}
use icosaos.Framebuffer.Text.Print.{put_all, StringAt, vga_print-put_all}
use icosaos.Klog.{LogStatus, klog_info}
use icosaos.Klog.Status.{Moves, Plain, put_all-Moves, klog_status-returns}
use icosaos.Boot.Startup.{Image, Kernel, with_log, info_line, set_status}

-- A text without a line end.
abbrev pub is_plain : List ℕ → Bool
is_plain [] = true
is_plain (c ∷ cs) = not (c == 10) && not (c == 13) && is_plain cs

is_plain-Plain : (cs : List ℕ) → is_plain cs ≡ true → Plain cs
is_plain-Plain [] h = tt
is_plain-Plain (c ∷ cs) h = (ground arith, ground arith, is_plain-Plain cs (ground arith))

module _ {fuel calls : ℕ} where
  -- The screen on the memory of the kernel, and a state with another.
  abbrev pub shown : Kernel fuel calls → Screen
  shown k = record (k.log.screen) { bytes = k.files.bytes }

  abbrev pub with_screen : Screen → Kernel fuel calls → Kernel fuel calls
  with_screen s k = record k {
    log = record (k.log) { screen = s };
    files = record (k.files) { bytes = s.bytes };
  }

  -- The cursor is at the start of a line of a screen with room for a status.
  pub record IsFresh (k : Kernel fuel calls) : Type 0 where
    pub ready : IsReady (shown k)
    pub at_start : k.log.screen.cursor_x ≡ 0
    pub wide : 744 ≤ k.log.screen.mode.width

  -- A string constant is in memory, outside the framebuffer.
  abbrev pub Stands : Image → Kernel fuel calls → List ℕ → Type 0
  Stands image k cs = StringAt k.log.screen.mode k.files.bytes (image.literal cs) cs

  module _ (font : Font) (image : Image) where
    pub info_line-returns :
        (cs : List ℕ) (k : Kernel fuel calls)
        → IsFresh k
        → Stands image k cs
        → is_plain cs ≡ true
        → size_of cs ≤ 84
        → 85 ≤ fuel
        → (s : Screen) × (info_line font image cs k ≡ ok (with_screen s k))
          × Moves (shown k) (8 * size_of cs) k.log.screen.cursor_y s
    unfolding info_line with_log klog_info
    info_line-returns cs k fresh stands plain short enough =
        let start = fresh.at_start in
        let wide = fresh.wide in
        let printed =
          vga_print-put_all font cs fuel (image.literal cs) k.log.default_fg k.log.default_bg
            (shown k) fresh.ready stands (omega arith) in
        let moves =
          put_all-Moves font cs k.log.default_fg k.log.default_bg (shown k) fresh.ready
            (is_plain-Plain cs plain) (omega arith) in
        (
          put_all font cs k.log.default_fg k.log.default_bg (shown k),
          rw printed refl,
          record { kept = moves.kept; at_x = moves.at_x ∙ omega arith; at_y = moves.at_y },
        )

    pub set_status-returns :
        (status : LogStatus) (k : Kernel fuel calls)
        → IsReady (shown k)
        → k.log.screen.cursor_x % 8 ≡ 0
        → k.log.screen.cursor_x ≤ 672
        → 744 ≤ k.log.screen.mode.width
        → 85 ≤ fuel
        → (s : Screen) × (set_status font image status k ≡ ok (with_screen s k))
          × IsKept (shown k) s
          × (s.cursor_x ≡ 0)
    unfolding set_status with_log
    set_status-returns status k ready grid left wide enough =
        let (s, e, kept, x, y) =
          klog_status-returns font fuel status (record (k.log) { screen = shown k }) ready grid left
            wide enough in
        (s, rw e refl, kept, x)
