-- ===== src/Framebuffer/Text/Print.antt =====
-- Strings on a ready screen.
use icosaos.Prelude.{
  ℕ, zero, suc, ◌+◌, ◌*◌, ◌≤◌, ◌<◌, ◌≡◌, ◌⊎◌, refl, ◌∙◌, arith, false, add32, ◌==◌, List, [], ◌∷◌,
  size_of, ok,
}
use icosaos.Framebuffer.{Mode, Screen}
use icosaos.Framebuffer.Text.{Font, vga_put_char, vga_print}
use icosaos.Framebuffer.Text.Place.{IsReady}
use icosaos.Framebuffer.Text.Kept.{IsKept, IsKept-after, vga_put_char-IsKept}

-- The characters of a string, one after another.
abbrev pub put_all : Font → List ℕ → ℕ → ℕ → Screen → Screen
put_all font [] fg bg s = s
put_all font (c ∷ cs) fg bg s = put_all font cs fg bg (vga_put_char font c fg bg s)

-- The string `cs` stands in memory at `str`, with a zero behind it, and no byte of it is of the
-- framebuffer.
abbrev pub StringAt : Mode → (ℕ → ℕ) → ℕ → List ℕ → Type 0
StringAt m bytes str [] =
    (bytes str ≡ 0) × ((str < m.framebuffer) ⊎ (m.framebuffer + m.height * m.pitch ≤ str))
StringAt m bytes str (c ∷ cs) =
    (bytes str ≡ c)
    × (0 < c)
    × ((str < m.framebuffer) ⊎ (m.framebuffer + m.height * m.pitch ≤ str))
    × StringAt m bytes (add32 str 1) cs

pub put_all-IsKept :
    (font : Font) (cs : List ℕ) (fg bg : ℕ) (s : Screen)
    → IsReady s
    → IsKept s (put_all font cs fg bg s)
put_all-IsKept font [] fg bg s r = record { same_mode = refl; memory = λ a out. refl; ready = r }
put_all-IsKept font (c ∷ cs) fg bg s r =
    let first = vga_put_char-IsKept font c fg bg s r in
    IsKept-after s (vga_put_char font c fg bg s) _ first
      (put_all-IsKept font cs fg bg (vga_put_char font c fg bg s) first.ready)

pub StringAt-IsKept :
    (s s' : Screen) (str : ℕ) (cs : List ℕ)
    → IsKept s s'
    → StringAt s.mode s.bytes str cs
    → StringAt s'.mode s'.bytes str cs
StringAt-IsKept s s' str [] k (e, out) = (k.memory str out ∙ e, rw k.same_mode out)
StringAt-IsKept s s' str (c ∷ cs) k (e, pos, out, rest) =
    (k.memory str out ∙ e, pos, rw k.same_mode out, StringAt-IsKept s s' (add32 str 1) cs k rest)

-- On a ready screen `vga_print` of a string outside the framebuffer ends, given a round for each
-- character and one for the zero: it has put the characters in order, although it reads each from a
-- memory that the pixels before it have changed.
pub vga_print-put_all :
    (font : Font) (cs : List ℕ) (fuel str fg bg : ℕ) (s : Screen)
    → IsReady s
    → StringAt s.mode s.bytes str cs
    → size_of cs < fuel
    → vga_print font fuel str fg bg s ≡ ok (put_all font cs fg bg s)
unfolding vga_print
vga_print-put_all font cs zero str fg bg s r at h = absurd (omega arith)
vga_print-put_all font [] (suc fuel) str fg bg s r (e, out) h = rw e refl
vga_print-put_all font (c ∷ cs) (suc fuel) str fg bg s r (e, pos, out, rest) h =
    let k = vga_put_char-IsKept font c fg bg s r in
    let more : (c == 0) ≡ false = ground arith in
    rw (e, more)
      (vga_print-put_all font cs fuel (add32 str 1) fg bg (vga_put_char font c fg bg s) k.ready
        (StringAt-IsKept s (vga_put_char font c fg bg s) (add32 str 1) cs k rest) (omega arith))
