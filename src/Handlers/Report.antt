-- ===== src/Handlers/Report.antt =====
-- What the report of an exception and of a panic says.
use icosaos.Prelude.{ℕ, zero, suc, ◌<◌, ◌^◌, ◌≡◌, refl, sym, ◌∙◌, List, [], ◌∷◌, ◌++◌, codes}
use icosaos.Framebuffer.{Screen, vga_clear_screen}
use icosaos.Framebuffer.Text.{Font}
use icosaos.Framebuffer.Text.Place.{IsReady}
use icosaos.Framebuffer.Text.Kept.{IsKept, IsKept-after}
use icosaos.Framebuffer.Text.Print.{put_all}
use icosaos.Handlers.{
  Registers32, hex_from, hex_string, print_register, panic_head, register_dump, exception_report,
  say, exception_handler_32, panic, rgb_white, rgb_red,
}
use icosaos.Handlers.Screens.{read_hex, hex_string-read_hex, vga_clear_screen-IsKept, say-IsKept}

-- The strings of a list one behind another, drawn as one text.
abbrev pub joined : List (List ℕ) → List ℕ
joined [] = []
joined (m ∷ ms) = m ++ joined ms

put_all-append :
    (font : Font) (xs ys : List ℕ) (fg bg : ℕ) (s : Screen)
    → put_all font (xs ++ ys) fg bg s ≡ put_all font ys fg bg (put_all font xs fg bg s)
unfolding put_all
put_all-append font [] ys fg bg s = refl
put_all-append font (x ∷ xs) ys fg bg s = put_all-append font xs ys fg bg _

say-joined :
    (font : Font) (ms : List (List ℕ)) (s : Screen)
    → say font ms s ≡ put_all font (joined ms) rgb_white rgb_red s
unfolding say put_all
say-joined font [] s = refl
say-joined font (m ∷ ms) s =
    say-joined font ms _ ∙ sym (put_all-append font m (joined ms) rgb_white rgb_red s)

-- Somewhere in a list of strings the given ones stand one behind another.
abbrev pub Begins : List (List ℕ) → List (List ℕ) → Type 0
Begins [] ms = Unit {0}
Begins (x ∷ xs) [] = ⊥
Begins (x ∷ xs) (m ∷ ms) = (m ≡ x) × Begins xs ms

abbrev pub behind : ℕ → List (List ℕ) → List (List ℕ)
behind zero ms = ms
behind (suc n) [] = []
behind (suc n) (m ∷ ms) = behind n ms

-- A label, and behind it "0x" and digits that read as a number.
abbrev pub Shows : List (List ℕ) → List (List ℕ) × ℕ → Type 0
Shows ms (label, value) =
    (n : ℕ) × (digits : List ℕ) × Begins (label ++ (48 ∷ 120 ∷ digits) ∷ []) (behind n ms)
    × (read_hex digits 0 ≡ value)

abbrev pub AllShown : List (List ℕ) → List (List (List ℕ) × ℕ) → Type 0
AllShown ms [] = Unit {0}
AllShown ms (v ∷ vs) = Shows ms v × AllShown ms vs

abbrev pub AllWords : List (List (List ℕ) × ℕ) → Type 0
AllWords [] = Unit {0}
AllWords (v ∷ vs) = (v.1 < 2 ^ 32) × AllWords vs

-- What a report of an exception has to say: the numbers of the exception, and the registers.
abbrev pub named : List ℕ → ℕ → List (List ℕ) × ℕ
named name value = (name ∷ codes ": " ∷ [], value)

abbrev pub numbers : Registers32 → List (List (List ℕ) × ℕ)
numbers regs =
    (codes " (Vector Vector " ∷ [], regs.interrupt_no)
    ∷ (codes " Error Code: " ∷ [], regs.error_code)
    ∷ (codes "\n Suspected Instruction Pointer (EIP): " ∷ [], regs.eip)
    ∷ named (codes "EAX") regs.eax
    ∷ named (codes "EBX") regs.ebx
    ∷ named (codes "ECX") regs.ecx
    ∷ named (codes "EDX") regs.edx
    ∷ named (codes "EDI") regs.edi
    ∷ named (codes "ESI") regs.esi
    ∷ named (codes "EBP") regs.ebp
    ∷ named (codes "ESP") regs.esp_at_pushal
    ∷ named (codes "CS ") regs.cs
    ∷ named (codes "DS ") regs.ds
    ∷ named (codes "ES ") regs.es
    ∷ named (codes "FS ") regs.fs
    ∷ named (codes "GS ") regs.gs
    ∷ named (codes "EFLAGS") regs.eflags
    ∷ []

exception_report-AllShown :
    (regs : Registers32) → AllWords (numbers regs) → AllShown (exception_report regs) (numbers regs)
unfolding exception_report panic_head register_dump print_register hex_string
exception_report-AllShown regs
      (
        h0,
        (
          h1,
          (
            h2,
            (
              h3,
              (
                h4,
                (h5, (h6, (h7, (h8, (h9, (h10, (h11, (h12, (h13, (h14, (h15, (h16, e)))))))))))),
              ),
            ),
          ),
        ),
      ) =
    (
      (
        5,
        hex_from 8 0 regs.interrupt_no,
        (refl, (refl, tt)),
        (hex_string-read_hex regs.interrupt_no h0).1,
      ),
      (
        (
          8,
          hex_from 8 0 regs.error_code,
          (refl, (refl, tt)),
          (hex_string-read_hex regs.error_code h1).1,
        ),
        (
          (10, hex_from 8 0 regs.eip, (refl, (refl, tt)), (hex_string-read_hex regs.eip h2).1),
          (
            (
              14,
              hex_from 8 0 regs.eax,
              (refl, (refl, (refl, tt))),
              (hex_string-read_hex regs.eax h3).1,
            ),
            (
              (
                19,
                hex_from 8 0 regs.ebx,
                (refl, (refl, (refl, tt))),
                (hex_string-read_hex regs.ebx h4).1,
              ),
              (
                (
                  24,
                  hex_from 8 0 regs.ecx,
                  (refl, (refl, (refl, tt))),
                  (hex_string-read_hex regs.ecx h5).1,
                ),
                (
                  (
                    29,
                    hex_from 8 0 regs.edx,
                    (refl, (refl, (refl, tt))),
                    (hex_string-read_hex regs.edx h6).1,
                  ),
                  (
                    (
                      35,
                      hex_from 8 0 regs.edi,
                      (refl, (refl, (refl, tt))),
                      (hex_string-read_hex regs.edi h7).1,
                    ),
                    (
                      (
                        40,
                        hex_from 8 0 regs.esi,
                        (refl, (refl, (refl, tt))),
                        (hex_string-read_hex regs.esi h8).1,
                      ),
                      (
                        (
                          45,
                          hex_from 8 0 regs.ebp,
                          (refl, (refl, (refl, tt))),
                          (hex_string-read_hex regs.ebp h9).1,
                        ),
                        (
                          (
                            50,
                            hex_from 8 0 regs.esp_at_pushal,
                            (refl, (refl, (refl, tt))),
                            (hex_string-read_hex regs.esp_at_pushal h10).1,
                          ),
                          (
                            (
                              56,
                              hex_from 8 0 regs.cs,
                              (refl, (refl, (refl, tt))),
                              (hex_string-read_hex regs.cs h11).1,
                            ),
                            (
                              (
                                61,
                                hex_from 8 0 regs.ds,
                                (refl, (refl, (refl, tt))),
                                (hex_string-read_hex regs.ds h12).1,
                              ),
                              (
                                (
                                  66,
                                  hex_from 8 0 regs.es,
                                  (refl, (refl, (refl, tt))),
                                  (hex_string-read_hex regs.es h13).1,
                                ),
                                (
                                  (
                                    71,
                                    hex_from 8 0 regs.fs,
                                    (refl, (refl, (refl, tt))),
                                    (hex_string-read_hex regs.fs h14).1,
                                  ),
                                  (
                                    (
                                      77,
                                      hex_from 8 0 regs.gs,
                                      (refl, (refl, (refl, tt))),
                                      (hex_string-read_hex regs.gs h15).1,
                                    ),
                                    (
                                      (
                                        82,
                                        hex_from 8 0 regs.eflags,
                                        (refl, (refl, (refl, tt))),
                                        (hex_string-read_hex regs.eflags h16).1,
                                      ),
                                      tt,
                                    ),
                                  ),
                                ),
                              ),
                            ),
                          ),
                        ),
                      ),
                    ),
                  ),
                ),
              ),
            ),
          ),
        ),
      ),
    )

-- The screen after a report: the red screen with a text, and memory around the framebuffer as before.
pub record Reports (font : Font) (s : Screen) (ms : List (List ℕ)) (s' : Screen) : Type 0 where
  pub drawn : s' ≡ put_all font (joined ms) rgb_white rgb_red (vga_clear_screen rgb_red s)
  pub kept : IsKept s s'

say-Reports :
    (font : Font) (ms : List (List ℕ)) (s : Screen)
    → IsReady s
    → Reports font s ms (say font ms (vga_clear_screen rgb_red s))
say-Reports font ms s r =
    let cleared = vga_clear_screen-IsKept rgb_red s r in
    record {
      drawn = say-joined font ms (vga_clear_screen rgb_red s);
      kept =
          IsKept-after s (vga_clear_screen rgb_red s) _ cleared
            (say-IsKept font ms (vga_clear_screen rgb_red s) cleared.ready);
    }

-- On a ready screen, and for registers below 2 ^ 32, the handler of an exception clears the screen in red
-- and draws a text in which the number of the exception, the error code, the instruction pointer and
-- each of fourteen registers stand behind their names, as hexadecimal numbers that read as their
-- values; `panic` draws one in which its message stands behind its label. Both write to no byte around
-- the framebuffer, and the screen stays ready.
pub exception_handler_32-Reports :
    (font : Font) (regs : Registers32) (message : List ℕ) (s : Screen)
    → IsReady s
    → AllWords (numbers regs)
    → ((ms : List (List ℕ)) × Reports font s ms (exception_handler_32 font regs s)
        × AllShown ms (numbers regs))
      × ((ms : List (List ℕ)) × (n : ℕ) × Reports font s ms (panic font message s)
          × Begins (codes " ERROR MESSAGE:\n  " ∷ message ∷ []) (behind n ms))
unfolding exception_handler_32 panic panic_head
exception_handler_32-Reports font regs message s r words = (
  (
    exception_report regs,
    say-Reports font (exception_report regs) s r,
    exception_report-AllShown regs words,
  ),
  (_, 4, say-Reports font _ s r, (refl, (refl, tt))),
)
