-- ===== src/Ports.antt =====
-- src/kernel/io.c: the writes that set up the interrupt controllers, the last one first. The
-- instructions `in` and `out` are the machine's; the two masks that are read are not used.
use icosaos.Prelude.{ℕ, List, ◌∷◌}

unfoldable pub outb : ℕ → ℕ → List (ℕ × ℕ) → List (ℕ × ℕ)
outb port val ports = (port, val) ∷ ports

unfoldable pub init_pic : List (ℕ × ℕ) → List (ℕ × ℕ)
init_pic ports =
    let started = outb 0xA0 0x11 (outb 0x20 0x11 ports) in
    let remapped = outb 0xA1 0x28 (outb 0x21 0x20 started) in
    let cascaded = outb 0xA1 0x02 (outb 0x21 0x04 remapped) in
    let in_mode = outb 0xA1 0x01 (outb 0x21 0x01 cascaded) in
    outb 0xA1 0xFF (outb 0x21 0xFC in_mode)
