-- ===== src/Console/Registers.antt =====
-- src/kernel/lvga.c: `print_register` on the text console. The name is a string of memory, the other
-- strings are constants.
use icosaos.Prelude.{ℕ, codes, Run, ok, ◌>>=◌}
use icosaos.Console.{Terminal, terminal_writestring, terminal_write_hex}
use icosaos.Console.Printk.{write_constant}

unfoldable pub print_register : ℕ → ℕ → ℕ → (ℕ → ℕ) → (ℕ → ℕ) → Terminal → Run Terminal
print_register fuel name val stack bytes s = do
  named ← terminal_writestring fuel name bytes s
  shown ← terminal_write_hex fuel val stack (write_constant (codes ": ") named)
  ok (write_constant (codes "   ") shown)
