-- ===== src/Console/Printk.antt =====
-- src/kernel/utils.c: messages of the kernel on the text console. A string constant is the list of its
-- characters.
use icosaos.Prelude.{ℕ, List, [], ◌∷◌, codes}
use icosaos.Console.{Terminal, terminal_putchar}

-- `terminal_writestring` of a string constant.
unfoldable pub write_constant : List ℕ → Terminal → Terminal
write_constant [] s = s
write_constant (c ∷ cs) s = write_constant cs (terminal_putchar c s)

unfoldable pub lprintk : List ℕ → Terminal → Terminal
lprintk message s = write_constant message (write_constant (codes "[KERNEL] ") s)

unfoldable pub lprintkl : List ℕ → Terminal → Terminal
lprintkl message s =
    terminal_putchar 10 (write_constant message (write_constant (codes "[KERNEL] ") s))
