-- ===== src/Handlers.antt =====
-- src/kernel/handlers.c: what is printed of an exception and of a panic before the machine halts, and
-- the end of a user program. The loops that halt are left out. A string constant is the list of its
-- characters; each item of a list of strings is one call of `vga_print`.
pub mod Screens
pub mod Report
use icosaos.Prelude.{
  ℕ, zero, suc, ◌+◌, ◌-◌, ◌*◌, ◌/◌, bit_and, ◌>>>◌, ltb, if◌then◌else◌, List, [], ◌∷◌, ◌++◌, codes,
  get_elem,
}
use icosaos.Paging.{Machine}
use icosaos.UserMemory.{free_user_space, user_stack_max, user_stack_size}
use icosaos.Framebuffer.{Screen, vga_clear_screen}
use icosaos.Framebuffer.Text.{Font}
use icosaos.Framebuffer.Text.Print.{put_all}

abbrev pub rgb_white : ℕ
rgb_white = 0xFFFFFF

abbrev pub rgb_red : ℕ
rgb_red = 0xD32F2F

abbrev pub user_code_base : ℕ
user_code_base = 0x40000000

unfoldable pub exception_messages : List (List ℕ)
exception_messages =
    codes "Division By Zero"
    ∷ codes "Debug"
    ∷ codes "Non-Maskable Interrupt"
    ∷ codes "Breakpoint"
    ∷ codes "Into Detected Overflow"
    ∷ codes "Out of Bounds"
    ∷ codes "Invalid Opcode"
    ∷ codes "No Coprocessor"
    ∷ codes "Double Fault"
    ∷ codes "Coprocessor Segment Overrun"
    ∷ codes "Bad TSS"
    ∷ codes "Segment Not Present"
    ∷ codes "Stack-Fault"
    ∷ codes "General Protection Fault"
    ∷ codes "Page Fault"
    ∷ codes "Unknown Interrupt"
    ∷ codes "Coprocessor Fault"
    ∷ codes "Alignment Check"
    ∷ codes "Machine Check"
    ∷ codes "SIMD Floating-Point Exception"
    ∷ codes "Virtualization Exception"
    ∷ codes "Control Protection Exception"
    ∷ codes "Reserved"
    ∷ codes "Reserved"
    ∷ codes "Reserved"
    ∷ codes "Reserved"
    ∷ codes "Reserved"
    ∷ codes "Reserved"
    ∷ codes "Hypervisor Injection Exception"
    ∷ codes "VMM Communication Exception"
    ∷ codes "Security Exception"
    ∷ codes "Reserved"
    ∷ []

-- `struct registers_32`.
pub record Registers32 : Type 0 where
  pub gs : ℕ
  pub fs : ℕ
  pub es : ℕ
  pub ds : ℕ
  pub edi : ℕ
  pub esi : ℕ
  pub ebp : ℕ
  pub esp_at_pushal : ℕ
  pub ebx : ℕ
  pub edx : ℕ
  pub ecx : ℕ
  pub eax : ℕ
  pub interrupt_no : ℕ
  pub error_code : ℕ
  pub eip : ℕ
  pub cs : ℕ
  pub eflags : ℕ

abbrev hex_chars : List ℕ
hex_chars = codes "0123456789ABCDEF"

-- The loop of `vga_print_hex`, with `n` rounds left, and the string of its buffer.
unfoldable pub hex_from : ℕ → ℕ → ℕ → List ℕ
hex_from zero i val = []
hex_from (suc n) i val =
    get_elem hex_chars (bit_and (val >>> (28 - i * 4)) 0xF) ∷ hex_from n (i + 1) val

unfoldable pub hex_string : ℕ → List ℕ
hex_string val = codes "0x" ++ hex_from 8 0 val

-- The strings that `print_register` prints, before those that follow.
unfoldable pub print_register : List ℕ → ℕ → List (List ℕ) → List (List ℕ)
print_register name val rest = codes " " ∷ name ∷ codes ": " ∷ hex_string val ∷ codes "  " ∷ rest

-- `exception_messages[i]` within the table.
unfoldable pub message_at : List (List ℕ) → ℕ → List ℕ
message_at [] i = []
message_at (m ∷ ms) zero = m
message_at (m ∷ ms) (suc i) = message_at ms i

unfoldable pub exception_name : ℕ → List ℕ
exception_name interrupt_no =
    let known = message_at exception_messages interrupt_no in
    if ltb interrupt_no 32 then known else codes "Unknown Fault"

unfoldable pub panic_head : List (List ℕ) → List (List ℕ)
panic_head rest =
    codes "================================================================================\n"
    ∷ codes "                                  KERNEL PANIC                                  \n"
    ∷ codes "================================================================================\n\n"
    ∷ rest

unfoldable pub register_dump : Registers32 → List (List ℕ) → List (List ℕ)
register_dump regs rest = print_register (codes "EAX") regs.eax (
    print_register (codes "EBX") regs.ebx (
      print_register (codes "ECX") regs.ecx (
        print_register (codes "EDX") regs.edx (
          codes "\n"
          ∷ print_register (codes "EDI") regs.edi (
              print_register (codes "ESI") regs.esi (
                print_register (codes "EBP") regs.ebp (
                  print_register (codes "ESP") regs.esp_at_pushal (
                    codes "\n"
                    ∷ print_register (codes "CS ") regs.cs (
                        print_register (codes "DS ") regs.ds (
                          print_register (codes "ES ") regs.es (
                            print_register (codes "FS ") regs.fs (
                              codes "\n"
                              ∷ print_register (codes "GS ") regs.gs
                                  (print_register (codes "EFLAGS") regs.eflags rest)))))))))))))

unfoldable pub exception_report : Registers32 → List (List ℕ)
exception_report regs = panic_head (
    codes " CRITICAL: "
    ∷ exception_name regs.interrupt_no
    ∷ codes " (Vector Vector "
    ∷ hex_string regs.interrupt_no
    ∷ codes ")\n"
    ∷ codes " Error Code: "
    ∷ hex_string regs.error_code
    ∷ codes "\n Suspected Instruction Pointer (EIP): "
    ∷ hex_string regs.eip
    ∷ codes "\n\n-------------------------------- REGISTER DUMP ---------------------------------\n"
    ∷ register_dump regs (
        codes "\n--------------------------------------------------------------------------------\n"
        ∷ codes " System halted safely to prevent data corruption.\n"
        ∷ codes " You may now reboot the machine."
        ∷ []))

-- The calls of `vga_print`, one after another.
unfoldable pub say : Font → List (List ℕ) → Screen → Screen
say font [] s = s
say font (m ∷ ms) s = say font ms (put_all font m rgb_white rgb_red s)

unfoldable pub exception_handler_32 : Font → Registers32 → Screen → Screen
exception_handler_32 font regs s = say font (exception_report regs) (vga_clear_screen rgb_red s)

unfoldable pub panic : Font → List ℕ → Screen → Screen
panic font message s =
    say font
      (panic_head (
        codes " CRITICAL: KERNEL ERROR!\n"
        ∷ codes " ERROR MESSAGE:\n  "
        ∷ message
        ∷ codes "\n\n System halted safely to prevent data corruption.\n"
        ∷ codes " You may now reboot the machine."
        ∷ []))
      (vga_clear_screen rgb_red s)

unfoldable pub c_syscall_handler : Font → Screen → Screen
c_syscall_handler font s = say font (codes "System call received!\n" ∷ []) s

unfoldable pub terminate_current_user_process : Machine → Machine
terminate_current_user_process m =
    free_user_space (user_stack_max - user_stack_size) (user_stack_size / 4096)
      (free_user_space user_code_base 1 m)
