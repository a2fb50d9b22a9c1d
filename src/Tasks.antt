-- ===== src/Tasks.antt =====
-- src/kernel/tasks.c, headers/tasks.h, and `current_process` of tss.c: the frame of a new process, and
-- the scheduler, which the timer's interrupt calls. Pointers are addresses of the memory `bytes`; the
-- headers of the heap are those of Heap.antt.
pub mod Frame
use icosaos.Prelude.{
  ℕ, ◌+◌, ◌*◌, add32, sub32, ◌==◌, load32, store32, if◌then◌else◌, List, [], ◌∷◌, Run, ok,
  out_of_fuel, ◌>>=◌,
}
use icosaos.Heap.{Heap}
use icosaos.Segments.{Segments}
use icosaos.UserHeap.{user_pages, umalloc}

-- The offsets in `process_t` and its size, and `sizeof(cpu_context_t)`: seventeen words.
abbrev pub process_pid : ℕ
process_pid = 0

abbrev pub process_kernel_stack_top : ℕ
process_kernel_stack_top = 4

abbrev pub process_size : ℕ
process_size = 8

abbrev pub context_size : ℕ
context_size = 68

-- The heap of the processes, memory, `current_process`, the segments with `tss_entry`, and the writes to
-- ports, the last one first.
pub record Tasks : Type 0 where
  pub heap : Heap user_pages
  pub bytes : ℕ → ℕ
  pub current_process : ℕ
  pub segments : Segments
  pub ports : List (ℕ × ℕ)

-- `tss_entry.esp0 = top`
abbrev pub set_esp0 : ℕ → Segments → Segments
set_esp0 top g = record g { tss_entry = record (g.tss_entry) { esp0 = top } }

unfoldable pub c_scheduler_handler : ℕ → Tasks → ℕ × Tasks
c_scheduler_handler old_esp s =
    let s1 = record s { ports = (0x20, 0x20) ∷ s.ports } in
    let top = add32 s.current_process process_kernel_stack_top in
    let saved = store32 top old_esp s.bytes in
    let s2 = record s1 {
      bytes = saved;
      segments = set_esp0 (add32 (load32 top saved) context_size) s.segments;
    } in
    if s.current_process == 0 then (old_esp, s1) else (load32 top saved, s2)

-- `*(--esp) = value`
unfoldable pub push : ℕ → ℕ × (ℕ → ℕ) → ℕ × (ℕ → ℕ)
push value (esp, bytes) = (sub32 esp 4, store32 (sub32 esp 4) value bytes)

unfoldable pub push_all : List ℕ → ℕ × (ℕ → ℕ) → ℕ × (ℕ → ℕ)
push_all [] r = r
push_all (v ∷ vs) r = push_all vs (push v r)

-- What `create_user_process` pushes, in its order. The order of the two uses of `esp` in
-- `*(--esp) = (uint32_t)esp` is left open by C, so that value is a parameter.
unfoldable pub frame : ℕ → ℕ → ℕ → List ℕ
frame entry_point user_stack_top esp_at_pushal =
    0x23 ∷ user_stack_top ∷ 0x202 ∷ 0x1B ∷ entry_point ∷ 0 ∷ 0 ∷ 0 ∷ 0 ∷ esp_at_pushal ∷ 0 ∷ 0 ∷ 0
    ∷ 0x23 ∷ 0x23 ∷ 0x23 ∷ 0x23 ∷ []

unfoldable pub create_user_process : ℕ → ℕ → ℕ → ℕ → ℕ → Tasks → Run (ℕ × Tasks)
create_user_process fuel calls entry_point user_stack_top esp_at_pushal s =
    umalloc fuel calls process_size s.heap >>= λ new_proc.
    umalloc fuel calls 16384 new_proc.1 >>= λ kstack.
    let pushed =
      push_all (frame entry_point user_stack_top esp_at_pushal) (add32 kstack.0 16384, s.bytes) in
    ok (
      new_proc.0,
      record s {
        heap = kstack.1;
        bytes =
            store32 (add32 new_proc.0 process_pid) 1
              (store32 (add32 new_proc.0 process_kernel_stack_top) pushed.0 pushed.1);
      },
    )
