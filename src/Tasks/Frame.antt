-- ===== src/Tasks/Frame.antt =====
-- The context that the timer's handler pops for a new process.
use icosaos.Prelude.{
  ℕ, suc, ◌+◌, ◌-◌, ◌*◌, ◌≤◌, ◌<◌, ◌^◌, ◌≡◌, ◌⊎◌, inl, inr, refl, sym, ap, ◌∙◌, arith, add32, sub32,
  ◌==◌, Bool-cases, List, [], ◌∷◌, size_of, load32, store32, store32-outside, load32-same,
  load32-store32, ok,
}
use icosaos.Heap.{Heap}
use icosaos.UserHeap.{user_pages, umalloc}
use icosaos.Tasks.{
  set_esp0, Tasks, process_size, c_scheduler_handler, push, push_all, frame, create_user_process,
}

-- The words from an address on.
abbrev pub WordsAt : (ℕ → ℕ) → ℕ → List ℕ → Type 0
WordsAt bytes at [] = Unit {0}
WordsAt bytes at (w ∷ ws) = (load32 at bytes ≡ w) × WordsAt bytes (at + 4) ws

abbrev pub All32 : List ℕ → Type 0
All32 [] = Unit {0}
All32 (w ∷ ws) = (w < 2 ^ 32) × All32 ws

abbrev reverse_onto : List ℕ → List ℕ → List ℕ
reverse_onto [] ws = ws
reverse_onto (v ∷ vs) ws = reverse_onto vs (v ∷ ws)

-- A word outside them is written.
WordsAt-store32 :
    (bytes : ℕ → ℕ) (at p value : ℕ) (ws : List ℕ)
    → at + 4 * size_of ws ≤ 2 ^ 32
    → p + 3 < 2 ^ 32
    → (p + 4 ≤ at) ⊎ (at + 4 * size_of ws ≤ p)
    → WordsAt bytes at ws
    → WordsAt (store32 p value bytes) at ws
WordsAt-store32 bytes at p value [] h hp out held = tt
WordsAt-store32 bytes at p value (w ∷ ws) h hp out (here, held) = (
  load32-same at bytes (store32 p value bytes) (omega arith)
        (λ a lo hi. store32-outside p value a bytes hp (ground arith))
      ∙ here,
  WordsAt-store32 bytes (at + 4) p value ws (omega arith) hp (ground arith) held,
)

push_all-push :
    (v : ℕ) (vs : List ℕ) (esp : ℕ) (bytes : ℕ → ℕ)
    → 4 ≤ esp
    → esp < 2 ^ 32
    → push_all (v ∷ vs) (esp, bytes) ≡ push_all vs (esp - 4, store32 (esp - 4) v bytes)
unfolding push_all push
push_all-push v vs esp bytes low lt =
    let e : sub32 esp 4 ≡ esp - 4 = omega arith in
    ap (λ (k : ℕ). push_all vs (k, store32 k v bytes)) e

-- Pushing words below others stacks them.
push_all-WordsAt :
    (vs ws : List ℕ) (esp : ℕ) (bytes : ℕ → ℕ)
    → All32 vs
    → 4 * size_of vs ≤ esp
    → esp + 4 * size_of ws ≤ 2 ^ 32
    → esp < 2 ^ 32
    → WordsAt bytes esp ws
    → ((push_all vs (esp, bytes)).0 ≡ esp - 4 * size_of vs)
      × WordsAt (push_all vs (esp, bytes)).1 (esp - 4 * size_of vs) (reverse_onto vs ws)
unfolding push_all push
push_all-WordsAt [] ws esp bytes small low high lt held =
    let e : esp - 0 ≡ esp = omega arith in (sym e, rw e held)
push_all-WordsAt (v ∷ vs) ws esp bytes (lt_v, small) low high lt held =
    let back : esp - 4 + 4 ≡ esp = omega arith in
    let down : esp - 4 - 4 * size_of vs ≡ esp - 4 * suc (size_of vs) = omega arith in
    let kept =
      WordsAt-store32 bytes esp (esp - 4) v ws high (omega arith) (inl (omega arith)) held in
    let top : load32 (esp - 4) (store32 (esp - 4) v bytes) ≡ v =
      load32-store32 (esp - 4) v bytes (omega arith) ∙ omega arith in
    let rest =
      push_all-WordsAt vs (v ∷ ws) (esp - 4) (store32 (esp - 4) v bytes) small (omega arith)
        (omega arith) (omega arith) (top, rw back kept) in
    rw (push_all-push v vs esp bytes (omega arith) lt) (rw down at rest)

-- The words of `cpu_context_t` that start a program: the segments of the user's data, registers that
-- are zero but for the one that `popal` skips, the entry point, the segment of the user's code, the
-- flags with interrupts on, and the user's stack.
abbrev pub context : ℕ → ℕ → ℕ → List ℕ
context entry_point user_stack_top esp_at_pushal =
    0x23 ∷ 0x23 ∷ 0x23 ∷ 0x23 ∷ 0 ∷ 0 ∷ 0 ∷ esp_at_pushal ∷ 0 ∷ 0 ∷ 0 ∷ 0 ∷ entry_point ∷ 0x1B
    ∷ 0x202 ∷ user_stack_top ∷ 0x23 ∷ []

-- Where the heap of the user grants the two regions, apart and within the address space,
-- `create_user_process` returns a process with the number 1 whose saved stack pointer is 68 bytes
-- below the end of its kernel stack and points to the context that the timer's handler pops into the
-- program: its entry point, its stack, and the selectors of user mode.
pub create_user_process-context :
    (fuel calls entry_point user_stack_top esp_at_pushal new_proc kstack : ℕ) (s : Tasks)
    (h1 h2 : Heap user_pages)
    → All32 (frame entry_point user_stack_top esp_at_pushal)
    → umalloc fuel calls process_size s.heap ≡ ok (new_proc, h1)
    → umalloc fuel calls 16384 h1 ≡ ok (kstack, h2)
    → new_proc + 8 < 2 ^ 32
    → kstack + 16384 < 2 ^ 32
    → (new_proc + 8 ≤ kstack) ⊎ (kstack + 16384 ≤ new_proc)
    → (s' : Tasks) × (create_user_process fuel calls entry_point user_stack_top esp_at_pushal s
        ≡ ok (new_proc, s'))
      × (load32 new_proc s'.bytes ≡ 1)
      × (load32 (new_proc + 4) s'.bytes ≡ kstack + 16316)
      × WordsAt s'.bytes (kstack + 16316) (context entry_point user_stack_top esp_at_pushal)
unfolding create_user_process frame
create_user_process-context fuel calls entry_point user_stack_top esp_at_pushal new_proc kstack s h1
      h2 small e1 e2 fits fits' apart =
    let (esp, words) =
      push_all-WordsAt (frame entry_point user_stack_top esp_at_pushal) [] (kstack + 16384) s.bytes
        small (omega arith) (omega arith) (omega arith) tt in
    let pushed =
      push_all (frame entry_point user_stack_top esp_at_pushal) (kstack + 16384, s.bytes) in
    let top : add32 kstack 16384 ≡ kstack + 16384 = omega arith in
    let pid_at : add32 new_proc 0 ≡ new_proc = omega arith in
    let top_at : add32 new_proc 4 ≡ new_proc + 4 = omega arith in
    let low : kstack + 16384 - 68 ≡ kstack + 16316 = omega arith in
    let saved = store32 (new_proc + 4) pushed.0 pushed.1 in
    let held =
      WordsAt-store32 saved (kstack + 16316) new_proc 1
        (context entry_point user_stack_top esp_at_pushal) (omega arith) (omega arith)
        (ground arith)
        (WordsAt-store32 pushed.1 (kstack + 16316) (new_proc + 4) pushed.0
          (context entry_point user_stack_top esp_at_pushal) (omega arith) (omega arith)
          (ground arith) (rw low at words)) in
    rw (e1, e2, top, pid_at, top_at)
      (
        _,
        refl,
        load32-store32 new_proc 1 saved (omega arith),
        load32-same (new_proc + 4) saved (store32 new_proc 1 saved) (omega arith)
              (λ a lo hi. store32-outside new_proc 1 a saved (omega arith) (inr lo))
            ∙ load32-store32 (new_proc + 4) pushed.0 pushed.1 (omega arith)
            ∙ rw esp (omega arith),
        held,
      )

-- With no process `c_scheduler_handler` returns the stack pointer it was given and changes nothing but
-- the port; with one it returns it too, saves it in the process, and lets the next interrupt's stack
-- start behind a context. Either way it has ended the interrupt.
pub c_scheduler_handler-resumes :
    (old_esp : ℕ) (s : Tasks)
    → old_esp < 2 ^ 32
    → s.current_process + 8 < 2 ^ 32
    → ((c_scheduler_handler old_esp s).0 ≡ old_esp)
      × ((c_scheduler_handler old_esp s).1.ports ≡ (0x20, 0x20) ∷ s.ports)
      × (((s.current_process ≡ 0)
            × ((c_scheduler_handler old_esp s).1.bytes ≡ s.bytes)
            × ((c_scheduler_handler old_esp s).1.segments ≡ s.segments))
          ⊎ ((0 < s.current_process)
              × (load32 (s.current_process + 4) (c_scheduler_handler old_esp s).1.bytes ≡ old_esp)
              × ((c_scheduler_handler old_esp s).1.segments
                  ≡ set_esp0 (add32 old_esp 68) s.segments)))
unfolding c_scheduler_handler
c_scheduler_handler-resumes old_esp s small fits =
    let at : add32 s.current_process 4 ≡ s.current_process + 4 = omega arith in
    let saved : load32 (s.current_process + 4) (store32 (s.current_process + 4) old_esp s.bytes)
        ≡ old_esp =
      load32-store32 (s.current_process + 4) old_esp s.bytes (omega arith) ∙ omega arith in
    elim (Bool-cases (s.current_process == 0)) [
      | inl idle ↦
          let e : s.current_process ≡ 0 = ground arith in rw idle (refl, refl, inl (e, refl, refl))
      | inr busy ↦
          rw (busy, at)
            (
              saved,
              refl,
              inr (ground arith, saved, ap (λ (x : ℕ). set_esp0 (add32 x 68) s.segments) saved),
            )
    ]
