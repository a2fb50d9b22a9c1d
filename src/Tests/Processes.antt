-- ===== src/Tests/Processes.antt =====
-- A heap with one free block, a running process, and a bitmap that is all used.
use icosaos.Tests.Tables.{empty_segments}
use icosaos.Tasks.{set_esp0}
use icosaos.Prelude.{◌+◌, ◌<◌, ◌≡◌, ◌⊎◌, inl, refl, arith, true, load32, add32, [], ◌∷◌, ok}
use icosaos.Heap.{Heap, Header}
use icosaos.UserHeap.{user_pages, umalloc}
use icosaos.Tasks.{Tasks, c_scheduler_handler, create_user_process}
use icosaos.Tasks.Frame.{WordsAt, context, create_user_process-context, c_scheduler_handler-resumes}
use icosaos.Tests.Pages.{machine}

abbrev pub heap : Heap user_pages
heap = record {
  headers = λ a. record { size = 32756; is_free = true; next = 0 };
  start = 0x50000000;
  current_end = 0x50008000;
  sys = machine;
}

abbrev pub tasks : Tasks
tasks = record {
  heap = heap;
  bytes = λ a. 0;
  current_process = 0x5000;
  segments = empty_segments;
  ports = [];
}

c_scheduler_handler-resumes_example :
    ((c_scheduler_handler 0x7000 tasks).0 ≡ 0x7000)
    × ((c_scheduler_handler 0x7000 tasks).1.ports ≡ (0x20, 0x20) ∷ [])
    × (((tasks.current_process ≡ 0)
          × ((c_scheduler_handler 0x7000 tasks).1.bytes ≡ tasks.bytes)
          × ((c_scheduler_handler 0x7000 tasks).1.segments ≡ empty_segments))
        ⊎ ((0 < tasks.current_process)
            × (load32 0x5004 (c_scheduler_handler 0x7000 tasks).1.bytes ≡ 0x7000)
            × ((c_scheduler_handler 0x7000 tasks).1.segments
                ≡ set_esp0 (add32 0x7000 68) empty_segments)))
c_scheduler_handler-resumes_example =
    c_scheduler_handler-resumes 0x7000 tasks (omega arith) (omega arith)

create_user_process-context_example :
    (s' : Tasks) × (create_user_process 5 2 0x40000000 0xBFFFF000 0 tasks ≡ ok (0x5000000C, s'))
    × (load32 0x5000000C s'.bytes ≡ 1)
    × (load32 0x50000010 s'.bytes ≡ 0x50000020 + 16316)
    × WordsAt s'.bytes (0x50000020 + 16316) (context 0x40000000 0xBFFFF000 0)
unfolding umalloc icosaos.Heap.malloc icosaos.Heap.place icosaos.Heap.search icosaos.Heap.take_block
    icosaos.Tasks.frame
create_user_process-context_example =
    create_user_process-context 5 2 0x40000000 0xBFFFF000 0 0x5000000C 0x50000020 tasks _ _
      (
        omega arith,
        (
          omega arith,
          (
            omega arith,
            (
              omega arith,
              (
                omega arith,
                (
                  omega arith,
                  (
                    omega arith,
                    (
                      omega arith,
                      (
                        omega arith,
                        (
                          omega arith,
                          (
                            omega arith,
                            (
                              omega arith,
                              (
                                omega arith,
                                (omega arith, (omega arith, (omega arith, (omega arith, tt)))),
                              ),
                            ),
                          ),
                        ),
                      ),
                    ),
                  ),
                ),
              ),
            ),
          ),
        ),
      )
      refl refl (omega arith) (omega arith) (inl (omega arith))
