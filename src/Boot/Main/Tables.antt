-- ===== src/Boot/Main/Tables.antt =====
-- What the phases of the start before the disk do to the tables of the processor.
use icosaos.Prelude.{
  ℕ, ◌≡◌, refl, ◌∙◌, ap, ◌&&◌, Bool, false, List, Run, Ends, ends, Ends-bind, Ends-any, Ends-mono,
}
use icosaos.Segments.{gdt_init}
use icosaos.Interrupts.{Interrupts, idt_init}
use icosaos.Ports.{init_pic}
use icosaos.Memory.Startup.{init_bitmap_allocator}
use icosaos.Paging.{Started, running, panicked, init_paging}
use icosaos.Framebuffer.Text.{Font}
use icosaos.Klog.{log_success}
use icosaos.Tasks.{Tasks}
use icosaos.Boot.{Found}
use icosaos.Boot.Startup.{
  paging_started, Image, Kernel, logged, set_segments, set_interrupts, set_ports, clear_screen,
  start_frames, start_tables, start_paging,
}
use icosaos.Boot.Main.Same.{Same, with_log-Same, state, set_status-Same, info_line-Same}

-- The segments and the interrupt controllers as the start sets them up.
abbrev pub set_up : Image → Tasks → Tasks
set_up image ts = record ts {
  segments = gdt_init image.stack_top image.gdt image.gdt_ptr image.tss_entry ts.segments;
  ports = init_pic ts.ports;
}

module _ {fuel calls : ℕ} where
  -- The tables of the processor, the tasks and the interrupt flag of a state.
  pub record Has (it : Interrupts) (ts : Tasks) (on : Bool) (k : Kernel fuel calls) : Type 0 where
    pub interrupts : k.interrupts ≡ it
    pub tasks : k.tasks ≡ ts
    pub interrupts_enabled : k.interrupts_enabled ≡ on

  module _ {it : Interrupts} {ts : Tasks} {on : Bool} where
    pub Has-Same : (k k' : Kernel fuel calls) → Has it ts on k → Same k k' → Has it ts on k'
    Has-Same k k' h s = record {
      interrupts = s.interrupts ∙ h.interrupts;
      tasks = s.tasks ∙ h.tasks;
      interrupts_enabled = s.interrupts_enabled ∙ h.interrupts_enabled;
    }

    pub Ends-Has :
        (k : Kernel fuel calls) {r : Run (Kernel fuel calls)}
        → Has it ts on k
        → Ends (Same k) r
        → Ends (Has it ts on) r
    Ends-Has k h e = Ends-mono e (λ k' s. Has-Same k k' h s)

    pub Ends-Has-state :
        {B : Type 0} (k : Kernel fuel calls) {r : Run (B × Kernel fuel calls)}
        → Has it ts on k
        → Ends (λ b. Same k (state b)) r
        → Ends (λ b. Has it ts on (state b)) r
    Ends-Has-state k h e = Ends-mono e (λ b s. Has-Same k (state b) h s)

module _ {fuel calls : ℕ} (font : Font) (image : Image) where
  module _ {it : Interrupts} {ts : Tasks} {on : Bool} where
    -- A logged change of these.
    logged-Has :
        {it' : Interrupts} {ts' : Tasks} {on' : Bool} (message : List ℕ)
        (change : Kernel fuel calls → Kernel fuel calls) (k : Kernel fuel calls)
        → ((k : Kernel fuel calls) → Has it ts on k → Has it' ts' on' (change k))
        → Has it ts on k
        → Ends (Has it' ts' on') (logged font image message change k)
    unfolding logged
    logged-Has message change k changes h =
        Ends-bind (Ends-Has k h (info_line-Same font image message k)) (λ k1 h1.
          Ends-Has (change k1) (changes k1 h1) (set_status-Same font image log_success (change k1)))

    start_frames-Has :
        (mbi_addr : ℕ) (k : Kernel fuel calls)
        → Has it ts on k
        → Ends (Has it ts on) (start_frames font image mbi_addr k)
    unfolding start_frames
    start_frames-Has mbi_addr k h =
        Ends-bind (Ends-Has k h (info_line-Same font image _ k)) (λ k1 h1.
          Ends-bind (Ends-any (init_bitmap_allocator fuel mbi_addr image.kernel_end _ _))
            (λ frames _.
              Ends-Has _
                (record {
                  interrupts = h1.interrupts;
                  tasks = h1.tasks;
                  interrupts_enabled = h1.interrupts_enabled;
                })
                (set_status-Same font image log_success _)))

  -- The tables of the processor and the masks of the interrupt controllers are set.
  pub start_tables-Has :
      {it : Interrupts} {ts : Tasks} {on : Bool} (mbi_addr : ℕ) (k : Kernel fuel calls)
      → Has it ts on k
      → Ends
          (Has (idt_init image.stubs image.idt image.idtr it) (set_up image ts) on)
          (start_tables font image mbi_addr k)
  unfolding start_tables clear_screen set_segments set_interrupts set_ports
  start_tables-Has mbi_addr k h =
      Ends-bind
        (Ends-bind
          (Ends-bind
            (Ends-bind (Ends-Has k h (with_log-Same _ k)) (λ k0.
              logged-Has _ (set_segments font image) k0 (λ k h. record {
                interrupts = h.interrupts;
                tasks =
                    ap
                      (λ (t : Tasks). record t {
                        segments =
                            gdt_init image.stack_top image.gdt image.gdt_ptr image.tss_entry
                              t.segments;
                      })
                      h.tasks;
                interrupts_enabled = h.interrupts_enabled;
              })))
            (λ k1. logged-Has _ (set_interrupts font image) k1 (λ k h. record {
              interrupts = ap (idt_init image.stubs image.idt image.idtr) h.interrupts;
              tasks = h.tasks;
              interrupts_enabled = h.interrupts_enabled;
            })))
          (λ k2. logged-Has _ (set_ports font image) k2 (λ k h. record {
            interrupts = h.interrupts;
            tasks = ap (λ (t : Tasks). record t { ports = init_pic t.ports }) h.tasks;
            interrupts_enabled = h.interrupts_enabled;
          })))
        (λ k3. start_frames-Has mbi_addr k3)

  paging_started-Has :
      {it : Interrupts} {ts : Tasks} {on : Bool} (k : Kernel fuel calls) (started : Started)
      → Has it ts on k
      → Ends (λ r. Has it ts (r.0 && on) (state r)) (paging_started font image k started)
  unfolding paging_started
  paging_started-Has k (running m) h =
      let mapped : Kernel fuel calls = record k {
        files = record (k.files) { heap = record (k.files.heap) { sys = m } };
      } in
      let same : Has _ _ _ mapped = record {
        interrupts = h.interrupts;
        tasks = h.tasks;
        interrupts_enabled = h.interrupts_enabled;
      } in
      Ends-bind (Ends-Has mapped same (set_status-Same font image log_success mapped))
        (λ k' h'. ends h')
  paging_started-Has k panicked h =
      let stopped : Kernel fuel calls = record k { interrupts_enabled = false } in
      let same : Has _ _ false stopped = record {
        interrupts = h.interrupts;
        tasks = h.tasks;
        interrupts_enabled = refl;
      } in
      Ends-bind (Ends-Has stopped same (with_log-Same _ stopped)) (λ k' h'. ends h')

  pub start_paging-Has :
      {it : Interrupts} {ts : Tasks} {on : Bool} (found : Found) (k : Kernel fuel calls)
      → Has it ts on k
      → Ends (λ r. Has it ts (r.0 && on) (state r)) (start_paging font image found k)
  unfolding start_paging
  start_paging-Has found k h = Ends-bind (Ends-Has k h (info_line-Same font image _ k)) (λ k1 h1.
      Ends-bind (Ends-any (init_paging fuel found.fb_addr _ _ k1.files.heap.sys))
        (λ started _. paging_started-Has k1 started h1))
