-- ===== src/Boot/Main/Outcome.antt =====
-- What the start of the kernel leaves, however it ends.
use icosaos.Prelude.{
  ℕ, ◌≡◌, ◌⊎◌, refl, ◌∙◌, ap, ◌==◌, ◌&&◌, Bool, true, false, inl, inr, Bool-cases, load32, add32,
  if◌then◌else◌, ok, Ends, ends, Ends-bind, Ends-any, Ends-equation,
}
use icosaos.Disk.{Registers}
use icosaos.Segments.{gdt_init}
use icosaos.Interrupts.{Interrupts, idt_init}
use icosaos.Ports.{init_pic}
use icosaos.Framebuffer.Text.{Font}
use icosaos.Tasks.{Tasks, process_kernel_stack_top, context_size, create_user_process, set_esp0}
use icosaos.UserHeap.{umalloc}
use icosaos.Boot.{Found, scan_tags, launch_isolated_user_process}
use icosaos.Boot.Startup.{Image, Kernel, End, returned, halted, entered, multiboot2_magic}
use icosaos.Boot.Startup.{start_tables, start_paging}
use icosaos.Boot.Startup.Lines.{shown}
use icosaos.Boot.SelfTest.{start_files, self_tests}
use icosaos.Boot.Main.{launch, enter_shell, start_disk, kernel_main}
use icosaos.Boot.Main.Same.{with_log-Same, self_tests-Same, start_files-Same}
use icosaos.Boot.Main.Tables.{
  set_up, Has, Ends-Has, Ends-Has-state, start_tables-Has, start_paging-Has,
}

create_user_process-same :
    (fuel calls entry stack pushed : ℕ) (s : Tasks)
    → Ends
        (λ (r : ℕ × Tasks). (r.1.ports ≡ s.ports) × (r.1.segments ≡ s.segments))
        (create_user_process fuel calls entry stack pushed s)
unfolding create_user_process
create_user_process-same fuel calls entry stack pushed s =
    Ends-bind (Ends-any (umalloc fuel calls _ s.heap))
      (λ proc _. Ends-bind (Ends-any (umalloc fuel calls _ proc.1)) (λ kstack _. ends (refl, refl)))

-- The program on its saved stack.
pub record Launched (s : Tasks) (r : ℕ × Tasks) : Type 0 where
  pub same_ports : r.1.ports ≡ s.ports
  pub saved_stack : load32 (add32 r.1.current_process process_kernel_stack_top) r.1.bytes ≡ r.0
  pub kernel_stack : r.1.segments ≡ set_esp0 (add32 r.0 context_size) s.segments

launch_isolated_user_process-Launched :
    (fuel calls program pushed : ℕ) (s : Tasks)
    → Ends (Launched s) (launch_isolated_user_process fuel calls program pushed s)
unfolding launch_isolated_user_process
launch_isolated_user_process-Launched fuel calls program pushed s =
    Ends-bind (create_user_process-same fuel calls _ _ pushed _)
      (λ proc (same_ports, same_segments). ends (record {
        same_ports = same_ports;
        saved_stack = refl;
        kernel_stack = ap (set_esp0 _) same_segments;
      }))

module _ {fuel calls : ℕ} where
  -- The variables before the search of the tags.
  abbrev pub nothing : Kernel fuel calls → Found
  nothing k = record {
    fb_addr = 0;
    fb_width_local = 0;
    fb_height_local = 0;
    fb_pitch_local = 0;
    fb_bpp_local = 0;
    acpi_rsdp_phys = 0;
    screen = shown k;
  }

  -- The start of the kernel `k` has led to the state `k2`, with paging on.
  pub record Started (font : Font) (image : Image) (mbi_addr : ℕ) (k k2 : Kernel fuel calls)
      : Type 0 where
    pub found : Found
    pub k1 : Kernel fuel calls
    pub scanned :
        scan_tags fuel 8 mbi_addr (load32 mbi_addr k.files.bytes) k.files.bytes (nothing k)
        ≡ ok found
    pub tables :
        start_tables font image mbi_addr
          (record k { log = record (k.log) { screen = found.screen } })
        ≡ ok k1
    pub paging : start_paging font image found k1 ≡ ok (true, k2)

  -- From there on the file system has started with a root directory, and all self tests have passed on the
  -- state that it left.
  pub record Tested (font : Font) (drive : Registers → ℕ → ℕ) (image : Image) (mbi_addr : ℕ)
      (k : Kernel fuel calls) : Type 0 where
    pub k2 : Kernel fuel calls
    pub k3 : Kernel fuel calls
    pub k4 : Kernel fuel calls
    pub root : ℕ
    pub started : Started font image mbi_addr k k2
    pub files : start_files font drive image k2 ≡ ok (root, k3)
    pub not_zero : (root == 0) ≡ false
    pub passed : self_tests font drive image root k3 ≡ ok (true, k4)

  -- No program runs, the interrupt flag is a given one, and the segments are the old ones, or those that
  -- the start sets up.
  pub record Idle (image : Image) (on : Bool) (k k' : Kernel fuel calls) : Type 0 where
    pub flag : k'.interrupts_enabled ≡ on
    pub same_process : k'.tasks.current_process ≡ k.tasks.current_process
    pub segments :
        (k'.tasks.segments ≡ k.tasks.segments)
        ⊎ (k'.tasks.segments
            ≡ gdt_init image.stack_top image.gdt image.gdt_ptr image.tss_entry k.tasks.segments)
    pub same_heap : k'.tasks.heap ≡ k.tasks.heap

  -- The tables are set up, the self tests passed, and the program runs on its saved stack.
  pub record Entered (font : Font) (drive : Registers → ℕ → ℕ) (image : Image) (mbi_addr : ℕ)
      (k : Kernel fuel calls) (top : ℕ) (k' : Kernel fuel calls) : Type 0 where
    pub tested : Tested font drive image mbi_addr k
    pub segments :
        k'.tasks.segments
        ≡ set_esp0
            (add32 top context_size)
            (gdt_init image.stack_top image.gdt image.gdt_ptr image.tss_entry k.tasks.segments)
    pub interrupts : k'.interrupts ≡ idt_init image.stubs image.idt image.idtr k.interrupts
    pub ports : k'.tasks.ports ≡ init_pic k.tasks.ports
    pub enabled : k'.interrupts_enabled ≡ true
    pub saved_stack :
        load32 (add32 k'.tasks.current_process process_kernel_stack_top) k'.tasks.bytes ≡ top

  pub Outcome :
      Font → (Registers → ℕ → ℕ) → Image → ℕ → Kernel fuel calls → End × Kernel fuel calls → Type 0
  Outcome font drive image mbi_addr k (returned, k') = Idle image k.interrupts_enabled k k'
  Outcome font drive image mbi_addr k (halted, k') = Idle image false k k'
  Outcome font drive image mbi_addr k (entered top, k') = Entered font drive image mbi_addr k top k'

  module _ (font : Font) (drive : Registers → ℕ → ℕ) (image : Image) where
    launch-Entered :
        (mbi_addr : ℕ) (k0 k : Kernel fuel calls)
        → Tested font drive image mbi_addr k0
        → Has
            (idt_init image.stubs image.idt image.idtr k0.interrupts)
            (set_up image k0.tasks)
            true
            k
        → Ends (Outcome font drive image mbi_addr k0) (launch font drive image k)
    unfolding launch Outcome
    launch-Entered mbi_addr k0 k tested h =
        Ends-bind (launch_isolated_user_process-Launched fuel calls _ _ _) (λ r launched.
          ends (record {
            tested = tested;
            segments =
                launched.kernel_stack
                ∙ ap (λ (t : Tasks). set_esp0 (add32 r.0 context_size) t.segments) h.tasks;
            interrupts = h.interrupts;
            ports = launched.same_ports ∙ ap (λ (t : Tasks). t.ports) h.tasks;
            enabled = h.interrupts_enabled;
            saved_stack = launched.saved_stack;
          }))

    enter_shell-Entered :
        {on : Bool} (mbi_addr : ℕ) (k0 k : Kernel fuel calls)
        → Tested font drive image mbi_addr k0
        → Has (idt_init image.stubs image.idt image.idtr k0.interrupts) (set_up image k0.tasks) on k
        → Ends (Outcome font drive image mbi_addr k0) (enter_shell font drive image k)
    unfolding enter_shell
    enter_shell-Entered mbi_addr k0 k tested h =
        Ends-bind (Ends-Has k h (with_log-Same _ k)) (λ k1 h1.
          Ends-bind
            (Ends-Has _
              (record { interrupts = h1.interrupts; tasks = h1.tasks; interrupts_enabled = refl })
              (with_log-Same _ _))
            (λ k2 h2. launch-Entered mbi_addr k0 k2 tested h2))

    -- A state that the start leaves without a program is idle.
    Has-Idle :
        {it : Interrupts} {on : Bool} (k0 k : Kernel fuel calls)
        → Has it (set_up image k0.tasks) on k
        → Idle image on k0 k
    Has-Idle k0 k h = record {
      flag = h.interrupts_enabled;
      same_process = ap (λ (t : Tasks). t.current_process) h.tasks;
      segments = inr (ap (λ (t : Tasks). t.segments) h.tasks);
      same_heap = ap (λ (t : Tasks). t.heap) h.tasks;
    }

    start_disk-Outcome :
        (mbi_addr : ℕ) (k0 k : Kernel fuel calls)
        → Started font image mbi_addr k0 k
        → Has
            (idt_init image.stubs image.idt image.idtr k0.interrupts)
            (set_up image k0.tasks)
            k0.interrupts_enabled
            k
        → Ends (Outcome font drive image mbi_addr k0) (start_disk font drive image k)
    unfolding start_disk Outcome
    start_disk-Outcome mbi_addr k0 k started h =
        Ends-bind (Ends-equation (Ends-Has-state k h (start_files-Same font image drive k)))
          (λ (root, k1) (h1, opened). elim (Bool-cases (root == 0)) [
            | inl none_found ↦ rw none_found (ends (Has-Idle k0 k1 h1))
            | inr found ↦ rw found (
                Ends-bind
                  (Ends-equation (Ends-Has-state k1 h1 (self_tests-Same font image drive root k1)))
                  (λ (passed, k2) (h2, ran). elim (Bool-cases passed) [
                    | inl pass ↦
                        let ran_well : self_tests font drive image root k1 ≡ ok (true, k2) =
                          ran ∙ rw pass refl in
                        rw pass (
                          enter_shell-Entered mbi_addr k0 k2
                            (record {
                              k2 = k;
                              k3 = k1;
                              k4 = k2;
                              root = root;
                              started = started;
                              files = opened;
                              not_zero = found;
                              passed = ran_well;
                            })
                            h2)
                    | inr fail ↦ rw fail (ends (Has-Idle k0 k2 h2))
                  ]))
          ])

    -- Whatever the fuel, a start that ends has ended in one of three ways. `kernel_main` returned:
    -- interrupts are as before, and there is no new process. It halted in `panic`: interrupts are off,
    -- and there is no new process. Or it entered the first program: then this start turned paging
    -- on, the file system found a root cluster that is not 0, and the self tests passed on the state it
    -- left; the segments, the gates and the interrupt controllers are set up, interrupts are on, the
    -- program's saved stack is that of the current process, and an interrupt enters the kernel just behind
    -- it.
    pub kernel_main-Outcome :
        (magic mbi_addr : ℕ) (k : Kernel fuel calls)
        → Ends (Outcome font drive image mbi_addr k) (kernel_main font drive image magic mbi_addr k)
    unfolding kernel_main Outcome
    kernel_main-Outcome magic mbi_addr k = elim (Bool-cases (magic == multiboot2_magic)) [
      | inr other ↦ rw other (
          ends (record { flag = refl; same_process = refl; segments = inl refl; same_heap = refl }))
      | inl right ↦ rw right (
          Ends-bind (Ends-equation (Ends-any (scan_tags fuel 8 mbi_addr _ _ _)))
            (λ found (_, scanned).
              Ends-bind
                (Ends-equation (
                  start_tables-Has font image mbi_addr _
                    (record { interrupts = refl; tasks = refl; interrupts_enabled = refl })))
                (λ k1 (h1, tables).
                  Ends-bind (Ends-equation (start_paging-Has font image found k1 h1))
                    (λ (up, k2) (h2, paging). after found k1 up k2 scanned tables paging h2))))
    ]
      where
        after :
            (found : Found) (k1 : Kernel fuel calls) (up : Bool) (k2 : Kernel fuel calls)
            → scan_tags fuel 8 mbi_addr (load32 mbi_addr k.files.bytes) k.files.bytes (nothing k)
              ≡ ok found
            → start_tables font image mbi_addr
                (record k { log = record (k.log) { screen = found.screen } })
              ≡ ok k1
            → start_paging font image found k1 ≡ ok (up, k2)
            → Has
                (idt_init image.stubs image.idt image.idtr k.interrupts)
                (set_up image k.tasks)
                (up && k.interrupts_enabled)
                k2
            → Ends
                (Outcome font drive image mbi_addr k)
                (if up then start_disk font drive image k2 else ok (halted, k2))
        after found k1 true k2 scanned tables paging h2 =
            start_disk-Outcome mbi_addr k k2
              (record {
                found = found;
                k1 = k1;
                scanned = scanned;
                tables = tables;
                paging = paging;
              })
              h2
        after found k1 false k2 scanned tables paging h2 = ends (Has-Idle k k2 h2)
