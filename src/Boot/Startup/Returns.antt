-- ===== src/Boot/Startup/Returns.antt =====
-- The start of the components before paging ends.
use icosaos.Prelude.{
  ℕ, ◌+◌, ◌*◌, ◌≤◌, ◌<◌, ◌^◌, ◌≡◌, ◌⊎◌, ◌∙◌, refl, arith, true, List, codes, size_of, add32, ok,
}
use icosaos.Memory.{Allocator}
use icosaos.Memory.Startup.Walk.{Tags, entries}
use icosaos.Memory.Startup.Frees.{Low, Starts, init_bitmap_allocator-Starts}
use icosaos.Framebuffer.{Screen, vga_clear_screen}
use icosaos.Framebuffer.Fill.{vga_clear_screen-Draws}
use icosaos.Handlers.Screens.{vga_clear_screen-IsKept}
use icosaos.Framebuffer.Text.{Font}
use icosaos.Framebuffer.Text.Kept.{IsKept, IsKept-after}
use icosaos.Framebuffer.Text.Print.{StringAt-IsKept}
use icosaos.Klog.{klog_init, log_success}
use icosaos.Boot.Startup.{
  Image, Kernel, vga_white, vga_black, with_log, clear_screen, start_tables, logged, set_segments,
  set_interrupts, set_ports, start_frames,
}
use icosaos.Boot.Startup.Lines.{
  shown, with_screen, IsFresh, Stands, is_plain, info_line-returns, set_status-returns,
}

-- `n` tags stand behind the head of the boot information, and what is available is below 4 GiB.
abbrev pub SoundMap : ℕ → ℕ → (ℕ → ℕ) → Type 0
SoundMap n mbi_addr b = Tags b n (add32 mbi_addr 8) × Low b (entries b n (add32 mbi_addr 8))

module _ {fuel calls : ℕ} where
  -- A step that leaves a console ready for the next line, and memory around the framebuffer as it was.
  pub record Steps (k k' : Kernel fuel calls) : Type 0 where
    pub fresh : IsFresh k'
    pub kept : IsKept (shown k) (shown k')

  pub Steps-after : (k k' k'' : Kernel fuel calls) → Steps k k' → Steps k' k'' → Steps k k''
  Steps-after k k' k'' s s' = record {
    fresh = s'.fresh;
    kept = IsKept-after (shown k) (shown k') (shown k'') s.kept s'.kept;
  }

  pub Stands-Steps :
      (image : Image) (k k' : Kernel fuel calls) (cs : List ℕ)
      → Steps k k'
      → Stands image k cs
      → Stands image k' cs
  Stands-Steps image k k' cs s at =
      StringAt-IsKept (shown k) (shown k') (image.literal cs) cs s.kept at

  -- A memory that differs from the kernel's in the framebuffer only.
  abbrev pub AroundSame : Kernel fuel calls → (ℕ → ℕ) → Type 0
  AroundSame k b =
      (a : ℕ)
      → (a < k.log.screen.mode.framebuffer)
        ⊎ (k.log.screen.mode.framebuffer + k.log.screen.mode.height * k.log.screen.mode.pitch ≤ a)
      → b a ≡ k.files.bytes a

  pub AroundSame-Steps :
      (k k' : Kernel fuel calls) (b : ℕ → ℕ) → Steps k k' → AroundSame k' b → AroundSame k b
  AroundSame-Steps k k' b s around a out = around a (rw s.kept.same_mode out) ∙ s.kept.memory a out

  abbrev pub with_colors : Kernel fuel calls → Kernel fuel calls
  with_colors k = record k {
    log = record (k.log) { default_fg = vga_white; default_bg = vga_black };
  }

  abbrev pub with_frames : Allocator → Kernel fuel calls → Kernel fuel calls
  with_frames a k = record k {
    files = record (k.files) {
      heap = record (k.files.heap) { sys = record (k.files.heap.sys) { frames = a } };
    };
  }

  module _ (font : Font) (image : Image) (enough : 85 ≤ fuel) where
    -- A line of the log around a change of the state that leaves the console alone.
    line-returns :
        (message : List ℕ) (change : Kernel fuel calls → Kernel fuel calls) (k : Kernel fuel calls)
        → IsFresh k
        → Stands image k message
        → is_plain message ≡ true
        → size_of message ≤ 84
        → ((s : Screen) → change (with_screen s k) ≡ with_screen s (change k))
        → (s : Screen) × (logged font image message change k ≡ ok (with_screen s (change k)))
          × Steps k (with_screen s (change k))
    unfolding logged
    line-returns message change k fresh stands plain short commutes =
        let (s1, e1, m1) = info_line-returns font image message k fresh stands plain short enough in
        let k1 : Kernel fuel calls = with_screen s1 (change k) in
        let wide = fresh.wide in
        let (s2, e2, kept, x2) =
          set_status-returns font image log_success k1 m1.kept.ready (rw m1.at_x (omega arith))
            (rw m1.at_x (omega arith)) (rw m1.kept.same_mode wide) enough in
        let all_kept = IsKept-after (shown k) s1 s2 m1.kept kept in
        (
          s2,
          rw (e1, commutes s1, e2) refl,
          record {
            fresh = record { ready = kept.ready; at_start = x2; wide = rw all_kept.same_mode wide };
            kept = all_kept;
          },
        )

    -- The frames: the boot information is sound in every memory that differs in the framebuffer only.
    start_frames-returns :
        (n mbi_addr : ℕ) (k : Kernel fuel calls)
        → IsFresh k
        → Stands image k (codes "Initializing system allocator...")
        → ((b : ℕ → ℕ) → AroundSame k b → SoundMap n mbi_addr b)
        → n < fuel
        → 2 ^ 20 < fuel
        → (s : Screen) × (a : Allocator) × (b : ℕ → ℕ) × (start_frames font image mbi_addr k
            ≡ ok (with_screen s (with_frames a k)))
          × Steps k (with_screen s (with_frames a k))
          × AroundSame k b
          × Starts b (entries b n (add32 mbi_addr 8)) image.kernel_end a
    unfolding start_frames
    start_frames-returns n mbi_addr k fresh stands sound short long =
        let message = codes "Initializing system allocator..." in
        let (s1, e1, m1) =
          info_line-returns font image message k fresh stands refl (omega arith) enough in
        let ready1 = m1.kept.ready in
        let around : AroundSame k s1.bytes = m1.kept.memory in
        let (tags, low) = sound s1.bytes around in
        let (a, e, starts) =
          init_bitmap_allocator-Starts n fuel mbi_addr image.kernel_end s1.bytes
            (λ i. s1.bytes (add32 image.kernel_end i)) tags low (λ i. ready1.all _) short long in
        let k1 : Kernel fuel calls = with_screen s1 (with_frames a k) in
        let wide = fresh.wide in
        let (s2, e2, kept, x2) =
          set_status-returns font image log_success k1 ready1 (rw m1.at_x (omega arith))
            (rw m1.at_x (omega arith)) (rw m1.kept.same_mode wide) enough in
        let all_kept = IsKept-after (shown k) s1 s2 m1.kept kept in
        (
          s2,
          a,
          s1.bytes,
          rw (e1, e, e2) refl,
          record {
            fresh = record { ready = kept.ready; at_start = x2; wide = rw all_kept.same_mode wide };
            kept = all_kept;
          },
          around,
          starts,
        )

  -- What `start_tables` has changed, but for the console and the frames.
  abbrev pub with_tables : Font → Image → Kernel fuel calls → Kernel fuel calls
  with_tables font image k =
      set_ports font image (set_interrupts font image (set_segments font image (with_colors k)))

  clear_screen-returns :
      (font : Font) (image : Image) (k : Kernel fuel calls)
      → IsFresh k
      → (s : Screen) × (clear_screen font image k ≡ ok (with_screen s (with_colors k)))
        × Steps k (with_screen s (with_colors k))
  unfolding clear_screen with_log klog_init
  clear_screen-returns font image k fresh =
      let kept = vga_clear_screen-IsKept vga_black (shown k) fresh.ready in
      let wide = fresh.wide in
      let (_, at_x, _) = vga_clear_screen-Draws vga_black (shown k) (fresh.ready).sound in
      (
        vga_clear_screen vga_black (shown k),
        refl,
        record {
          fresh = record {
            ready = kept.ready;
            at_start = at_x ∙ fresh.at_start;
            wide = rw kept.same_mode wide;
          };
          kept = kept;
        },
      )

  -- Where the console is ready, at the start of a line, the four messages stand in memory, and the boot
  -- information lies outside the framebuffer, has `n` tags and only available memory below 4 GiB,
  -- `start_tables` ends, given more rounds than tags and than 2 ^ 20: the screen is cleared and ready for
  -- the next line, the tables of the processor and the masks of the interrupt controllers are set, the
  -- frames are those of the boot information without page 0, the kernel and the bitmap, and memory
  -- around the framebuffer is as it was.
  pub start_tables-returns :
      (font : Font) (image : Image) (n mbi_addr : ℕ) (k : Kernel fuel calls)
      → IsFresh k
      → Stands image k (codes "Initializing GDT...")
      → Stands image k (codes "Initializing IDT...")
      → Stands image k (codes "Initializing PIC...")
      → Stands image k (codes "Initializing system allocator...")
      → ((b : ℕ → ℕ) → AroundSame k b → SoundMap n mbi_addr b)
      → n < fuel
      → 2 ^ 20 < fuel
      → (s : Screen) × (a : Allocator) × (b : ℕ → ℕ) × (start_tables font image mbi_addr k
          ≡ ok (with_screen s (with_frames a (with_tables font image k))))
        × Steps k (with_screen s (with_frames a (with_tables font image k)))
        × AroundSame k b
        × Starts b (entries b n (add32 mbi_addr 8)) image.kernel_end a
  unfolding start_tables set_segments set_interrupts set_ports
  start_tables-returns font image n mbi_addr k fresh gdt idt pic alloc sound short long =
      let enough : 85 ≤ fuel = omega arith in
      let (s0, e0, st0) = clear_screen-returns font image k fresh in
      let k0 : Kernel fuel calls = with_screen s0 (with_colors k) in
      let (s1, e1, st1) =
        line-returns font image enough (codes "Initializing GDT...") (set_segments font image) k0
          st0.fresh (Stands-Steps image k k0 (codes "Initializing GDT...") st0 gdt) refl
          (omega arith) (λ s. refl) in
      let k1 : Kernel fuel calls = with_screen s1 (set_segments font image k0) in
      let st01 = Steps-after k k0 k1 st0 st1 in
      let (s2, e2, st2) =
        line-returns font image enough (codes "Initializing IDT...") (set_interrupts font image) k1
          st1.fresh (Stands-Steps image k k1 (codes "Initializing IDT...") st01 idt) refl
          (omega arith) (λ s. refl) in
      let k2 : Kernel fuel calls = with_screen s2 (set_interrupts font image k1) in
      let st02 = Steps-after k k1 k2 st01 st2 in
      let (s3, e3, st3) =
        line-returns font image enough (codes "Initializing PIC...") (set_ports font image) k2
          st2.fresh (Stands-Steps image k k2 (codes "Initializing PIC...") st02 pic) refl
          (omega arith) (λ s. refl) in
      let k3 : Kernel fuel calls = with_screen s3 (set_ports font image k2) in
      let st03 = Steps-after k k2 k3 st02 st3 in
      let (s4, a, b, e4, st4, around, starts) =
        start_frames-returns font image enough n mbi_addr k3 st3.fresh
          (Stands-Steps image k k3 (codes "Initializing system allocator...") st03 alloc)
          (λ b around. sound b (AroundSame-Steps k k3 b st03 around)) short long in
      (
        s4,
        a,
        b,
        rw (e0, e1, e2, e3, e4) refl,
        Steps-after k k3 _ st03 st4,
        AroundSame-Steps k k3 b st03 around,
        starts,
      )
