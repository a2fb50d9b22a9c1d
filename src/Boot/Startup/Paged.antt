-- ===== src/Boot/Startup/Paged.antt =====
-- `start_paging` turns paging on, or halts because no frame is left.
use icosaos.Prelude.{
  ℕ, zero, suc, ◌+◌, ◌*◌, ◌^◌, ◌≤◌, ◌<◌, ◌≡◌, ◌⊎◌, refl, arith, true, false, inl, inr, codes, ok,
}
use icosaos.Memory.Spec as Frames
use icosaos.Memory.Spec.{used, managed}
use icosaos.Paging.{Machine, running, panicked, init_paging}
use icosaos.Paging.Start.{Covers, KeepsAddresses, init_paging-KeepsAddresses}
use icosaos.Framebuffer.{Screen}
use icosaos.Framebuffer.Text.{Font}
use icosaos.Framebuffer.Text.Kept.{IsKept-after}
use icosaos.Klog.{log_success}
use icosaos.Boot.{Found}
use icosaos.Boot.Startup.{Image, Kernel, with_log, paging_started, start_paging}
use icosaos.Boot.Startup.Lines.{
  shown, with_screen, IsFresh, Stands, info_line-returns, set_status-returns,
}
use icosaos.Boot.Startup.Returns.{Steps}

module _ {fuel calls : ℕ} where
  abbrev pub with_machine : Machine → Kernel fuel calls → Kernel fuel calls
  with_machine m k = record k {
    files = record (k.files) { heap = record (k.files.heap) { sys = m } };
  }

  -- Paging is on, and the console is ready for the next line.
  pub record Paged (found : Found) (k : Kernel fuel calls) (m : Machine) (s : Screen) : Type 0 where
    pub keeps : KeepsAddresses found.fb_addr (found.fb_pitch_local * found.fb_height_local) m
    pub covers :
        (found.fb_addr ≡ 0) ⊎ Covers found.fb_addr (found.fb_pitch_local * found.fb_height_local) m
    pub steps : Steps k (with_screen s (with_machine m k))

  paged :
      (found : Found) (k : Kernel fuel calls)
      → Frames.IsValid k.files.heap.sys.frames
      → found.fb_addr + found.fb_pitch_local * found.fb_height_local ≤ 2 ^ 32
      → found.fb_pitch_local * found.fb_height_local + 4096 ≤ 2 ^ 32
      → 2 ^ 20 < fuel
      → ((q : ℕ) → q < managed k.files.heap.sys.frames → used k.files.heap.sys.frames q ≡ true)
          × (init_paging fuel found.fb_addr found.fb_pitch_local found.fb_height_local
                k.files.heap.sys
              ≡ ok panicked)
        ⊎ ((m : Machine) × (init_paging fuel found.fb_addr found.fb_pitch_local
                found.fb_height_local k.files.heap.sys
              ≡ ok (running m))
            × KeepsAddresses found.fb_addr (found.fb_pitch_local * found.fb_height_local) m
            × ((found.fb_addr ≡ 0)
                ⊎ Covers found.fb_addr (found.fb_pitch_local * found.fb_height_local) m))
  paged found k valid room small long = of_fuel fuel long
    where
      of_fuel :
          (f : ℕ)
          → 2 ^ 20 < f
          → ((q : ℕ) → q < managed k.files.heap.sys.frames → used k.files.heap.sys.frames q ≡ true)
              × (init_paging f found.fb_addr found.fb_pitch_local found.fb_height_local
                    k.files.heap.sys
                  ≡ ok panicked)
            ⊎ ((m : Machine) × (init_paging f found.fb_addr found.fb_pitch_local
                    found.fb_height_local k.files.heap.sys
                  ≡ ok (running m))
                × KeepsAddresses found.fb_addr (found.fb_pitch_local * found.fb_height_local) m
                × ((found.fb_addr ≡ 0)
                    ⊎ Covers found.fb_addr (found.fb_pitch_local * found.fb_height_local) m))
      of_fuel zero h = absurd (omega arith)
      of_fuel (suc f) h =
          init_paging-KeepsAddresses f found.fb_addr found.fb_pitch_local found.fb_height_local
            k.files.heap.sys valid room small (omega arith)

  panicked-halts :
      (font : Font) (image : Image) (k : Kernel fuel calls)
      → (k' : Kernel fuel calls) × (paging_started font image k panicked ≡ ok (false, k'))
        × (k'.interrupts_enabled ≡ false)
  unfolding paging_started with_log
  panicked-halts font image k = (_, refl, refl)

  -- Where the frames are well-formed, the framebuffer lies within 32 bits and there are more rounds than
  -- 2 ^ 20, `start_paging` halts with interrupts off, and then no frame was left, or it goes on with page
  -- tables that keep addresses and map the framebuffer, unless it is at 0 or no frame is left, and the screen ready for the next line.
  pub start_paging-returns :
      (font : Font) (image : Image) (found : Found) (k : Kernel fuel calls)
      → IsFresh k
      → Stands image k (codes "Initalizing paging...")
      → Frames.IsValid k.files.heap.sys.frames
      → found.fb_addr + found.fb_pitch_local * found.fb_height_local ≤ 2 ^ 32
      → found.fb_pitch_local * found.fb_height_local + 4096 ≤ 2 ^ 32
      → 2 ^ 20 < fuel
      → ((k' : Kernel fuel calls) × (start_paging font image found k ≡ ok (false, k'))
          × (k'.interrupts_enabled ≡ false)
          × ((q : ℕ) → q < managed k.files.heap.sys.frames → used k.files.heap.sys.frames q ≡ true))
        ⊎ ((m : Machine) × (s : Screen) × (start_paging font image found k
              ≡ ok (true, with_screen s (with_machine m k)))
            × Paged found k m s)
  unfolding start_paging paging_started with_log
  start_paging-returns font image found k fresh stands valid room small long =
      let enough : 85 ≤ fuel = omega arith in
      let (s1, e1, m1) =
        info_line-returns font image (codes "Initalizing paging...") k fresh stands refl
          (omega arith) enough in
      elim (paged found k valid room small long) [
        | inl (all, e) ↦
            let (k', e3, off) = panicked-halts font image (with_screen s1 k) in
            inl (k', rw (e1, e) e3, off, all)
        | inr (m, e, keeps, covers) ↦
            let k1 : Kernel fuel calls = with_screen s1 (with_machine m k) in
            let wide = fresh.wide in
            let (s2, e2, kept, x2) =
              set_status-returns font image log_success k1 m1.kept.ready (rw m1.at_x (omega arith))
                (rw m1.at_x (omega arith)) (rw m1.kept.same_mode wide) enough in
            let all_kept = IsKept-after (shown k) s1 s2 m1.kept kept in
            inr (
              m,
              s2,
              rw (e1, e, e2) refl,
              record {
                keeps = keeps;
                covers = covers;
                steps = record {
                  fresh = record {
                    ready = kept.ready;
                    at_start = x2;
                    wide = rw all_kept.same_mode wide;
                  };
                  kept = all_kept;
                };
              },
            )
      ]
