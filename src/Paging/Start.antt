-- ===== src/Paging/Start.antt =====
-- `init_paging` maps addresses to themselves, for the kernel only.
use icosaos.Prelude.{
  ℕ, zero, suc, ◌+◌, ◌*◌, ◌/◌, ◌%◌, ◌^◌, ◌≤◌, ◌<◌, ◌≡◌, refl, ap, ◌∙◌, ◌⊎◌, inl, inr, Bool, true,
  false, Option, none, some, Option-cases, bit_and, bit_or, ◌==◌, leb, ltb, arith, Bool-cases,
  update, add32, mul32, ok,
}
use mathlib.Core.Path.{subst}
use icosaos.Prelude.Bits.{or-frame, or-entry}
use icosaos.Memory.{Allocator, null, alloc_page}
use icosaos.Memory.Spec as Frames
use icosaos.Memory.Spec.{used, managed}
use icosaos.Memory.Pages.{Takes, alloc_page-lowest}
use icosaos.Paging.{
  Machine, running, panicked, pd_index, pt_index, frame_of, is_present, table_for, map_page,
  identity_table, map_framebuffer, init_paging, page_present, page_user,
}
use icosaos.Paging.Entries.{pt_index-mod, frame_of-div, is_present-mod}
use icosaos.Paging.Spec.{translate, IsValid}
use icosaos.Paging.Tables.{Found, table_for-Found}
use icosaos.Paging.Map.{map_page-Maps}

-- A frame, present and writable.
or_flags : (x : ℕ) → bit_or (bit_or (x * 4096) 1) 2 ≡ x * 4096 + 3
or_flags x = rw (or-frame x 1 (omega arith)) (or-entry x 1 2 (omega arith) (omega arith))

identity_table-outside :
    (n i table a : ℕ) (words : ℕ → ℕ)
    → (a < table + 4 * i) ⊎ (table + 4 * (i + n) ≤ a)
    → identity_table n i table words a ≡ words a
unfolding identity_table
identity_table-outside zero i table a words out = refl
identity_table-outside (suc n) i table a words out =
    identity_table-outside n (i + 1) table a _ (ground arith) ∙ ground arith

identity_table-inside :
    (n i table j : ℕ) (words : ℕ → ℕ)
    → i ≤ j
    → j < i + n
    → j < 2 ^ 20
    → identity_table n i table words (table + 4 * j) ≡ j * 4096 + 3
unfolding identity_table
identity_table-inside zero i table j words ge lt low = absurd (omega arith)
identity_table-inside (suc n) i table j words ge lt low = elim (Bool-cases (leb (i + 1) j)) [
  | inl later ↦ identity_table-inside n (i + 1) table j _ (ground arith) (omega arith) low
  | inr now ↦
      let e : i ≡ j = ground arith in
      let exact : mul32 j 4096 ≡ j * 4096 = omega arith in
      identity_table-outside n (i + 1) table (table + 4 * j) _ (inl (ground arith))
      ∙ rw (e, exact) (ground (arith, or_flags j))
]

-- Where there is neither a table nor a frame for one, `map_page` changes nothing.
map_page-refused :
    (virt phys flags : ℕ) (m : Machine)
    → IsValid m
    → (map_page virt phys flags m).0 ≡ false
    → (map_page virt phys flags m).1 ≡ m
unfolding map_page
map_page-refused virt phys flags m v h = elim (Option-cases (table_for (pd_index virt) flags m)) [
  | inr (r, found) ↦ let bad : true ≡ false = rw (found, map_page) at h in absurd (cc)
  | inl nothing ↦
      let (absent, full) =
        subst (Found m (pd_index virt) flags) nothing (table_for-Found m (pd_index virt) flags v) in
      elim (alloc_page-lowest m.frames v.frames) [
        | inl (e, all) ↦ rw (nothing, map_page) (rw e refl)
        | inr (p, lt, free, takes, lower, sound) ↦ absurd (takes.not_null full)
      ]
]

-- A machine whose translations keep every address: all below 4 MiB, and else only of the pages from
-- that of `fb` to that of the last of `total` bytes from there on.
pub record KeepsAddresses (fb total : ℕ) (m : Machine) : Type 0 where
  pub valid : IsValid m
  pub low : (w : ℕ) → w < 2 ^ 22 → translate m w ≡ some (w / 4096 * 4096 + 3)
  pub high :
      (w : ℕ)
      → 2 ^ 22 ≤ w
      → (translate m w ≡ none)
        ⊎ ((translate m w ≡ some (w / 4096 * 4096 + 3))
            × (fb / 4096 ≤ w / 4096)
            × (w / 4096 ≤ (fb + total) / 4096))

-- No frame is left.
abbrev pub Full : Machine → Type 0
Full m = (q : ℕ) → q < managed m.frames → used m.frames q ≡ true

-- The first pages, `total` bytes of them, from that of `fb` on are translated to themselves, or no frame
-- is left.
abbrev pub Covers : ℕ → ℕ → Machine → Type 0
Covers fb total m =
    ((w : ℕ)
      → fb / 4096 ≤ w / 4096
      → w / 4096 * 4096 < fb / 4096 * 4096 + total
      → translate m w ≡ some (w / 4096 * 4096 + 3))
    ⊎ Full m

-- Without a free frame no frame is taken.
abbrev KeepsFrames : Machine → Option (ℕ × Machine) → Type 0
KeepsFrames m none = Unit {0}
KeepsFrames m (some (table, m')) = m'.frames ≡ m.frames

table_for-full :
    (pd flags : ℕ) (m : Machine)
    → alloc_page m.frames ≡ (null, m.frames)
    → KeepsFrames m (table_for pd flags m)
unfolding table_for
table_for-full pd flags m none_left =
    elim (Bool-cases (bit_and (m.directory pd) page_present == 0)) [
      | inl absent ↦ rw (absent, none_left) tt
      | inr present ↦ elim (Bool-cases (bit_and flags page_user == 0)) [
        | inl kernel ↦ rw (present, kernel) refl
        | inr user ↦ rw (present, user) refl
      ]
    ]

map_page-full :
    (virt phys flags : ℕ) (m : Machine)
    → alloc_page m.frames ≡ (null, m.frames)
    → (map_page virt phys flags m).1.frames ≡ m.frames
unfolding map_page
map_page-full virt phys flags m none_left =
    elim (Option-cases (table_for (pd_index virt) flags m)) [
      | inl nothing ↦ rw (nothing, map_page) (rw none_left refl)
      | inr (r, found) ↦
          let same : r.1.frames ≡ m.frames =
            subst (KeepsFrames m) found (table_for-full (pd_index virt) flags m none_left) in
          rw (found, map_page) same
    ]

-- One more page of the framebuffer.
Covers-map_page :
    (fb offset : ℕ) (m : Machine)
    → IsValid m
    → fb + offset < 2 ^ 32
    → offset % 4096 ≡ 0
    → Covers fb offset m
    → Covers fb (offset + 4096) (map_page (fb + offset) (fb + offset) 3 m).1
Covers-map_page fb offset m v small aligned before = elim (alloc_page-lowest m.frames v.frames) [
  | inl (none_left, all) ↦ inr (rw (map_page-full (fb + offset) (fb + offset) 3 m none_left) all)
  | inr (p, lt, free, takes, lower, sound) ↦
      elim (map_page-Maps (fb + offset) (fb + offset) 3 m v small (omega arith) refl) [
        | inr (refused, d, t, absent, no_frame) ↦ absurd (takes.not_null no_frame)
        | inl (done, maps) ↦ elim before [
          | inr all ↦ absurd (cc (all p lt))
          | inl mapped ↦ inl (λ w ge lt'. elim (Bool-cases ((fb + offset) / 4096 == w / 4096)) [
            | inl here ↦ ground (arith, maps.translates w)
            | inr other ↦ rw (maps.translates w, other) (mapped w ge (ground arith))
          ])
        ]
      ]
]

-- One page of the framebuffer.
keeps_page :
    (fb total at : ℕ) (m : Machine)
    → KeepsAddresses fb total m
    → at < 2 ^ 32
    → fb ≤ at
    → at ≤ fb + total
    → KeepsAddresses fb total (map_page at at 3 m).1
keeps_page fb total at m k small from to = result (map_page at at 3 m) refl
  where
    result : (r : Bool × Machine) → map_page at at 3 m ≡ r → KeepsAddresses fb total r.1
    result r e = elim (map_page-Maps at at 3 m k.valid small (omega arith) refl) [
      | inr (refused, _, _, _, _) ↦ rw (← e) (rw (map_page-refused at at 3 m k.valid refused) k)
      | inl (done, maps) ↦ rw (← e) (record {
        valid = maps.valid;
        low = λ w h. ground (arith, maps.translates w, k.low w h);
        high = λ w h. elim (Bool-cases (at / 4096 == w / 4096)) [
          | inl here ↦ inr (ground (arith, maps.translates w), ground arith, ground arith)
          | inr other ↦ rw (maps.translates w, other) (k.high w h)
        ];
      })
    ]

Covers-fewer :
    (fb total offset : ℕ) (m : Machine) → total ≤ offset → Covers fb offset m → Covers fb total m
Covers-fewer fb total offset m le (inl mapped) = inl (λ w ge lt. mapped w ge (omega arith))
Covers-fewer fb total offset m le (inr all) = inr all

map_framebuffer-KeepsAddresses :
    (fuel fb total offset : ℕ) (m : Machine)
    → KeepsAddresses fb total m
    → fb + total ≤ 2 ^ 32
    → total + 4096 ≤ 2 ^ 32
    → total ≤ offset + fuel * 4096
    → offset % 4096 ≡ 0
    → Covers fb offset m
    → (m' : Machine) × (map_framebuffer (suc fuel) fb total offset m ≡ ok m')
      × KeepsAddresses fb total m'
      × Covers fb total m'
unfolding map_framebuffer
map_framebuffer-KeepsAddresses zero fb total offset m k room small enough aligned covers =
    let done : ltb offset total ≡ false = ground arith in
    rw done (m, refl, k, Covers-fewer fb total offset m (ground arith) covers)
map_framebuffer-KeepsAddresses (suc fuel) fb total offset m k room small enough aligned covers =
    elim (Bool-cases (ltb offset total)) [
      | inr done ↦ rw done (m, refl, k, Covers-fewer fb total offset m (ground arith) covers)
      | inl more ↦
          let below : offset < total = ground arith in
          let at : add32 fb offset ≡ fb + offset = omega arith in
          let next : add32 offset 4096 ≡ offset + 4096 = omega arith in
          let (m', e, k', c') =
            map_framebuffer-KeepsAddresses fuel fb total (offset + 4096)
              (map_page (fb + offset) (fb + offset) 3 m).1
              (keeps_page fb total (fb + offset) m k (omega arith) (omega arith) (omega arith)) room
              small (omega arith) (omega arith)
              (Covers-map_page fb offset m k.valid (omega arith) aligned covers) in
          rw (more, at, next) (m', e, k', c')
    ]

-- The machine with the first table.
abbrev first_machine : Machine → ℕ × Allocator → Machine
first_machine m r = record m {
  frames = r.1;
  words = identity_table 1024 0 r.0 m.words;
  directory = update (λ _. 0) 0 (bit_or (bit_or r.0 1) 2);
}

first_machine-KeepsAddresses :
    (fb total p : ℕ) (m : Machine) (r : ℕ × Allocator)
    → Frames.IsValid m.frames
    → p < managed m.frames
    → Takes m.frames p r
    → Frames.IsValid r.1
    → KeepsAddresses fb total (first_machine m r)
unfolding pd_index
first_machine-KeepsAddresses fb total p m r f inside takes sound =
    let sized = f.sized in
    let addressable = f.addressable in
    let below : p < 2 ^ 20 = omega arith in
    let entry : bit_or (bit_or r.0 1) 2 ≡ p * 4096 + 3 = rw takes.address (or_flags p) in
    let present : is_present (p * 4096 + 3) ≡ true = rw is_present-mod (ground arith) in
    let absent : is_present 0 ≡ false = rw is_present-mod refl in
    let frame : frame_of (p * 4096 + 3) ≡ p * 4096 = frame_of-div _ (omega arith) ∙ omega arith in
    rw entry (record {
      valid = record {
        frames = sound;
        entries = λ pd. ground arith;
        in_use = λ pd h. ground (arith, takes.marks p, absent);
        writable = λ pd h. ground (arith, absent);
        apart = λ pd pd' h h' e. ground (arith, absent);
      };
      low = λ w h.
          let first : pd_index w ≡ 0 = omega arith in
          let page : pt_index w ≡ w / 4096 = omega (arith, pt_index-mod w) in
          let entry_w : identity_table 1024 0 (p * 4096) m.words (p * 4096 + 4 * (w / 4096))
              ≡ w / 4096 * 4096 + 3 =
            identity_table-inside 1024 0 (p * 4096) (w / 4096) m.words (omega arith) (omega arith)
              (omega arith) in
          let here : is_present (w / 4096 * 4096 + 3) ≡ true = rw is_present-mod (ground arith) in
          rw (first, present) (rw (frame, page, takes.address) (rw (entry_w, here) refl));
      high = λ w h.
          let later : (0 == pd_index w) ≡ false = ground arith in rw (later, absent) (inl refl);
    })

-- With a sound allocator and a framebuffer that ends at 4 GiB or before, `init_paging` ends, given a
-- round for each of its pages and two more. Without a free frame it panics. Else the tables are sound,
-- each address below 4 MiB is translated to itself, writable and for the kernel only, and another one
-- is so translated, or not at all, and only in a page that the framebuffer or its end touches. The first
-- pages of the framebuffer, as many as its bytes fill or touch from a page's start on, are translated,
-- unless its address is 0 or no frame is left.
pub init_paging-KeepsAddresses :
    (fuel fb pitch height : ℕ) (m : Machine)
    → Frames.IsValid m.frames
    → fb + pitch * height ≤ 2 ^ 32
    → pitch * height + 4096 ≤ 2 ^ 32
    → pitch * height ≤ fuel * 4096
    → ((q : ℕ) → q < managed m.frames → used m.frames q ≡ true)
        × (init_paging (suc fuel) fb pitch height m ≡ ok panicked)
      ⊎ ((m' : Machine) × (init_paging (suc fuel) fb pitch height m ≡ ok (running m'))
          × KeepsAddresses fb (pitch * height) m'
          × ((fb ≡ 0) ⊎ Covers fb (pitch * height) m'))
unfolding init_paging
init_paging-KeepsAddresses fuel fb pitch height m f room small enough =
    elim (alloc_page-lowest m.frames f) [
      | inl (e, all) ↦ inl (all, rw e refl)
      | inr (p, lt, free, takes, lower, sound) ↦
          let total : mul32 pitch height ≡ pitch * height = omega arith in
          let got : ((alloc_page m.frames).0 == 0) ≡ false = ground (arith, takes.not_null) in
          let k =
            first_machine-KeepsAddresses fb (pitch * height) p m (alloc_page m.frames) f lt takes
              sound in
          let (m', e, k', c') =
            map_framebuffer-KeepsAddresses fuel fb (pitch * height) 0
              (first_machine m (alloc_page m.frames)) k room small (omega arith) refl
              (inl (λ w ge lt. absurd (omega arith))) in
          let base = first_machine m (alloc_page m.frames) in
          let loop : map_framebuffer (suc fuel) fb (mul32 pitch height) 0 base ≡ ok m' =
            ap (λ (t : ℕ). map_framebuffer (suc fuel) fb t 0 base) total ∙ e in
          inr (elim (Bool-cases (fb == 0)) [
            | inl absent ↦ (base, rw (got, absent) refl, k, inl (ground arith))
            | inr there ↦ (m', rw (got, there, loop) refl, k', inr c')
          ])
    ]
