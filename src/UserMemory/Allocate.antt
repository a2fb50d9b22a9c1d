-- ===== src/UserMemory/Allocate.antt =====
-- What an allocation of user pages that succeeds has mapped.
use icosaos.Prelude.{
  ℕ, zero, suc, ◌+◌, ◌*◌, ◌/◌, ◌%◌, ◌^◌, ◌≤◌, ◌<◌, ◌≡◌, ◌≢◌, refl, ◌∙◌, ap, ◌⊎◌, inl, inr, true,
  false, some, ◌==◌, arith, Bool-cases, add32,
}
use icosaos.Memory.{Allocator, null, alloc_page}
use icosaos.Memory.Spec as Frames
use icosaos.Memory.Spec.{used, managed}
use icosaos.Memory.Pages.{Takes, alloc_page-lowest}
use icosaos.Paging.{Machine}
use icosaos.Paging.Spec.{translate, from_user, IsValid}
use icosaos.Paging.Entries.{is_user}
use icosaos.Paging.Map.{Maps, map_page-Maps}
use icosaos.UserMemory.{allocate_pages, allocate_user_space, create_user_stack, user_stack_max}

-- The `n` pages from page `p` on are mapped with user flags, user mode gets to them, and the others are as
-- before.
pub record MapsPages (m : Machine) (p n : ℕ) (m' : Machine) : Type 0 where
  pub valid : IsValid m'
  pub inside :
      (w : ℕ)
      → p ≤ w / 4096
      → w / 4096 < p + n
      → (e : ℕ) × (translate m' w ≡ some e) × (e % 4096 ≡ 7)
  pub user : (w : ℕ) → p ≤ w / 4096 → w / 4096 < p + n → from_user m' w ≡ true
  pub outside : (w : ℕ) → (w / 4096 < p) ⊎ (p + n ≤ w / 4096) → translate m' w ≡ translate m w
  pub reaches :
      (w : ℕ) → (w / 4096 < p) ⊎ (p + n ≤ w / 4096) → from_user m w ≡ true → from_user m' w ≡ true

-- Taking a frame keeps the page tables sound.
pub IsValid-alloc_page :
    (m : Machine)
    → IsValid m
    → (alloc_page m.frames).0 ≢ null
    → IsValid (record m { frames = (alloc_page m.frames).1 }) × ((alloc_page m.frames).0 < 2 ^ 32)
IsValid-alloc_page m v ne = kept (alloc_page-lowest m.frames v.frames)
  where
    kept :
        (alloc_page m.frames ≡ (null, m.frames))
            × ((q : ℕ) → q < managed m.frames → used m.frames q ≡ true)
          ⊎ ((p : ℕ) × (p < managed m.frames)
              × (used m.frames p ≡ false)
              × Takes m.frames p (alloc_page m.frames)
              × ((q : ℕ) → q < p → used m.frames q ≡ true)
              × Frames.IsValid (alloc_page m.frames).1)
        → IsValid (record m { frames = (alloc_page m.frames).1 })
          × ((alloc_page m.frames).0 < 2 ^ 32)
    kept (inl (e, all)) = absurd (ne (ap (λ (r : ℕ × Allocator). r.0) e))
    kept (inr (p, lt, free, takes, lower, sound)) = (
      record {
        frames = sound;
        entries = v.entries;
        in_use = λ pd h. ground (arith, v.in_use pd, takes.marks (m.directory pd / 4096));
        writable = v.writable;
        apart = v.apart;
      },
      omega (arith, takes.address, v.frames.sized, v.frames.addressable),
    )

MapsPages-cons :
    (m m' m'' : Machine) (p n phys : ℕ)
    → Maps m (p * 4096) (phys / 4096 * 4096 + 7) m'
    → MapsPages m' (p + 1) n m''
    → MapsPages m p (suc n) m''
MapsPages-cons m m' m'' p n phys maps rest = record {
  valid = rest.valid;
  inside = λ w ge lt. elim (Bool-cases (p == w / 4096)) [
    | inl here ↦ (
      phys / 4096 * 4096 + 7,
      ground (arith, rest.outside w (inl (ground arith)), maps.translates w),
      omega arith,
    )
    | inr later ↦ rest.inside w (ground arith) (omega arith)
  ];
  outside = λ w out. ground (arith, rest.outside w (ground arith), maps.translates w);
  user = λ w ge lt. elim (Bool-cases (p == w / 4096)) [
    | inl here ↦
        let allowed : is_user (phys / 4096 * 4096 + 7) ≡ true = ground arith in
        rest.reaches w (inl (ground arith)) (maps.reach w (ground arith) ∙ allowed)
    | inr later ↦ rest.user w (ground arith) (omega arith)
  ];
  reaches = λ w out before. rest.reaches w (ground arith) (maps.reaches w (ground arith) before);
}

allocate_pages-MapsPages :
    (n i virt p : ℕ) (m : Machine)
    → IsValid m
    → p + n < 2 ^ 20
    → (allocate_pages n i virt (p * 4096) m).0 ≡ true
    → MapsPages m p n (allocate_pages n i virt (p * 4096) m).1
unfolding allocate_pages
allocate_pages-MapsPages zero i virt p m v fits e = record {
  valid = v;
  inside = λ w ge lt. absurd (omega arith);
  outside = λ w out. refl;
  user = λ w ge lt. absurd (omega arith);
  reaches = λ w out before. before;
}
allocate_pages-MapsPages (suc n) i virt p m v fits e =
    elim (Bool-cases ((alloc_page m.frames).0 == null)) [
      | inl full ↦ absurd (cc (rw full at e))
      | inr got ↦
          let (v', small) = IsValid-alloc_page m v (ground arith) in
          let taken : Machine = record m { frames = (alloc_page m.frames).1 } in
          elim (map_page-Maps (p * 4096) (alloc_page m.frames).0 7 taken v' small (omega arith)
            refl) [
              | inl (done, maps) ↦
                  let next : add32 (p * 4096) 4096 ≡ (p + 1) * 4096 = omega arith in
                  rw (got, done, next)
                    (MapsPages-cons m _ _ p n (alloc_page m.frames).0
                      (record {
                        valid = maps.valid;
                        translates = maps.translates;
                        reach = maps.reach;
                        reaches = maps.reaches;
                        flushes = maps.flushes;
                      })
                      (allocate_pages-MapsPages n (i + 1) virt (p + 1) _ maps.valid (omega arith)
                        (rw (got, done, next) at e)))
              | inr (failed, d, w, a, f) ↦ absurd (cc (rw (got, failed) at e))
            ]
    ]

-- An allocation of user pages that succeeds, from an aligned address on and below the last page of
-- the address space, maps every page of the range to a frame, present, writable and for user mode,
-- changes the translation of no other page, and keeps the tables sound.
pub allocate_user_space-MapsPages :
    (p n : ℕ) (m : Machine)
    → IsValid m
    → p + n < 2 ^ 20
    → (allocate_user_space (p * 4096) n m).0 ≡ true
    → MapsPages m p n (allocate_user_space (p * 4096) n m).1
unfolding allocate_user_space
allocate_user_space-MapsPages p n m v fits e =
    let aligned : (p * 4096 % 4096 == 0) ≡ true = ground arith in
    rw aligned (allocate_pages-MapsPages n 0 (p * 4096) p m v fits (rw aligned at e))

-- A user stack that is created is the 16 KiB below its top, and nothing else: the pages from
-- 0xBFFFB000 up to 0xBFFFF000 are mapped for user mode, and the other pages are as before.
pub create_user_stack-MapsPages :
    (m : Machine)
    → IsValid m
    → (create_user_stack m).0 ≢ 0
    → ((create_user_stack m).0 ≡ user_stack_max) × MapsPages m 0xBFFFB 4 (create_user_stack m).1
unfolding create_user_stack
create_user_stack-MapsPages m v ne = elim (Bool-cases (allocate_user_space 0xBFFFB000 4 m).0) [
  | inl done ↦ rw done (refl, allocate_user_space-MapsPages 0xBFFFB 4 m v (omega arith) done)
  | inr failed ↦ absurd (ne (rw failed refl))
]
