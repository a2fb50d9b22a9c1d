-- ===== src/Paging/Tables.antt =====
-- `table_for`: the table behind an entry of the directory, made or found.
use icosaos.Prelude.{
  ℕ, zero, suc, ◌+◌, ◌*◌, ◌/◌, ◌^◌, ◌≤◌, ◌<◌, ◌≡◌, refl, sym, ap, ◌∙◌, ◌⊎◌, inl, inr, true, false,
  Option, none, some, bit_and, bit_or, ◌==◌, leb, if◌then◌else◌, arith, Bool-cases, update,
}
use icosaos.Memory.{Allocator, null, alloc_page}
use icosaos.Memory.Spec as Frames
use icosaos.Memory.Spec.{used, managed}
use icosaos.Memory.Pages.{Takes, alloc_page-lowest}
use icosaos.Paging.{
  Machine, pd_index, pt_index, frame_of, is_present, clear_table, table_for, page_user,
  page_present,
}
use icosaos.Paging.Entries.{
  pt_index-mod, frame_of-div, is_present-mod, present_test, new_entry, user_entry, pd_flags,
  is_writable, is_user, user_test,
}
use icosaos.Paging.Spec.{slot, translate, IsValid}

-- The loop clears the words of the table and writes nothing else.
clear_table-outside :
    (n i table a : ℕ) (words : ℕ → ℕ)
    → (a < table + 4 * i) ⊎ (table + 4 * (i + n) ≤ a)
    → clear_table n i table words a ≡ words a
unfolding clear_table
clear_table-outside zero i table a words out = refl
clear_table-outside (suc n) i table a words out =
    clear_table-outside n (i + 1) table a _ (ground arith) ∙ ground arith

clear_table-inside :
    (n i table j : ℕ) (words : ℕ → ℕ)
    → i ≤ j
    → j < i + n
    → clear_table n i table words (table + 4 * j) ≡ 0
unfolding clear_table
clear_table-inside zero i table j words ge lt = absurd (omega arith)
clear_table-inside (suc n) i table j words ge lt = elim (Bool-cases (leb (i + 1) j)) [
  | inl later ↦ clear_table-inside n (i + 1) table j _ (ground arith) (omega arith)
  | inr now ↦
      clear_table-outside n (i + 1) table (table + 4 * j) _ (inl (ground arith)) ∙ ground arith
]

-- A table for the entry `pd`, on a machine that translates as before; the entry allows user mode where
-- the flags do, and the others go on to allow it.
pub record Ready (m : Machine) (pd flags table : ℕ) (m' : Machine) : Type 0 where
  pub valid : IsValid m'
  pub present : is_present (m'.directory pd) ≡ true
  pub table_lem : table ≡ frame_of (m'.directory pd)
  pub same : (w : ℕ) → translate m' w ≡ translate m w
  pub log : m'.flushed ≡ m.flushed
  pub user : is_user flags ≡ true → is_user (m'.directory pd) ≡ true
  pub widens :
      (i : ℕ)
      → is_present (m.directory i) ≡ true
      → is_user (m.directory i) ≡ true
      → is_user (m'.directory i) ≡ true

-- A change of one entry that keeps frame and present bit.
abbrev widen : ℕ → Machine → Machine
widen pd m = record m { directory = update m.directory pd (bit_or (m.directory pd) page_user) }

widen-Ready :
    (m : Machine) (pd flags : ℕ)
    → IsValid m
    → is_present (m.directory pd) ≡ true
    → Ready m pd flags (frame_of ((widen pd m).directory pd)) (widen pd m)
widen-Ready m pd flags v present =
    let u = user_entry (m.directory pd) (v.entries pd) in
    let same_frame : frame_of (bit_or (m.directory pd) page_user) ≡ frame_of (m.directory pd) =
      frame_of-div _ u.0
      ∙ ap (λ (x : ℕ). x * 4096) u.1
      ∙ sym (frame_of-div (m.directory pd) (v.entries pd)) in
    record {
      valid = record {
        frames = v.frames;
        entries = λ i. ground (arith, v.entries i, u);
        in_use = λ i h. ground (arith, v.in_use i, u);
        writable = λ i h. ground (arith, v.writable i, u);
        apart = λ i j h k e. ground (arith, v.apart i j, u);
      };
      present = ground (arith, u);
      table_lem = refl;
      same = λ w. ground (arith, u, same_frame);
      log = refl;
      user = λ h. ground (arith, u);
      widens = λ i p h. ground (arith, u);
    }

-- The machine with a fresh, empty table in the frame that `alloc_page` returned.
abbrev made : ℕ → ℕ → Machine → ℕ × Allocator → Machine
made pd flags m r = record m {
  frames = r.1;
  words = clear_table 1024 0 r.0 m.words;
  directory = update m.directory pd (bit_or r.0 (pd_flags flags));
}

module _ (m : Machine) (pd flags p : ℕ) (r : ℕ × Allocator) (v : IsValid m)
    (absent : is_present (m.directory pd) ≡ false) (small : p < managed m.frames)
    (free : used m.frames p ≡ false) (takes : Takes m.frames p r) (sound : Frames.IsValid r.1) where
  made-directory :
      (bit_or r.0 (pd_flags flags) < 2 ^ 32)
      × (bit_or r.0 (pd_flags flags) / 4096 ≡ p)
      × (is_present (bit_or r.0 (pd_flags flags)) ≡ true)
      × (is_writable (bit_or r.0 (pd_flags flags)) ≡ true)
      × (is_user (bit_or r.0 (pd_flags flags)) ≡ is_user flags)
  made-directory =
      let f = v.frames in
      let below : p < 2 ^ 20 = omega (arith, f.sized, f.addressable) in
      rw takes.address (new_entry p flags below)

  made-IsValid : IsValid (made pd flags m r)
  made-IsValid =
      let (lt, page, here, write, user) = made-directory in
      record {
        frames = sound;
        entries = λ i. ground (arith, v.entries i, lt);
        in_use = λ i h. ground (
          arith,
          v.in_use i,
          page,
          takes.marks (m.directory i / 4096),
          takes.marks (bit_or r.0 (pd_flags flags) / 4096),
        );
        writable = λ i h. ground (arith, v.writable i, write);
        apart = λ i j h k e. ground (arith, v.apart i j, v.in_use i, v.in_use j, page, free);
      }

  made-slot_other :
      (w : ℕ)
      → is_present (m.directory (pd_index w)) ≡ true
      → (pd == pd_index w) ≡ false
      → (made pd flags m r).words (slot m w) ≡ m.words (slot m w)
  made-slot_other w present other =
      let q = m.directory (pd_index w) / 4096 in
      let at = frame_of-div (m.directory (pd_index w)) (v.entries _) in
      let ne : (p == q) ≡ false = ground (arith, v.in_use (pd_index w), free) in
      clear_table-outside 1024 0 r.0 (slot m w) m.words
        (ground (arith, at, ne, takes.address, pt_index-mod w))

  made-frame : frame_of (bit_or r.0 (pd_flags flags)) ≡ r.0
  made-frame =
      let (lt, page, here, write, user) = made-directory in
      omega (arith, frame_of-div _ lt, page, takes.address)

  made-slot_new :
      (w : ℕ)
      → (made pd flags m r).words (frame_of (bit_or r.0 (pd_flags flags)) + 4 * pt_index w) ≡ 0
  made-slot_new w = rw made-frame (
      clear_table-inside 1024 0 r.0 (pt_index w) m.words (omega arith)
        (omega (arith, pt_index-mod w)))

  made-same : (w : ℕ) → translate (made pd flags m r) w ≡ translate m w
  made-same w = elim (Bool-cases (pd == pd_index w)) [
    | inl here ↦
        let e : pd ≡ pd_index w = ground arith in
        let off : is_present (m.directory (pd_index w)) ≡ false = rw e at absent in
        rw here (rw (made-slot_new w, off) (ground (arith, is_present-mod 0)))
    | inr other ↦ elim (Bool-cases (is_present (m.directory (pd_index w)))) [
      | inl present ↦ rw other (rw (made-slot_other w present other) refl)
      | inr off ↦ rw other (rw off refl)
    ]
  ]

  made-Ready : Ready m pd flags r.0 (made pd flags m r)
  made-Ready =
      let (lt, page, here, write, user) = made-directory in
      record {
        valid = made-IsValid;
        present = ground (arith, here);
        table_lem = ground (arith, made-frame);
        same = made-same;
        log = refl;
        user = λ h. ground (arith, user);
        widens = λ i p h. ground (arith, absent);
      }

-- What `table_for` returns: a table, or nothing where there is no table and no frame for one.
abbrev pub Found : Machine → ℕ → ℕ → Option (ℕ × Machine) → Type 0
Found m pd flags none = (is_present (m.directory pd) ≡ false) × ((alloc_page m.frames).0 ≡ null)
Found m pd flags (some (table, m')) = Ready m pd flags table m'

pub table_for-Found :
    (m : Machine) (pd flags : ℕ) → IsValid m → Found m pd flags (table_for pd flags m)
unfolding table_for
table_for-Found m pd flags v = elim (Bool-cases (is_present (m.directory pd))) [
  | inl present ↦
      let e : (bit_and (m.directory pd) page_present == 0) ≡ false =
        ground (arith, present_test (m.directory pd)) in
      rw e (elim (Bool-cases (bit_and flags page_user == 0)) [
        | inl kernel ↦ rw kernel (record {
          valid = v;
          present = present;
          table_lem = refl;
          same = λ w. refl;
          log = refl;
          user = λ h. absurd (ground (arith, user_test flags));
          widens = λ i p h. h;
        })
        | inr user ↦ rw user (widen-Ready m pd flags v present)
      ])
  | inr absent ↦
      let e : (bit_and (m.directory pd) page_present == 0) ≡ true =
        ground (arith, present_test (m.directory pd)) in
      rw e (fresh absent (alloc_page-lowest m.frames v.frames))
]
  where
    fresh :
        is_present (m.directory pd) ≡ false
        → (alloc_page m.frames ≡ (null, m.frames))
            × ((q : ℕ) → q < managed m.frames → used m.frames q ≡ true)
          ⊎ ((p : ℕ) × (p < managed m.frames)
              × (used m.frames p ≡ false)
              × Takes m.frames p (alloc_page m.frames)
              × ((q : ℕ) → q < p → used m.frames q ≡ true)
              × Frames.IsValid (alloc_page m.frames).1)
        → Found m pd flags (
            if (alloc_page m.frames).0 == null
            then none
            else some ((alloc_page m.frames).0, made pd flags m (alloc_page m.frames)))
    fresh absent (inl (e, all)) = rw e (absent, ap (λ (r : ℕ × Allocator). r.0) e)
    fresh absent (inr (p, lt, free, takes, lower, sound)) =
        let ne : ((alloc_page m.frames).0 == null) ≡ false = ground (arith, takes.not_null) in
        rw ne (made-Ready m pd flags p (alloc_page m.frames) v absent lt free takes sound)
