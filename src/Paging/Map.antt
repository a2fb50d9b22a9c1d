-- ===== src/Paging/Map.antt =====
-- `map_page` and `unmap_page` on the translation.
use icosaos.Prelude.{
  ℕ, ◌+◌, ◌*◌, ◌/◌, ◌%◌, ◌^◌, ◌<◌, ◌≡◌, refl, ◌⊎◌, inl, inr, true, false, Option, none, some, ◌∷◌,
  bit_and, ◌==◌, if◌then◌else◌, arith, Bool-cases, update,
}
use icosaos.Memory.{null, alloc_page}
use icosaos.Paging.{
  Machine, pd_index, pt_index, is_present, table_for, map_page, unmap_page, page_present,
}
use icosaos.Paging.Entries.{is_present-mod, present_test, leaf_entry, same_page, is_user}
use icosaos.Paging.Spec.{translate, from_user, IsValid, translate-write}
use icosaos.Paging.Tables.{Ready, Found, table_for-Found}

-- A mapping was made: the page of `virt` now has the entry, no other page changed, user mode gets to the
-- page where the entry allows it, and to what it got to before, and the address was flushed.
pub record Maps (m : Machine) (virt entry : ℕ) (m' : Machine) : Type 0 where
  pub valid : IsValid m'
  pub translates :
      (w : ℕ) → translate m' w ≡ (if virt / 4096 == w / 4096 then some entry else translate m w)
  pub reach : (w : ℕ) → (virt / 4096 == w / 4096) ≡ true → from_user m' w ≡ is_user entry
  pub reaches :
      (w : ℕ) → (virt / 4096 == w / 4096) ≡ false → from_user m w ≡ true → from_user m' w ≡ true
  pub flushes : m'.flushed ≡ virt ∷ m.flushed

Maps-of_Ready :
    (m m' : Machine) (virt flags table entry : ℕ)
    → is_present entry ≡ true
    → is_user entry ≡ is_user flags
    → Ready m (pd_index virt) flags table m'
    → Maps m virt entry (record m' {
      words = update m'.words (table + 4 * pt_index virt) entry;
      flushed = virt ∷ m'.flushed;
    })
Maps-of_Ready m m' virt flags table entry here allowed r =
    let becomes : (w : ℕ)
        → translate
            (record m' {
              words = update m'.words (table + 4 * pt_index virt) entry;
              flushed = virt ∷ m'.flushed;
            })
            w
          ≡ (if virt / 4096 == w / 4096 then some entry else translate m w) =
      λ w. rw r.table_lem (
        ground (
          arith,
          translate-write m' virt entry w (virt ∷ m'.flushed) r.valid r.present,
          r.same w,
          here,
        )) in
    record {
      valid = record {
        frames = r.valid.frames;
        entries = r.valid.entries;
        in_use = r.valid.in_use;
        writable = r.valid.writable;
        apart = r.valid.apart;
      };
      translates = becomes;
      reach = λ w same.
          let index : pd_index w ≡ pd_index virt = ground (arith, same_page virt w) in
          rw (becomes w, same, index) (ground (arith, r.user));
      reaches = λ w other before. elim (Bool-cases (is_present (m.directory (pd_index w)))) [
        | inl present ↦ rw (becomes w, other) (ground (arith, r.widens (pd_index w) present))
        | inr absent ↦ absurd (ground arith)
      ];
      flushes = rw r.log refl;
    }

-- `map_page` maps the page of `virt` to the frame of `phys` with the flags given, which hold the
-- present bit, changes the translation of no other page, flushes the address and keeps the tables
-- sound; or it fails and changes neither directory nor tables, where the page has no table and no
-- frame is left.
pub map_page-Maps :
    (virt phys flags : ℕ) (m : Machine)
    → IsValid m
    → phys < 2 ^ 32
    → flags < 4096
    → flags % 2 ≡ 1
    → let (done, m') = map_page virt phys flags m in
      (done ≡ true) × Maps m virt (phys / 4096 * 4096 + flags) m'
      ⊎ (done ≡ false)
        × (m'.directory ≡ m.directory)
        × (m'.words ≡ m.words)
        × (is_present (m.directory (pd_index virt)) ≡ false)
        × ((alloc_page m.frames).0 ≡ null)
unfolding map_page
map_page-Maps virt phys flags m v hp hf odd =
    result (table_for (pd_index virt) flags m) refl (table_for-Found m (pd_index virt) flags v)
  where
    entry : ℕ
    entry = phys / 4096 * 4096 + flags

    here : is_present (phys / 4096 * 4096 + flags) ≡ true
    here = rw is_present-mod (ground arith)

    allowed : is_user (phys / 4096 * 4096 + flags) ≡ is_user flags
    allowed = ground arith

    result :
        (o : Option (ℕ × Machine))
        → table_for (pd_index virt) flags m ≡ o
        → Found m (pd_index virt) flags o
        → let (done, m') = map_page virt phys flags m in
          (done ≡ true) × Maps m virt (phys / 4096 * 4096 + flags) m'
          ⊎ (done ≡ false)
            × (m'.directory ≡ m.directory)
            × (m'.words ≡ m.words)
            × (is_present (m.directory (pd_index virt)) ≡ false)
            × ((alloc_page m.frames).0 ≡ null)
    result none e (absent, full) = rw (e, map_page) (inr (refl, refl, refl, absent, full))
    result (some (table, m')) e r =
        rw (e, map_page)
          (rw (leaf_entry phys flags hp hf)
            (inl (refl, Maps-of_Ready m m' virt flags table _ here allowed r)))

-- With sound tables `unmap_page` takes the translation of its page away and leaves the others, and
-- the tables stay sound.
pub unmap_page-translate :
    (virt : ℕ) (m : Machine)
    → IsValid m
    → IsValid (unmap_page virt m)
      × ((w : ℕ)
          → translate (unmap_page virt m) w
            ≡ (if virt / 4096 == w / 4096 then none else translate m w))
unfolding unmap_page
unmap_page-translate virt m v = elim (Bool-cases (is_present (m.directory (pd_index virt)))) [
  | inl present ↦
      let e : (bit_and (m.directory (pd_index virt)) page_present == 0) ≡ false =
        ground (arith, present_test (m.directory (pd_index virt))) in
      rw e (
        record {
          frames = v.frames;
          entries = v.entries;
          in_use = v.in_use;
          writable = v.writable;
          apart = v.apart;
        },
        λ w.
            ground
              (arith, translate-write m virt 0 w (virt ∷ m.flushed) v present, is_present-mod 0),
      )
  | inr absent ↦
      let e : (bit_and (m.directory (pd_index virt)) page_present == 0) ≡ true =
        ground (arith, present_test (m.directory (pd_index virt))) in
      rw e (v, λ w. ground (arith, absent, same_page virt w))
]
