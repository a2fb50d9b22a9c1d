-- ===== src/Paging/Spec.antt =====
-- What the page tables mean: the entry that translates an address, and when the tables are sound.
use icosaos.Prelude.{
  ℕ, ◌+◌, ◌*◌, ◌/◌, ◌^◌, ◌<◌, ◌≡◌, inl, inr, Bool, true, false, Option, none, some, List, ◌&&◌,
  ◌==◌, if◌then◌else◌, arith, Bool-cases, update,
}
use icosaos.Memory.Spec as Frames
use icosaos.Memory.Spec.{used}
use icosaos.Paging.{Machine, pd_index, pt_index, frame_of, is_present}
use icosaos.Paging.Entries.{pt_index-mod, frame_of-div, same_page, is_writable, is_user}

-- The address of the leaf entry for `v`.
abbrev pub slot : Machine → ℕ → ℕ
slot m v = frame_of (m.directory (pd_index v)) + 4 * pt_index v

-- The leaf entry that translates `v`, where directory and table both have one that is present.
abbrev pub translate : Machine → ℕ → Option ℕ
translate m v =
    if is_present (m.directory (pd_index v)) && is_present (m.words (slot m v))
    then some (m.words (slot m v))
    else none

-- May a leaf entry be used in user mode? It may where the directory and the entry allow it.
abbrev pub user_leaf : Option ℕ → Bool
user_leaf none = false
user_leaf (some entry) = is_user entry

abbrev pub from_user : Machine → ℕ → Bool
from_user m v = is_user (m.directory (pd_index v)) && user_leaf (translate m v)

-- The allocator is sound, the tables lie in frames that are in use, the directory lets the tables decide
-- on writing, and no two of its entries share a table.
pub record IsValid (m : Machine) : Type 0 where
  pub frames : Frames.IsValid m.frames
  pub entries : (pd : ℕ) → m.directory pd < 2 ^ 32
  pub in_use :
      (pd : ℕ) → is_present (m.directory pd) ≡ true → used m.frames (m.directory pd / 4096) ≡ true
  pub writable : (pd : ℕ) → is_present (m.directory pd) ≡ true → is_writable (m.directory pd) ≡ true
  pub apart :
      (pd pd' : ℕ)
      → is_present (m.directory pd) ≡ true
      → is_present (m.directory pd') ≡ true
      → m.directory pd / 4096 ≡ m.directory pd' / 4096
      → pd ≡ pd'

-- Two addresses have one leaf entry exactly when they lie in one page.
pub slot-injective :
    (m : Machine) (v w : ℕ)
    → IsValid m
    → is_present (m.directory (pd_index v)) ≡ true
    → is_present (m.directory (pd_index w)) ≡ true
    → (slot m v == slot m w) ≡ (v / 4096 == w / 4096)
slot-injective m v w valid p q = ground (
  arith,
  same_page v w,
  pt_index-mod v,
  pt_index-mod w,
  frame_of-div (m.directory (pd_index v)) (valid.entries _),
  frame_of-div (m.directory (pd_index w)) (valid.entries _),
  valid.apart (pd_index v) (pd_index w) p q,
)

-- Writing a leaf entry changes the translation of its page and of no other.
pub translate-write :
    (m : Machine) (v e w : ℕ) (log : List ℕ)
    → IsValid m
    → is_present (m.directory (pd_index v)) ≡ true
    → translate (record m { words = update m.words (slot m v) e; flushed = log }) w
      ≡ (if v / 4096 == w / 4096 then (if is_present e then some e else none) else translate m w)
translate-write m v e w log valid p = elim (Bool-cases (is_present (m.directory (pd_index w)))) [
  | inl q ↦ rw (slot-injective m v w valid p q) (ground (arith, same_page v w))
  | inr absent ↦ ground (arith, same_page v w)
]
