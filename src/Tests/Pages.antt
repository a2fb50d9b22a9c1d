-- ===== src/Tests/Pages.antt =====
-- A machine without page tables and 16 frames, of which the first four are used.
use icosaos.Prelude.{
  ℕ, ◌*◌, ◌≡◌, ◌≢◌, ◌⊎◌, refl, arith, ◌==◌, if◌then◌else◌, false, true, ◌/◌, none, some, [],
}
use icosaos.Memory.{null, alloc_page, claim, scan_bits, scan_bytes, is_clear, set_bit}
use icosaos.Paging.{
  Machine, pd_index, pt_index, frame_of, is_present, clear_table, table_for, map_page, unmap_page,
}
use icosaos.Paging.Spec.{IsValid, translate}
use icosaos.Paging.Map.{Maps, map_page-Maps, unmap_page-translate}
use icosaos.UserMemory.{allocate_user_space, allocate_pages, create_user_stack}
use icosaos.UserMemory.Allocate.{MapsPages, allocate_user_space-MapsPages}

abbrev pub machine : Machine
machine = record {
  frames = record {
    bitmap = λ i. if i == 0 then 0x0F else 0;
    total_pages = 16;
    bitmap_size_bytes = 2;
  };
  directory = λ pd. 0;
  words = λ a. 0;
  flushed = [];
}

pub machine-IsValid : IsValid machine
unfolding is_clear is_present
machine-IsValid = record {
  frames = record {
    bytes = λ i. ground arith;
    sized = refl;
    addressable = omega arith;
    page_zero = refl;
  };
  entries = λ pd. omega arith;
  in_use = λ pd h. absurd (cc);
  writable = λ pd h. absurd (cc);
  apart = λ pd pd' h k e. absurd (cc);
}

map_page_run : translate (map_page 0x40000000 0x7000 7 machine).1 0x40000123 ≡ some 0x7007
unfolding alloc_page scan_bytes scan_bits claim is_clear set_bit map_page table_for pd_index
    pt_index frame_of is_present clear_table
map_page_run = refl

map_page-Maps_example :
    let (done, m') = map_page 0x40000000 0x7000 7 machine in
    (done ≡ true) × Maps machine 0x40000000 0x7007 m'
    ⊎ (done ≡ false)
      × (m'.directory ≡ machine.directory)
      × (m'.words ≡ machine.words)
      × (is_present (machine.directory (pd_index 0x40000000)) ≡ false)
      × ((alloc_page machine.frames).0 ≡ null)
map_page-Maps_example =
    map_page-Maps 0x40000000 0x7000 7 machine machine-IsValid (omega arith) (omega arith) refl

unmap_page-translate_example :
    IsValid (unmap_page 0x5000 machine)
    × ((w : ℕ)
        → translate (unmap_page 0x5000 machine) w
          ≡ (if 0x5000 / 4096 == w / 4096 then none else translate machine w))
unmap_page-translate_example = unmap_page-translate 0x5000 machine machine-IsValid

one_page_done : (allocate_user_space (0x40000 * 4096) 1 machine).0 ≡ true
unfolding alloc_page scan_bytes scan_bits claim is_clear set_bit map_page table_for pd_index
    pt_index frame_of is_present clear_table allocate_user_space allocate_pages
one_page_done = refl

allocate_user_space-MapsPages_example :
    MapsPages machine 0x40000 1 (allocate_user_space (0x40000 * 4096) 1 machine).1
allocate_user_space-MapsPages_example =
    allocate_user_space-MapsPages 0x40000 1 machine machine-IsValid (omega arith) one_page_done

stack_done : (create_user_stack machine).0 ≢ 0
unfolding alloc_page scan_bytes scan_bits claim is_clear set_bit map_page table_for pd_index
    pt_index frame_of is_present clear_table create_user_stack allocate_user_space allocate_pages
stack_done = λ e. absurd (omega arith)
