-- ===== src/UserMemory.antt =====
-- src/kernel/usermem.c: pages for user programs, on top of the frame allocator and the page tables.
pub mod Allocate
use icosaos.Prelude.{
  ℕ, zero, suc, ◌+◌, ◌-◌, ◌*◌, ◌/◌, ◌%◌, ◌^◌, ◌≤◌, ◌<◌, ◌≡◌, ◌≢◌, refl, sym, ap, ◌∙◌, ◌⊎◌, inl, inr,
  Bool, true, false, not, Option, none, some, List, [], ◌∷◌, ◌&&◌, ◌||◌, bit_and, bit_or, ◌==◌, ltb,
  leb, if◌then◌else◌, ◌>>>◌, arith, Bool-cases, Option-cases, update, u32, add32, sub32, mul32, Run,
  ok, out_of_fuel, ◌>>=◌,
}
use icosaos.Memory.{alloc_page, free_page, null}
use icosaos.Paging.{
  Machine, pd_index, pt_index, frame_of, is_present, map_page, unmap_page, page_present, page_write,
  page_user,
}

abbrev pub user_stack_max : ℕ
user_stack_max = 0xBFFFF000

abbrev pub user_stack_size : ℕ
user_stack_size = 4096 * 4

-- One round of the loop of `free_user_space`: the frame goes back, then the page is unmapped.
unfoldable pub release_page : ℕ → Machine → Machine
release_page current_virt m =
    let directory_entry = m.directory (pd_index current_virt) in
    let page_entry = m.words (frame_of directory_entry + 4 * pt_index current_virt) in
    let returned =
      if bit_and directory_entry page_present == 0
      then m
      else if bit_and page_entry page_present == 0
      then m
      else record m { frames = free_page (frame_of page_entry) m.frames } in
    unmap_page current_virt returned

unfoldable pub release_pages : ℕ → ℕ → Machine → Machine
release_pages zero current_virt m = m
release_pages (suc n) current_virt m =
    release_pages n (add32 current_virt 4096) (release_page current_virt m)

unfoldable pub free_user_space : ℕ → ℕ → Machine → Machine
free_user_space virt_addr num_pages m =
    if virt_addr % 4096 == 0 then release_pages num_pages virt_addr m else m

-- The loop of `allocate_user_space`, with `n` rounds left and `i` pages mapped.
unfoldable pub allocate_pages : ℕ → ℕ → ℕ → ℕ → Machine → Bool × Machine
allocate_pages zero i virt_addr current_virt m = (true, m)
allocate_pages (suc n) i virt_addr current_virt m =
    let (phys_frame, frames) = alloc_page m.frames in
    let taken = record m { frames = frames } in
    let flags = bit_or (bit_or page_present page_write) page_user in
    let (mapped, m') = map_page current_virt phys_frame flags taken in
    let rest = allocate_pages n (i + 1) virt_addr (add32 current_virt 4096) m' in
    if phys_frame == null
    then (false, free_user_space virt_addr i taken)
    else if mapped
    then rest
    else (
      false,
      free_user_space virt_addr i (record m' { frames = free_page phys_frame m'.frames }),
    )

unfoldable pub allocate_user_space : ℕ → ℕ → Machine → Bool × Machine
allocate_user_space virt_addr num_pages m =
    if virt_addr % 4096 == 0 then allocate_pages num_pages 0 virt_addr virt_addr m else (false, m)

-- The address of the top of the stack, or 0.
unfoldable pub create_user_stack : Machine → ℕ × Machine
create_user_stack m =
    let pages_needed = user_stack_size / 4096 in
    let stack_bottom_virt = sub32 user_stack_max user_stack_size in
    let (done, m') = allocate_user_space stack_bottom_virt pages_needed m in
    if done then (user_stack_max, m') else (0, m')
