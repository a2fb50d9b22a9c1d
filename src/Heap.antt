-- ===== src/Heap.antt =====
-- The first-fit allocator that src/kernel/heap.c and src/kernel/user_heap.c both implement: their
-- search, splitting, merging and appending code is the same. The headers are a store indexed by
-- address. A loop along the `next` pointers runs on fuel.
pub mod Blocks
pub mod Regions
pub mod Chain
pub mod Take
pub mod Coalesce
pub mod Expand
pub mod Malloc
pub mod Total
pub mod Apart
pub mod Free
use icosaos.Prelude.{
  ℕ, zero, suc, ◌+◌, ◌-◌, ◌*◌, ◌/◌, ◌%◌, ◌^◌, ◌≤◌, ◌<◌, ◌≡◌, Bool, true, false, not, ◌&&◌, ◌==◌,
  leb, ltb, if◌then◌else◌, update, add32, sub32, mul32, Run, ok, out_of_fuel, ◌>>=◌,
}

abbrev pub null : ℕ
null = 0

-- `sizeof(struct heap_header)`: four bytes, one byte with three of padding, and a pointer.
abbrev pub header_size : ℕ
header_size = 12

abbrev pub page_size : ℕ
page_size = 4096

pub record Header : Type 0 where
  pub size : ℕ
  pub is_free : Bool
  pub next : ℕ

abbrev pub Headers : Type 0
Headers = ℕ → Header

-- What the heap asks of the memory below it: map `pages` fresh pages at the end of the heap. The
-- answer says whether all were mapped, and where the end is afterwards.
pub record PageSource : Type 1 where
  pub Sys : Type 0
  pub grow : ℕ → ℕ → Sys → Bool × ℕ × Sys
  pub grow_end :
      (end pages : ℕ) (s : Sys)
      → end + pages * page_size < 2 ^ 32
      → (end ≤ (grow end pages s).1)
        × ((grow end pages s).1 ≤ end + pages * page_size)
        × ((grow end pages s).0 ≡ true → (grow end pages s).1 ≡ end + pages * page_size)

-- The body of the search at a block that fits: split it if a header and four bytes are left over,
-- mark it taken, and return the address behind its header.
unfoldable pub take_block : ℕ → ℕ → Headers → ℕ × Headers
take_block size current h =
    let whole = h current in
    let split_block = add32 (add32 current header_size) size in
    let cut =
      update
        (update h split_block (record {
          size = sub32 (sub32 whole.size size) header_size;
          is_free = true;
          next = whole.next;
        }))
        current (record { size = size; is_free = whole.is_free; next = split_block }) in
    let h' = if leb (add32 (add32 size header_size) 4) whole.size then cut else h in
    (add32 current header_size, update h' current (record (h' current) { is_free = false }))

-- How the search ends.
pub data Search : Type 0 where
  found : ℕ → Headers → Search
  missing : Search
  search_out_of_fuel : Search

unfoldable pub search : ℕ → ℕ → ℕ → Headers → Search
search zero size current h = search_out_of_fuel
search (suc n) size current h =
    let rest = search n size (h current).next h in
    if current == null
    then missing
    else if (h current).is_free && leb size (h current).size
    then (let (p, h') = take_block size current h in found p h')
    else rest

-- `current` takes in the block behind it.
unfoldable pub join : ℕ → Headers → Headers
join current h =
    let second = h (h current).next in
    update h current (record (h current) {
      size = add32 (h current).size (add32 header_size second.size);
      next = second.next;
    })

-- The coalescing loop of the free functions.
unfoldable pub coalesce : ℕ → ℕ → Headers → Run Headers
coalesce zero current h = out_of_fuel
coalesce (suc n) current h =
    let merged = coalesce n current (join current h) in
    let moved = coalesce n (h current).next h in
    if current == null
    then ok h
    else if (h current).next == null
    then ok h
    else if (h current).is_free && (h (h current).next).is_free
    then merged
    else moved

-- `while (current->next != NULL) current = current->next; current->next = new_block;`
unfoldable pub link_last : ℕ → ℕ → ℕ → Headers → Run Headers
link_last zero new_block current h = out_of_fuel
link_last (suc n) new_block current h =
    let rest = link_last n new_block (h current).next h in
    if (h current).next == null
    then ok (update h current (record (h current) { next = new_block }))
    else rest

-- The new block becomes the first one, or the last one of the chain.
unfoldable pub append_block : ℕ → ℕ → ℕ → Headers → Run (ℕ × Headers)
append_block fuel new_block start h =
    if start == null
    then ok (new_block, h)
    else do linked ← link_last fuel new_block start h; ok (start, linked)

module _ (source : PageSource) where
  open source use {Sys, grow}

  -- The static variables of heap.c and user_heap.c, the headers, and the system below.
  pub record Heap : Type 0 where
    pub headers : Headers
    pub start : ℕ
    pub current_end : ℕ
    pub sys : Sys

-- The pages for a request: rounded up, at 32 bits.
unfoldable pub pages_for : ℕ → ℕ
pages_for bytes_needed = sub32 (add32 (add32 bytes_needed header_size) page_size) 1 / page_size

module _ (source : PageSource) (fuel : ℕ) where
  open source use {grow}

  -- `expand_heap` and `expand_user_heap`: the pages, then the new block behind the last one.
  unfoldable pub expand : ℕ → Heap source → Run (Bool × Heap source)
  expand bytes_needed s =
      let pages = pages_for bytes_needed in
      let new_block = s.current_end in
      let (mapped, end, sys) = grow s.current_end pages s.sys in
      let h = update s.headers new_block (record {
        size = sub32 (mul32 pages page_size) header_size;
        is_free = true;
        next = null;
      }) in
      if not mapped then ok (false, record s { current_end = end; sys = sys }) else do
        (start, linked) ← append_block fuel new_block s.start h
        ok (true, record { headers = linked; start = start; current_end = end; sys = sys })

  -- The search from the first block on; a miss expands the heap and allocates again.
  unfoldable pub place :
      (Heap source → Run (ℕ × Heap source)) → ℕ → Heap source → Run (ℕ × Heap source)
  place again size s = elim (search fuel size s.start s.headers) [
    | found p h ↦ ok (p, record s { headers = h })
    | missing ↦ do (grown, s') ← expand size s; if grown then again s' else ok (null, s')
    | search_out_of_fuel ↦ out_of_fuel
  ]

  -- `kmalloc` and `umalloc`, with the number of calls of itself that are left.
  unfoldable pub malloc : ℕ → ℕ → Heap source → Run (ℕ × Heap source)
  malloc zero size s = out_of_fuel
  malloc (suc calls) size s =
      let again = malloc calls size in
      if size == 0
      then ok (null, s)
      else if s.start == null
      then (do (grown, s') ← expand size s; if grown then place again size s' else ok (null, s'))
      else place again size s

  -- `kfree` and `ufree`.
  unfoldable pub free : ℕ → Heap source → Run (Heap source)
  free ptr s =
      if ptr == null
      then ok s
      else let header = sub32 ptr header_size in
        let h = update s.headers header (record (s.headers header) { is_free = true }) in
        do merged ← coalesce fuel s.start h; ok (record s { headers = merged })
