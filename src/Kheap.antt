-- ===== src/Kheap.antt =====
-- src/memory/kheap.c: the kernel heap, a doubly linked list of blocks from KHEAP_START on. The
-- blocks' headers are a store by address, and the bytes of the allocations another one.
pub mod Segments
pub mod Fit
pub mod Search
pub mod Grow
pub mod Expand
pub mod Places
pub mod Alloc
pub mod Merge
pub mod Free
pub mod Apart
pub mod Restore
mod Tests
use open_idp_os.Base.{
  ℕ, zero, suc, ◌+◌, ◌-◌, ◌*◌, ◌/◌, ◌%◌, ◌^◌, Bool, not, ◌&&◌, Option, none, some, ◌>>=◌, ◌==◌, ltb,
  leb, if◌then◌else◌, update, add64, sub64,
}
use mathlib.Core.Option

pub record Block : Type 0 where
  pub magic : ℕ
  pub size : ℕ
  pub free : ℕ
  pub next : ℕ
  pub prev : ℕ

abbrev pub Blocks : Type 0
Blocks = ℕ → Block

abbrev pub heap_magic : ℕ
heap_magic = 0xDEADBEEFCAFEBABE

abbrev pub page_size : ℕ
page_size = 4096

-- sizeof(heap_block_t)
abbrev pub header : ℕ
header = 40

abbrev pub min_split : ℕ
min_split = 32

-- ALIGN_UP, for a power of two.
abbrev pub align_up : (x a : ℕ) → ℕ
align_up x a = (x + (a - 1)) % 2 ^ 64 / a * a

-- What a block needs besides its bytes to be split.
pub split_block : (block size : ℕ) → Blocks → Blocks
split_block block size f =
    let b = f block in
    let newblock = add64 (add64 block header) size in
    let rest : Block = record {
      magic = heap_magic;
      size = sub64 (sub64 b.size size) header;
      free = 1;
      next = b.next;
      prev = block;
    } in
    let g = update f newblock rest in
    let linked =
      if not (rest.next == 0)
      then update g rest.next (record (g rest.next) { prev = newblock })
      else g in
    if ltb b.size (add64 (add64 size header) min_split)
    then f
    else update linked block (record (linked block) { next = newblock; size = size })

-- The loop of kmalloc, on fuel: the block that was taken, or none at the end of the list.
pub search_loop : (fuel size curr : ℕ) → Blocks → Option (Option (ℕ × Blocks))
unfolding split_block
search_loop zero size curr f = none
search_loop (suc fuel) size curr f =
    let rest = search_loop fuel size (f curr).next f in
    let g = split_block curr size f in
    if curr == 0
    then some none
    else if not ((f curr).free == 0) && leb size (f curr).size
    then some (some (curr, update g curr (record (g curr) { free = 0 })))
    else rest

-- `while (curr->next) curr = curr->next;`
pub last_loop : (fuel curr : ℕ) → Blocks → Option ℕ
last_loop zero curr f = none
last_loop (suc fuel) curr f =
    let rest = last_loop fuel (f curr).next f in
    if not ((f curr).next == 0) then rest else some curr

pub get_last_block : (fuel heap_head : ℕ) → Blocks → Option ℕ
unfolding last_loop
get_last_block fuel heap_head f = if heap_head == 0 then some 0 else last_loop fuel heap_head f

-- The block gets a size and a next one, whose `prev` it becomes.
pub widen : (block size next : ℕ) → Blocks → Blocks
widen block size next f =
    let g = update f block (record (f block) { size = size; next = next }) in
    if not (next == 0) then update g next (record (g next) { prev = block }) else g

-- coalesce, whose recursion on the block before it is on fuel.
pub merge_next : (block : ℕ) → Blocks → Blocks
unfolding widen
merge_next block f =
    let b = f block in
    let behind = f b.next in
    if not (b.next == 0) && not (behind.free == 0)
    then widen block (add64 b.size (add64 header behind.size)) behind.next f
    else f

pub coalesce : (fuel block : ℕ) → Blocks → Option Blocks
unfolding merge_next
coalesce zero block f = none
coalesce (suc fuel) block f =
    let g = merge_next block f in
    let before = (g block).prev in
    let rest = coalesce fuel before g in
    if not (before == 0) && not ((g before).free == 0) then rest else some g

pub record Heap (M : Type 0) : Type 0 where
  pub blocks : Blocks
  pub heap_head : ℕ
  pub heap_end : ℕ
  pub memory : M

abbrev pub kheap_max : ℕ
kheap_max = 0xFFFF800100000000

-- What the heap asks of the memory managers: a page, which is NULL when there is none, and its
-- mapping at an address of kernel_pml4, which is `none` when it needs a page for a table and waits for
-- one without end.
pub record Pages (M : Type 0) : Type 0 where
  pub pmm_alloc_page : M → ℕ × M
  pub vmm_map_page : (virt phys flags : ℕ) → M → Option M

module _ {M : Type 0} (pages : Pages M) (limine_hhdm : ℕ) where
  open pages use {pmm_alloc_page, vmm_map_page}

  -- VMM_PRESENT | VMM_WRITE is 3.
  pub map_loop : (left heap_end : ℕ) → M → Option (ℕ × M)
  map_loop zero heap_end m = some (heap_end, m)
  map_loop (suc left) heap_end m =
      let (page, m₁) = pmm_alloc_page m in
      vmm_map_page heap_end (sub64 page limine_hhdm) 3 m₁ >>= λ m₂.
      map_loop left (add64 heap_end page_size) m₂

  -- The fields of the new block but `prev`.
  pub fresh_block : (block size : ℕ) → Blocks → Blocks
  fresh_block block size f = update f block (record {
    magic = heap_magic;
    size = sub64 size header;
    free = 1;
    next = 0;
    prev = (f block).prev;
  })

  -- The new block put behind the last one.
  pub link_block : (block last heap_end : ℕ) → M → Blocks → Heap M → Heap M
  link_block block last heap_end m f h =
      let g = update f block (record (f block) { prev = last }) in
      record {
        blocks = if not (last == 0) then update g last (record (g last) { next = block }) else g;
        heap_head = if not (last == 0) then h.heap_head else block;
        heap_end = heap_end;
        memory = m;
      }

  pub heap_expand : (fuel size : ℕ) → Heap M → Option (Heap M)
  unfolding map_loop fresh_block link_block get_last_block
  heap_expand fuel size h =
      let size' = align_up size page_size in
      map_loop (size' / page_size) h.heap_end h.memory >>= λ mapped.
      let block = sub64 mapped.0 size' in
      let f = fresh_block block size' h.blocks in
      get_last_block fuel h.heap_head f >>= λ last.
      some (link_block block last mapped.0 mapped.1 f h)

  pub heap_init : (fuel : ℕ) → Heap M → Option (Heap M)
  unfolding heap_expand
  heap_init fuel h = heap_expand fuel (page_size * 4) h

  -- The last block after the heap grew, which is not free then.
  pub take_last : (fuel : ℕ) → Heap M → Option (ℕ × Heap M)
  unfolding get_last_block
  take_last fuel h = do
    block ← get_last_block fuel h.heap_head h.blocks
    some (
      add64 block header,
      record h { blocks = update h.blocks block (record (h.blocks block) { free = 0 }) },
    )

  -- What kmalloc does once the loop is over.
  pub after_search : (fuel size : ℕ) → Heap M → Option (ℕ × Blocks) → Option (ℕ × Heap M)
  unfolding heap_expand take_last
  after_search fuel size h (some (block, f)) = some (add64 block header, record h { blocks = f })
  after_search fuel size h none = heap_expand fuel (add64 size header) h >>= take_last fuel

  pub kmalloc : (fuel size : ℕ) → Heap M → Option (ℕ × Heap M)
  unfolding search_loop after_search
  kmalloc fuel size h =
      let size' = align_up size 16 in
      if size == 0
      then some (0, h)
      else (search_loop fuel size' h.heap_head h.blocks >>= after_search fuel size' h)

  pub kfree : (fuel ptr : ℕ) → Heap M → Option (Heap M)
  unfolding coalesce
  kfree fuel ptr h =
      let block = sub64 ptr header in
      let f = update h.blocks block (record (h.blocks block) { free = 1 }) in
      if ptr == 0
      then some h
      else if not ((h.blocks block).magic == heap_magic)
      then some h
      else (coalesce fuel block f >>= λ g. some (record h { blocks = g }))

  -- The bytes of the allocations, and the copy of `left` of them.
  pub copy_loop : (dst src left i : ℕ) → (ℕ → ℕ) → ℕ → ℕ
  copy_loop dst src zero i bytes = bytes
  copy_loop dst src (suc left) i bytes =
      copy_loop dst src left (i + 1) (update bytes (dst + i) (bytes (src + i)))

  -- The block moved to a new one.
  pub move_block : (fuel ptr size : ℕ) → (ℕ → ℕ) → Heap M → Option (ℕ × (ℕ → ℕ) × Heap M)
  unfolding kmalloc kfree copy_loop
  move_block fuel ptr size bytes h = do
    (newptr, h') ← kmalloc fuel size h
    let copied = copy_loop newptr ptr (h'.blocks (sub64 ptr header)).size 0 bytes
    let freed = kfree fuel ptr h' >>= λ h''. some (newptr, copied, h'')
    if newptr == 0 then some (0, bytes, h') else freed

  pub krealloc : (fuel ptr size : ℕ) → (ℕ → ℕ) → Heap M → Option (ℕ × (ℕ → ℕ) × Heap M)
  unfolding move_block kmalloc kfree
  krealloc fuel ptr size bytes h =
      if ptr == 0
      then (kmalloc fuel size h >>= λ r. some (r.0, bytes, r.1))
      else if size == 0
      then (kfree fuel ptr h >>= λ h'. some (0, bytes, h'))
      else if leb size (h.blocks (sub64 ptr header)).size
      then some (ptr, bytes, h)
      else move_block fuel ptr size bytes h
