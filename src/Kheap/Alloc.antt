-- ===== src/Kheap/Alloc.antt =====
-- kmalloc takes the first segment that fits, or one behind the others.
use mathlib.Core.Path.{subst}
use open_idp_os.Base.{
  ℕ, ◌+◌, ◌-◌, ◌*◌, ◌/◌, ◌^◌, ◌≤◌, ◌<◌, ◌≡◌, ◌∙◌, sym, refl, ap, false, arith, ◌==◌, List, [], ◌∷◌,
  ◌++◌, length, length-append, Option, none, some, ◌>>=◌, add64,
}
use open_idp_os.Kheap.{
  Blocks, page_size, header, align_up, search_loop, get_last_block, last_loop, Heap, Pages,
  kheap_max, heap_expand, take_last, after_search, kmalloc,
}
use open_idp_os.Kheap.Segments.{Segment}
use open_idp_os.Kheap.Fit.{fit}
use open_idp_os.Kheap.Search.{Found, search_loop-Found}
use open_idp_os.Kheap.Grow.{last_loop-Tiled}
use open_idp_os.Kheap.Expand.{IsHeap, Supplied, grown, heap_expand-IsHeap}
use open_idp_os.Kheap.Places.{
  skip, skip_from_zero, from-Tiled, last_of-snoc, set_free, set_free-Tiled,
}

abbrev pub rounded : (size : ℕ) → ℕ
rounded size = align_up size 16

-- What is behind the segments when none fits: one more, in use, of whole pages.
abbrev pub or_grow : (size : ℕ) → List Segment → Option (ℕ × List Segment) → List Segment × ℕ
or_grow size segments none = (segments ++ (grown (size + header) - header, 0) ∷ [], skip 0 segments)
or_grow size segments (some (offset, segments')) = (segments', offset)

-- The segments after an allocation, and how far behind the first one the new one starts.
abbrev pub allocate : (size : ℕ) → List Segment → List Segment × ℕ
allocate size segments = or_grow (rounded size) segments (fit (rounded size) segments)

get_last_block-else :
    (fuel a : ℕ) (f : Blocks) → (a == 0) ≡ false → get_last_block fuel a f ≡ last_loop fuel a f
unfolding get_last_block
get_last_block-else fuel a f nz = rw nz refl

module _ {M : Type 0} (pages : Pages M) (limine_hhdm : ℕ) where
  -- The heap can grow by what `size` bytes need: its end does not pass KHEAP_MAX, and the memory managers
  -- supply the pages.
  pub record CanGrow (size : ℕ) (h : Heap M) : Type 0 where
    pub below : h.heap_end + grown (rounded size + header) ≤ kheap_max
    pub after : M
    pub supplied :
        Supplied pages limine_hhdm
          (grown (rounded size + header) / page_size)
          h.heap_end
          h.memory
          after

  -- The memory managers after an allocation: as they were, or with the pages of the growth mapped from
  -- the heap's end on.
  abbrev pub MemoryAfter : (size : ℕ) → Heap M → Option (ℕ × List Segment) → M → Type 0
  MemoryAfter size h none m =
      Supplied pages limine_hhdm (grown (rounded size + header) / page_size) h.heap_end h.memory m
  MemoryAfter size h (some fits) m = m ≡ h.memory

  -- The segment that was put behind the others is taken.
  take_last-IsHeap :
      (fuel : ℕ) (h : Heap M) (base n free m : ℕ) (segments : List Segment)
      → IsHeap base h ((n, free) ∷ segments ++ (m, 1) ∷ [])
      → 72 ≤ base
      → length segments + 1 < fuel
      → (h' : Heap M) × (take_last pages limine_hhdm fuel h
          ≡ some (skip base ((n, free) ∷ segments) + header, h'))
        × IsHeap base h' ((n, free) ∷ segments ++ (m, 0) ∷ [])
        × (h'.memory ≡ h.memory)
  unfolding take_last
  take_last-IsHeap fuel h base n free m segments heap low enough =
      let a = skip base ((n, free) ∷ segments) in
      let nz : (base == 0) ≡ false = ground arith in
      let long = length-append segments ((m, 1) ∷ []) in
      let inside : a + header + m ≡ h.heap_end =
        (from-Tiled h.blocks 0 base ((n, free) ∷ segments) ((m, 1) ∷ []) h.heap_end heap.tiled).1 in
      let found : get_last_block fuel h.heap_head h.blocks ≡ some a =
        ap (λ x. get_last_block fuel x h.blocks) heap.head
        ∙ get_last_block-else fuel base h.blocks nz
        ∙ last_loop-Tiled fuel h.blocks 0 base n free (segments ++ (m, 1) ∷ []) h.heap_end
            (omega arith) heap.tiled
        ∙ ap some (last_of-snoc 0 base m 1 ((n, free) ∷ segments)) in
      (
        record h { blocks = set_free a 0 h.blocks },
        ap
              (λ o. o >>= λ block.
                some (add64 block header, record h { blocks = set_free block 0 h.blocks }))
              found
            ∙ ap (λ x. some (x, record h { blocks = set_free a 0 h.blocks }))
                (omega (arith, inside, heap.high)),
        record {
          head = heap.head;
          tiled =
              set_free-Tiled h.blocks 0 base ((n, free) ∷ segments) m 1 0 [] h.heap_end heap.tiled;
          high = heap.high;
        },
        refl,
      )

  module _ (fuel size : ℕ) (h : Heap M) (base n free : ℕ) (segments : List Segment)
      (heap : IsHeap base h ((n, free) ∷ segments)) (low : 72 ≤ base)
      (room : h.heap_end + size + 2 * page_size < 2 ^ 64) (some_bytes : 0 < size)
      (enough : length segments + 1 < fuel)
      (growth : fit (rounded size) ((n, free) ∷ segments) ≡ none → CanGrow size h) where
    all : List Segment
    all = (n, free) ∷ segments

    small : rounded size < size + 16
    small = omega arith

    -- What the search found, and what is done then.
    after-Found :
        (o : Option (ℕ × List Segment)) (r : Option (Option (ℕ × Blocks)))
        → (o ≡ none → CanGrow size h)
        → Found h.blocks 0 base all h.heap_end o r
        → (h' : Heap M) × ((r >>= after_search pages limine_hhdm fuel (rounded size) h)
            ≡ some (base + (or_grow (rounded size) all o).1 + header, h'))
          × IsHeap base h' (or_grow (rounded size) all o).0
          × MemoryAfter size h o h'.memory
    unfolding all after_search
    after-Found (some (offset, segments')) r grow (f', eq, taken, same, inside) = (
      record h { blocks = f' },
      ap (λ r. r >>= after_search pages limine_hhdm fuel (rounded size) h) eq
          ∙ ap (λ x. some (x, record h { blocks = f' })) (omega (arith, heap.high)),
      record { head = heap.head ∙ sym (same base); tiled = taken.tiled; high = heap.high },
      refl,
    )
    after-Found none r grow eq =
        let (h₁, expand, heap₁, mapped) =
          heap_expand-IsHeap pages limine_hhdm fuel (rounded size + header) h base n free segments
            heap low (omega arith) (omega arith) (grow refl).after (grow refl).supplied
            (omega arith) in
        let (h₂, take, heap₂, kept) =
          take_last-IsHeap fuel h₁ base n free (grown (rounded size + header) - header) segments
            heap₁ low enough in
        let sum : add64 (rounded size) header ≡ rounded size + header = omega arith in
        (
          h₂,
          ap (λ r. r >>= after_search pages limine_hhdm fuel (rounded size) h) eq
              ∙ ap
                  (λ x. heap_expand pages limine_hhdm fuel x h >>= take_last pages limine_hhdm fuel)
                  sum
              ∙ ap (λ o. o >>= take_last pages limine_hhdm fuel) expand
              ∙ take
              ∙ ap (λ x. some (x + header, h₂)) (skip_from_zero base all),
          heap₂,
          subst (MemoryAfter size h none) (sym (kept ∙ mapped)) (grow refl).supplied,
        )

    -- kmalloc of a size that is not 0 returns the pointer to the first segment that fits, or, when none
    -- does, to one of whole pages behind the others. The heap is then what the allocation on the
    -- sequence of segments gives: that segment is in use, a large one is split, the others stay. The
    -- memory managers are not asked for anything if a segment fits; otherwise each page of the growth is
    -- allocated and mapped, present and writable, at the next address from the heap's end on. The heap has
    -- a block and lies at 72 or above, the fuel is more than its blocks, and heap_end is far enough from
    -- 2 ^ 64. When no segment fits, heap_end does not pass KHEAP_MAX, no page that pmm_alloc_page returns
    -- is NULL, and vmm_map_page ends for each of them.
    pub kmalloc-allocate :
        (h' : Heap M) × (kmalloc pages limine_hhdm fuel size h
          ≡ some (base + (allocate size ((n, free) ∷ segments)).1 + header, h'))
        × IsHeap base h' (allocate size ((n, free) ∷ segments)).0
        × MemoryAfter size h (fit (rounded size) ((n, free) ∷ segments)) h'.memory
    unfolding kmalloc all
    kmalloc-allocate =
        let nz : (size == 0) ≡ false = ground arith in
        rw nz (
          after-Found (fit (rounded size) all)
            (search_loop fuel (rounded size) h.heap_head h.blocks) growth
            (subst
              (λ x.
                Found h.blocks 0 base all h.heap_end (fit (rounded size) all)
                  (search_loop fuel (rounded size) x h.blocks))
              (sym heap.head)
              (search_loop-Found fuel (rounded size) h.blocks 0 base all h.heap_end (omega arith)
                low heap.high heap.tiled)))
