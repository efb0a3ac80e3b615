-- ===== src/Kheap/Tests.antt =====
-- A heap of one page, and the theorems on it.
use open_idp_os.Base.{ℕ, ◌+◌, ◌≡◌, refl, arith, ◌==◌, if◌then◌else◌, [], ◌∷◌, inl, inr, none, some}
use open_idp_os.Kheap.{Block, Blocks, heap_magic, header, Heap, Pages, kmalloc, kfree}
use open_idp_os.Kheap.Fit.{fit}
use open_idp_os.Kheap.Expand.{IsHeap}
use open_idp_os.Kheap.Alloc.{CanGrow, MemoryAfter, rounded, allocate, kmalloc-allocate}
use open_idp_os.Kheap.Free.{kfree-collapse}
use open_idp_os.Kheap.Restore.{kfree-kmalloc}

abbrev kheap_start : ℕ
kheap_start = 0xFFFF800000000000

-- Pages one behind the other, the next one being the state.
abbrev pages : Pages ℕ
pages = record {
  pmm_alloc_page = λ m. (m + 4096, m + 4096);
  vmm_map_page = λ virt phys flags m. some m;
}

abbrev first_block : Block
first_block = record {
  magic = heap_magic;
  size = 96;
  free = 1;
  next = 0xFFFF800000000088;
  prev = 0;
}

abbrev second_block : Block
second_block = record {
  magic = heap_magic;
  size = 3920;
  free = 0;
  next = 0;
  prev = 0xFFFF800000000000;
}

abbrev blocks : Blocks
blocks x = if x == 0xFFFF800000000000 then first_block else second_block

abbrev one_page : Heap ℕ
one_page = record {
  blocks = blocks;
  heap_head = kheap_start;
  heap_end = 0xFFFF800000001000;
  memory = 0;
}

one_page-IsHeap : IsHeap kheap_start one_page ((96, 1) ∷ (3920, 0) ∷ [])
one_page-IsHeap = record {
  head = refl;
  tiled = (
    record { magic = refl; size = refl; flag = refl; after = refl; before = refl },
    (record { magic = refl; size = refl; flag = refl; after = refl; before = refl }, refl),
  );
  high = omega arith;
}

none_fits : fit 208 ((96, 1) ∷ (3920, 0) ∷ []) ≡ none
unfolding fit
none_fits = refl

grow_by_a_page : CanGrow pages 0 200 one_page
grow_by_a_page = record {
  below = omega arith;
  after = 4096;
  supplied = (λ z. omega (arith, z), 4096, refl, refl);
}

-- No segment holds 200 bytes, so the heap grows by a page.
kmalloc-allocate_example :
    (h' : Heap ℕ) × (kmalloc pages 0 5 200 one_page
      ≡ some (kheap_start + (allocate 200 ((96, 1) ∷ (3920, 0) ∷ [])).1 + header, h'))
    × IsHeap kheap_start h' (allocate 200 ((96, 1) ∷ (3920, 0) ∷ [])).0
    × MemoryAfter pages 0 200 one_page (fit (rounded 200) ((96, 1) ∷ (3920, 0) ∷ [])) h'.memory
kmalloc-allocate_example =
    kmalloc-allocate pages 0 5 200 one_page kheap_start 96 1 ((3920, 0) ∷ []) one_page-IsHeap
      (omega arith) (omega arith) (omega arith) (omega arith) (λ _. grow_by_a_page)

kfree-collapse_example :
    (h' : Heap ℕ) × (kfree pages 0 5 (kheap_start + 136 + header) one_page ≡ some h')
    × IsHeap kheap_start h' ((4056, 1) ∷ [])
kfree-collapse_example =
    kfree-collapse pages 0 5 one_page kheap_start ((96, 1) ∷ []) 3920 0 [] one_page-IsHeap
      (omega arith) (omega arith)

found : fit 16 ((96, 1) ∷ (3920, 0) ∷ []) ≡ some (0, (16, 0) ∷ (40, 1) ∷ (3920, 0) ∷ [])
unfolding fit
found = refl

kfree-kmalloc_example :
    (h₁ : Heap ℕ) × (h₂ : Heap ℕ) × (kmalloc pages 0 5 10 one_page
      ≡ some (kheap_start + 0 + header, h₁))
    × (kfree pages 0 5 (kheap_start + 0 + header) h₁ ≡ some h₂)
    × IsHeap kheap_start h₂ ((96, 1) ∷ (3920, 0) ∷ [])
kfree-kmalloc_example =
    kfree-kmalloc pages 0 5 10 one_page kheap_start 96 1 ((3920, 0) ∷ []) one_page-IsHeap
      (omega arith) (omega arith) (omega arith) (omega arith) 0 ((16, 0) ∷ (40, 1) ∷ (3920, 0) ∷ [])
      found (inr (refl, refl), (inl refl, tt))
