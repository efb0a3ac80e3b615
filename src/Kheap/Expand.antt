-- ===== src/Kheap/Expand.antt =====
-- heap_expand puts one more segment behind the others.
use mathlib.Core.Path.{subst}
use open_idp_os.Base.{
  ℕ, zero, suc, ◌+◌, ◌-◌, ◌*◌, ◌/◌, ◌^◌, ◌≤◌, ◌<◌, ◌≡◌, ◌≢◌, ◌∙◌, sym, refl, ap, false, arith, ◌==◌,
  List, [], ◌∷◌, ◌++◌, length, update, update_self, update_ne, some, ◌>>=◌, add64, sub64,
}
use open_idp_os.Kheap.{
  Block, Blocks, heap_magic, page_size, header, align_up, get_last_block, Heap, Pages, map_loop,
  fresh_block, link_block, heap_expand,
}
use open_idp_os.Kheap.Segments.{Segment, start, behind, Tiled, Tiled-same}
use open_idp_os.Kheap.Grow.{last_of, last_of-bounds, last_loop-Tiled, append-Tiled}

-- The heap is the segments from `base` on.
pub record IsHeap {M : Type 0} (base : ℕ) (h : Heap M) (segments : List Segment) : Type 0 where
  pub head : h.heap_head ≡ start base segments
  pub tiled : Tiled h.blocks 0 base segments h.heap_end
  pub high : h.heap_end < 2 ^ 64

abbrev pub grown : (size : ℕ) → ℕ
grown size = align_up size page_size

module _ {M : Type 0} (pages : Pages M) (limine_hhdm : ℕ) where
  open pages use {pmm_alloc_page, vmm_map_page}

  -- The memory managers give each of the pages, and map it; they are in the last state then.
  abbrev pub Supplied : (left heap_end : ℕ) → M → M → Type 0
  Supplied zero e m m' = m ≡ m'
  Supplied (suc left) e m m' =
      ((pmm_alloc_page m).0 ≢ 0)
      × (m₂ : M) × (vmm_map_page e (sub64 (pmm_alloc_page m).0 limine_hhdm) 3 (pmm_alloc_page m).1
          ≡ some m₂)
      × Supplied left (e + page_size) m₂ m'

  map_loop-Supplied :
      (left e : ℕ) (m m' : M)
      → e + left * page_size < 2 ^ 64
      → Supplied left e m m'
      → map_loop pages limine_hhdm left e m ≡ some (e + left * page_size, m')
  unfolding map_loop
  map_loop-Supplied zero e m m' lt same =
      ap (λ x. some (x, m)) (omega arith) ∙ ap (λ n. some (e + 0 * page_size, n)) same
  map_loop-Supplied (suc left) e m m' lt (nonzero, m₂, mapped, supplied) =
      let step : add64 e page_size ≡ e + page_size = omega arith in
      ap (λ o. o >>= λ m₂. map_loop pages limine_hhdm left (add64 e page_size) m₂) mapped
      ∙ ap (λ x. map_loop pages limine_hhdm left x m₂) step
      ∙ map_loop-Supplied left (e + page_size) m₂ m' (omega arith) supplied
      ∙ ap (λ x. some (x, m')) (omega arith)

  module _ (fuel size : ℕ) (h : Heap M) (room : h.heap_end + size + page_size < 2 ^ 64)
      (some_bytes : 0 < size) (after : M)
      (supplied : Supplied (grown size / page_size) h.heap_end h.memory after) where
    e : ℕ
    e = h.heap_end

    f₁ : Blocks
    f₁ = fresh_block pages limine_hhdm e (grown size) h.blocks

    paged : ℕ × M
    paged = (h.heap_end + grown size / page_size * page_size, after)

    paged-eq : map_loop pages limine_hhdm (grown size / page_size) h.heap_end h.memory ≡ some paged
    unfolding paged
    paged-eq =
        map_loop-Supplied (grown size / page_size) h.heap_end h.memory after (omega (arith, room))
          supplied

    paged-end : paged.0 ≡ e + grown size
    unfolding paged e
    paged-end = omega (arith, room)

    place : sub64 paged.0 (grown size) ≡ e
    unfolding e
    place = ap (λ x. sub64 x (grown size)) paged-end ∙ omega arith

    fresh : Block
    fresh = record {
      magic = heap_magic;
      size = sub64 (grown size) header;
      free = 1;
      next = 0;
      prev = (h.blocks e).prev;
    }

    f₁-else : (x : ℕ) → e ≢ x → f₁ x ≡ h.blocks x
    unfolding f₁ fresh_block fresh
    f₁-else x ne = update_ne h.blocks fresh ne

    f₁-new : f₁ e ≡ fresh
    unfolding f₁ fresh_block fresh
    f₁-new = update_self h.blocks e fresh

    heap_expand-from : heap_expand pages limine_hhdm fuel size h ≡ (
        get_last_block fuel h.heap_head f₁ >>= λ q.
        some (link_block pages limine_hhdm e q paged.0 paged.1 f₁ h))
    unfolding heap_expand e f₁
    heap_expand-from =
        ap
          (λ o. o >>= λ mapped.
            let block = sub64 mapped.0 (grown size) in
            let f = fresh_block pages limine_hhdm block (grown size) h.blocks in
            get_last_block fuel h.heap_head f >>= λ q.
            some (link_block pages limine_hhdm block q mapped.0 mapped.1 f h))
          paged-eq
        ∙ ap
            (λ block.
              let f = fresh_block pages limine_hhdm block (grown size) h.blocks in
              get_last_block fuel h.heap_head f >>= λ q.
              some (link_block pages limine_hhdm block q paged.0 paged.1 f h))
            place

    module _ (base n free : ℕ) (segments : List Segment)
        (heap : IsHeap base h ((n, free) ∷ segments)) (low : 72 ≤ base)
        (enough : length segments < fuel) where
      last : ℕ
      last = last_of 0 base ((n, free) ∷ segments)

      expanded : Heap M
      expanded = link_block pages limine_hhdm e last paged.0 paged.1 f₁ h

      f₁-Tiled : Tiled f₁ 0 base ((n, free) ∷ segments) e
      unfolding e
      f₁-Tiled =
          Tiled-same h.blocks f₁ 0 base ((n, free) ∷ segments) e
            (λ x le lt. f₁-else x (omega arith)) heap.tiled

      last-bounds : (base ≤ last) × (last < e)
      unfolding last e
      last-bounds = last_of-bounds h.blocks 0 base n free segments e heap.tiled

      relinked : Block
      relinked = record (f₁ e) { prev = last }

      f₂ : Blocks
      f₂ = update f₁ e relinked

      chained : Block
      chained = record (f₂ last) { next = e }

      f₃ : Blocks
      f₃ = update f₂ last chained

      expanded-blocks : expanded.blocks ≡ f₃
      unfolding expanded link_block f₃ f₂ relinked chained
      expanded-blocks = let nz : (last == 0) ≡ false = ground (arith, last-bounds) in rw nz refl

      expanded-head : expanded.heap_head ≡ base
      unfolding expanded link_block
      expanded-head = let nz : (last == 0) ≡ false = ground (arith, last-bounds) in rw nz heap.head

      expanded-end : expanded.heap_end ≡ behind e (grown size - header)
      unfolding expanded link_block e
      expanded-end = paged-end ∙ omega (arith, room)

      f₃-else : (x : ℕ) → x < e → last ≢ x → f₃ x ≡ h.blocks x
      unfolding f₃ f₂
      f₃-else x lt ne =
          update_ne f₂ chained ne ∙ update_ne f₁ relinked (omega arith) ∙ f₁-else x (omega arith)

      f₃-last : f₃ last ≡ record (h.blocks last) { next = e }
      unfolding f₃ f₂ chained
      f₃-last =
          update_self f₂ last chained
          ∙ ap (λ (b : Block). record b { next = e })
              (update_ne f₁ relinked (omega (arith, last-bounds))
                ∙ f₁-else last (omega (arith, last-bounds)))

      f₃-new : f₃ e ≡ record fresh { prev = last }
      unfolding f₃ f₂ relinked
      f₃-new =
          update_ne f₂ chained (omega (arith, last-bounds))
          ∙ update_self f₁ e relinked
          ∙ ap (λ (b : Block). record b { prev = last }) f₁-new

      new_last : get_last_block fuel h.heap_head f₁ ≡ some last
      unfolding get_last_block last f₁ e
      new_last =
          let nz : (base == 0) ≡ false = ground arith in
          rw (heap.head, nz) (last_loop-Tiled fuel f₁ 0 base n free segments e enough f₁-Tiled)

      heap_expand-eq : heap_expand pages limine_hhdm fuel size h ≡ some expanded
      unfolding expanded
      heap_expand-eq =
          heap_expand-from
          ∙ ap (λ o. o >>= λ q. some (link_block pages limine_hhdm e q paged.0 paged.1 f₁ h))
              new_last

      expanded-IsHeap : IsHeap base expanded ((n, free) ∷ segments ++ (grown size - header, 1) ∷ [])
      unfolding e last fresh
      expanded-IsHeap = record {
        head = expanded-head;
        tiled =
            subst
              (λ b.
                Tiled b 0 base ((n, free) ∷ segments ++ (grown size - header, 1) ∷ [])
                  expanded.heap_end)
              (sym expanded-blocks)
              (subst (Tiled f₃ 0 base ((n, free) ∷ segments ++ (grown size - header, 1) ∷ []))
                (sym expanded-end)
                (append-Tiled h.blocks f₃ 0 base n free segments e (grown size - header) 1
                  heap.tiled f₃-else f₃-last
                  (record {
                    magic = ap (λ (b : Block). b.magic) f₃-new;
                    size = ap (λ (b : Block). b.size) f₃-new ∙ omega (arith, room);
                    flag = ap (λ (b : Block). b.free) f₃-new;
                    after = ap (λ (b : Block). b.next) f₃-new;
                    before = ap (λ (b : Block). b.prev) f₃-new;
                  })));
        high = omega (arith, expanded-end, room);
      }

    link-memory : (q : ℕ) → (link_block pages limine_hhdm e q paged.0 paged.1 f₁ h).memory ≡ after
    unfolding link_block paged
    link-memory q = refl

    first_heap : Heap M
    first_heap = link_block pages limine_hhdm e 0 paged.0 paged.1 f₁ h

    first-blocks : first_heap.blocks e ≡ record fresh { prev = 0 }
    unfolding first_heap link_block
    first-blocks =
        update_self f₁ e (record (f₁ e) { prev = 0 })
        ∙ ap (λ (b : Block). record b { prev = 0 }) f₁-new

    first-eq : h.heap_head ≡ 0 → heap_expand pages limine_hhdm fuel size h ≡ some first_heap
    unfolding first_heap get_last_block
    first-eq empty = heap_expand-from ∙ rw empty refl

    first-IsHeap : IsHeap h.heap_end first_heap ((grown size - header, 1) ∷ [])
    unfolding first_heap link_block fresh e
    first-IsHeap = record {
      head = refl;
      tiled = (
        record {
          magic = ap (λ (b : Block). b.magic) first-blocks;
          size = ap (λ (b : Block). b.size) first-blocks ∙ omega (arith, room);
          flag = ap (λ (b : Block). b.free) first-blocks;
          after = ap (λ (b : Block). b.next) first-blocks;
          before = ap (λ (b : Block). b.prev) first-blocks;
        },
        sym (paged-end ∙ omega (arith, room)),
      );
      high = omega (arith, paged-end, room);
    }

  pub heap_expand-IsHeap :
      (fuel size : ℕ) (h : Heap M) (base n free : ℕ) (segments : List Segment)
      → IsHeap base h ((n, free) ∷ segments)
      → 72 ≤ base
      → h.heap_end + size + page_size < 2 ^ 64
      → 0 < size
      → (after : M) → Supplied (grown size / page_size) h.heap_end h.memory after
      → length segments < fuel
      → (h' : Heap M) × (heap_expand pages limine_hhdm fuel size h ≡ some h')
        × IsHeap base h' ((n, free) ∷ segments ++ (grown size - header, 1) ∷ [])
        × (h'.memory ≡ after)
  unfolding last
  heap_expand-IsHeap fuel size h base n free segments heap low room some_bytes after supplied
        enough =
      (
        expanded fuel size h room some_bytes after supplied base n free segments heap low enough,
        heap_expand-eq fuel size h room some_bytes after supplied base n free segments heap low
            enough,
        expanded-IsHeap fuel size h room some_bytes after supplied base n free segments heap low
            enough,
        unfold expanded in
            link-memory fuel size h room some_bytes after supplied
              (last_of 0 base ((n, free) ∷ segments)),
      )

  -- The first growth: the only segment is the new one.
  pub heap_expand-first :
      (fuel size : ℕ) (h : Heap M)
      → h.heap_head ≡ 0
      → h.heap_end + size + page_size < 2 ^ 64
      → 0 < size
      → (after : M) → Supplied (grown size / page_size) h.heap_end h.memory after
      → (h' : Heap M) × (heap_expand pages limine_hhdm fuel size h ≡ some h')
        × IsHeap h.heap_end h' ((grown size - header, 1) ∷ [])
        × (h'.memory ≡ after)
  heap_expand-first fuel size h empty room some_bytes after supplied = (
    first_heap fuel size h room some_bytes after supplied,
    first-eq fuel size h room some_bytes after supplied empty,
    first-IsHeap fuel size h room some_bytes after supplied,
    unfold first_heap in link-memory fuel size h room some_bytes after supplied 0,
  )
