-- ===== src/Vmm/Source.antt =====
-- What the page tables rely on: the addresses of the direct map, and an allocator that hands out
-- pages that are free, each of them once.
use open_idp_os.Base.{ℕ, Bool, true, suc, ◌+◌, ◌^◌, ◌≤◌, ◌<◌, ◌≡◌, ◌≢◌, and64}
use open_idp_os.Vmm.{page_align_mask, virt_to_phys}

pub record PageSource {M : Type 0} (limine_hhdm : ℕ) (pmm_alloc_page : M → ℕ × M) : Type 0 where
  pub hhdm_low : 0 < limine_hhdm
  pub hhdm_high : limine_hhdm + 2 ^ 52 ≤ 2 ^ 64
  -- How many pages are left, and which.
  pub left : M → ℕ
  pub free : M → ℕ → Bool
  pub alloc_free : (m : M) → 0 < left m → free m (pmm_alloc_page m).0 ≡ true
  pub alloc_left : (m : M) → left m ≤ suc (left (pmm_alloc_page m).1)
  pub alloc_rest :
      (m : M) (q : ℕ)
      → free (pmm_alloc_page m).1 q ≡ true
      → (free m q ≡ true) × (q ≢ (pmm_alloc_page m).0)
  pub free_page :
      (m : M) (p : ℕ)
      → free m p ≡ true
      → (p ≢ 0)
        × (p < 2 ^ 64)
        × (and64 (virt_to_phys limine_hhdm p) page_align_mask ≡ virt_to_phys limine_hhdm p)
