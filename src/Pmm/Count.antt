-- ===== src/Pmm/Count.antt =====
-- How many of the first n pages are used.
use open_idp_os.Base.{
  ℕ, zero, suc, ◌+◌, ◌≤◌, ◌<◌, ◌≡◌, refl, true, false, arith, if◌then◌else◌, Bool-cases, inl, inr,
}
use open_idp_os.Pmm.Bits.{
  Bitmap, bitmap_set, bitmap_clear, bitmap_test, IsBytes, bitmap_test-set, bitmap_test-clear,
}

unfoldable pub used_below : Bitmap → ℕ → ℕ
used_below b zero = 0
used_below b (suc n) = used_below b n + (if bitmap_test b n then 1 else 0)

pub used_below-le : (b : Bitmap) (n : ℕ) → used_below b n ≤ n
unfolding used_below
used_below-le b zero = omega arith
used_below-le b (suc n) = ground (arith, used_below-le b n)

-- If not all pages are used, there is a free one.
pub free_page_of_lt :
    (b : Bitmap) (n : ℕ) → used_below b n < n → (q : ℕ) × (q < n) × (bitmap_test b q ≡ false)
unfolding used_below
free_page_of_lt b zero h = absurd (omega arith)
free_page_of_lt b (suc n) h = elim (Bool-cases (bitmap_test b n)) [
  | inr free ↦ (n, omega arith, free)
  | inl used ↦ (let (q, lt, free) = free_page_of_lt b n (ground arith) in (q, omega arith, free))
]

module _ (p : ℕ) {b : Bitmap} (v : IsBytes b) where
  used_below-set_of_le : (n : ℕ) → n ≤ p → used_below (bitmap_set p b) n ≡ used_below b n
  unfolding used_below
  used_below-set_of_le zero h = refl
  used_below-set_of_le (suc n) h = ground (arith, used_below-set_of_le n, bitmap_test-set p n v)

  pub used_below-set :
      (n : ℕ) → p < n → bitmap_test b p ≡ false → used_below (bitmap_set p b) n ≡ used_below b n + 1
  unfolding used_below
  used_below-set zero h free = absurd (omega arith)
  used_below-set (suc n) h free =
      ground (arith, used_below-set n, used_below-set_of_le n, bitmap_test-set p n v)

  used_below-clear_of_le : (n : ℕ) → n ≤ p → used_below (bitmap_clear p b) n ≡ used_below b n
  unfolding used_below
  used_below-clear_of_le zero h = refl
  used_below-clear_of_le (suc n) h =
      ground (arith, used_below-clear_of_le n, bitmap_test-clear p n v)

  pub used_below-clear :
      (n : ℕ)
      → p < n
      → bitmap_test b p ≡ true
      → used_below b n ≡ used_below (bitmap_clear p b) n + 1
  unfolding used_below
  used_below-clear zero h used = absurd (omega arith)
  used_below-clear (suc n) h used =
      ground (arith, used_below-clear n, used_below-clear_of_le n, bitmap_test-clear p n v)

pub used_below_of_all :
    (b : Bitmap) (n : ℕ) → ((q : ℕ) → q < n → bitmap_test b q ≡ true) → used_below b n ≡ n
unfolding used_below
used_below_of_all b zero all = refl
used_below_of_all b (suc n) all =
    rw (all n (omega arith)) (omega (arith, used_below_of_all b n (λ q h. all q (omega arith))))
