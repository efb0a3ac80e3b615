-- ===== src/Pmm/Scan.antt =====
-- The first-fit scan of pmm_alloc_pages.
use open_idp_os.Base.{
  ℕ, zero, suc, ◌+◌, ◌-◌, ◌≤◌, ◌<◌, ◌≡◌, ◌≢◌, true, false, Option, none, some, arith, ◌==◌,
  if◌then◌else◌, refl, Bool-cases, inl, inr, ◌∙◌, ap,
}
use mathlib.Core.Path.{subst}
use native.Mathlib.Decide.{dec_lt}
use open_idp_os.Pmm.{scan_loop}
use open_idp_os.Pmm.Bits.{Bitmap, bitmap_test}

-- The `n` pages from `start` on are free.
abbrev pub FreeRun : Bitmap → (start n : ℕ) → Type 0
FreeRun b start n = (q : ℕ) → start ≤ q → q < start + n → bitmap_test b q ≡ false

-- Among the `n` pages from `start` on there is a used one.
abbrev pub HasUsed : Bitmap → (start n : ℕ) → Type 0
HasUsed b start n = (q : ℕ) × (start ≤ q) × (q < start + n) × (bitmap_test b q ≡ true)

-- The outcome of a first-fit search among `total` pages.
abbrev pub FirstFit : Bitmap → (count total : ℕ) → Option ℕ → Type 0
FirstFit b count total none = (s : ℕ) → s + count ≤ total → HasUsed b s count
FirstFit b count total (some s) =
    (s + count ≤ total) × FreeRun b s count × ((s' : ℕ) → s' < s → HasUsed b s' count)

module _ (b : Bitmap) (count total : ℕ) where
  -- Before page `i` there is a free run of length `c`, and no run that ends before it fits.
  record Scanned (i c start : ℕ) : Type 0 where
    short : c < count
    inside : c ≤ i
    at : c ≢ 0 → start + c ≡ i
    free : FreeRun b (i - c) c
    none_before : (s : ℕ) → s < i - c → HasUsed b s count

  free_more :
      {i c start : ℕ} → Scanned i c start → bitmap_test b i ≡ false → FreeRun b (i - c) (c + 1)
  free_more {i} {c} s h q lo hi = elim (dec_lt q i) [
    | yes p ↦ s.free q lo (omega (arith, s.inside))
    | no p ↦ (let e : q ≡ i = omega (arith, s.inside) in ap (bitmap_test b) e ∙ h)
  ]

  found :
      {i c start : ℕ}
      → Scanned i c start
      → bitmap_test b i ≡ false
      → c + 1 ≡ count
      → i < total
      → FirstFit b count total (some (if c == 0 then i else start))
  found {i} {c} {start} s h e lt = rw here (omega (arith, s.inside), run, s.none_before)
    where
      here : (if c == 0 then i else start) ≡ i - c
      here = ground (arith, s.at)

      run : FreeRun b (i - c) count
      run q lo hi = free_more s h q lo (omega arith)

  longer :
      {i c start : ℕ}
      → Scanned i c start
      → bitmap_test b i ≡ false
      → c + 1 ≢ count
      → Scanned (i + 1) (c + 1) (if c == 0 then i else start)
  longer {i} {c} {start} s h ne = record {
    short = omega (arith, s.short);
    inside = omega (arith, s.inside);
    at = λ _. ground (arith, s.at);
    free = λ q lo hi. free_more s h q (omega (arith, s.inside)) (omega (arith, s.inside));
    none_before = λ q lt. s.none_before q (omega (arith, s.inside));
  }

  again : {i c start : ℕ} → Scanned i c start → bitmap_test b i ≡ true → Scanned (i + 1) 0 start
  again {i} {c} {start} s h = record {
    short = omega (arith, s.short);
    inside = omega arith;
    at = λ ne. absurd (ne refl);
    free = λ q lo hi. absurd (omega arith);
    none_before = λ q lt. elim (dec_lt q (i - c)) [
      | yes p ↦ s.none_before q p
      | no p ↦ (i, omega arith, omega (arith, s.short, s.inside), h)
    ];
  }

  finished : {c start : ℕ} → Scanned total c start → FirstFit b count total none
  finished s q le = s.none_before q (omega (arith, s.short, s.inside))

  scan_loop-fits :
      (n i c start : ℕ)
      → i + n ≡ total
      → Scanned i c start
      → FirstFit b count total (scan_loop b count n i c start)
  unfolding scan_loop
  scan_loop-fits zero i c start e s =
      finished (subst (λ k. Scanned k c start) {y = total} (omega arith) s)
  scan_loop-fits (suc n) i c start e s = elim (Bool-cases (bitmap_test b i)) [
    | inl used ↦ rw used (scan_loop-fits n (i + 1) 0 start (omega arith) (again s used))
    | inr free ↦ elim (Bool-cases (c + 1 == count)) [
      | inl done ↦ rw (free, done) (found s free (ground arith) (omega arith))
      | inr more ↦
          rw (free, more)
            (scan_loop-fits n (i + 1) (c + 1) (if c == 0 then i else start) (omega arith)
              (longer s free (ground arith)))
    ]
  ]

  -- The scan from page 0 finds the lowest run of `count` free pages, or there is none.
  pub scan_loop-FirstFit : 0 < count → FirstFit b count total (scan_loop b count total 0 0 0)
  scan_loop-FirstFit h = scan_loop-fits total 0 0 0 (omega arith) (record {
    short = h;
    inside = omega arith;
    at = λ ne. absurd (ne refl);
    free = λ q lo hi. absurd (omega arith);
    none_before = λ q lt. absurd (omega arith);
  })
