-- ===== src/Pmm/Search.antt =====
-- The round-robin search of pmm_alloc_page.
use native.Mathlib.Nat.{mod-add-mod, mod-eq_of_lt}
use open_idp_os.Base.{
  ℕ, zero, suc, ◌+◌, ◌-◌, ◌%◌, ◌≤◌, ◌<◌, ◌≡◌, ◌≢◌, ◌∙◌, sym, ap, true, false, some, arith, ◌==◌,
  Bool-cases, inl, inr,
}
use open_idp_os.Base.Ring.{place-ne}
use open_idp_os.Pmm.{search_loop}
use open_idp_os.Pmm.Bits.{Bitmap, bitmap_test}

module _ (b : Bitmap) (total start : ℕ) (hs : start < total) where
  -- One round does not come back to the start before its end.
  not_back :
      (next left : ℕ)
      → next < total
      → (next + left) % total ≡ start
      → 0 < left
      → left < total
      → next ≢ start
  not_back next left hn e pos less same = place-ne hs pos less (
      ap (λ k. (k + left) % total) (sym same)
      ∙ e
      ∙ sym (mod-eq_of_lt {n = start + 0} {m = total} (omega arith) ∙ omega arith))

  next-left :
      (pos left : ℕ) → (pos + suc left) % total ≡ start → ((pos + 1) % total + left) % total ≡ start
  next-left pos left e = rw mod-add-mod (ap (λ k. k % total) (omega arith) ∙ e)

  -- With `left` rounds to the start and a free page `d` rounds ahead, a free page is found.
  pub search_loop-finds :
      (left pos d : ℕ)
      → pos < total
      → left ≤ total
      → (pos + left) % total ≡ start
      → d < left
      → bitmap_test b ((pos + d) % total) ≡ false
      → (page : ℕ) × (search_loop b total start left pos ≡ some (some page, page))
        × (page < total)
        × (bitmap_test b page ≡ false)
  unfolding search_loop
  search_loop-finds zero pos d hp hl e hd free = absurd (omega arith)
  search_loop-finds (suc left) pos d hp hl e hd free = elim (Bool-cases (bitmap_test b pos)) [
    | inr here ↦ (pos, rw here, hp, here)
    | inl used ↦
        rw (used, not_start used)
          (search_loop-finds left next (d - 1) in_range (omega arith) (next-left pos left e)
            (omega (arith, ahead used)) (rw (shifted used) free))
  ]
    where
      next : ℕ
      next = (pos + 1) % total

      in_range : next < total
      in_range = omega arith

      ahead : bitmap_test b pos ≡ true → 0 < d
      ahead used = elim (Bool-cases (d == 0)) [
        | inl z ↦
            (let at : (pos + d) % total ≡ pos =
                mod-eq_of_lt {n = pos + d} {m = total} (ground arith) ∙ ground arith in
              cc (used, free, at))
        | inr nz ↦ ground arith
      ]

      not_start : bitmap_test b pos ≡ true → (next == start) ≡ false
      not_start used =
          let ne =
            not_back next left in_range (next-left pos left e) (omega (arith, ahead used))
              (omega arith) in
          ground (arith, ne)

      shifted : bitmap_test b pos ≡ true → (next + (d - 1)) % total ≡ (pos + d) % total
      shifted used = rw mod-add-mod (ap (λ k. k % total) (omega (arith, ahead used)))
