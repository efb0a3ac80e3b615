-- ===== src/Pmm/Bits.antt =====
-- src/memory/pmm.c: the page bitmap, one bit for each page frame. `pmm_bitmap` is a pointer, so the
-- bitmap is the memory from there on, a byte for each index, with no end.
use open_idp_os.Base.{
  ℕ, ◌-◌, ◌/◌, ◌%◌, ◌^◌, ◌<◌, ◌≡◌, ◌∙◌, sym, refl, ap, Bool, true, false, not, ◌&&◌, ◌||◌, arith,
  ◌==◌, ==_iff, ltb, update, bit_and, bit_or, Bool-cases, inl, inr,
}
use open_idp_os.Base.Finite.{passes_below, passes_below_lem}

abbrev pub Bitmap : Type 0
Bitmap = ℕ → ℕ

unfoldable pub bitmap_set : ℕ → Bitmap → Bitmap
bitmap_set page b = update b (page / 8) (bit_or (b (page / 8)) (2 ^ (page % 8)))

-- `~` is on 32 bits.
unfoldable pub bitmap_clear : ℕ → Bitmap → Bitmap
bitmap_clear page b = update b (page / 8) (bit_and (b (page / 8)) (2 ^ 32 - 1 - 2 ^ (page % 8)))

-- The int that is returned, as a truth value.
unfoldable pub bitmap_test : Bitmap → ℕ → Bool
bitmap_test b page = not (bit_and (b (page / 8)) (2 ^ (page % 8)) == 0)

abbrev pub IsBytes : Bitmap → Type 0
IsBytes b = (i : ℕ) → b i < 256

-- The laws of one byte, over all bytes and bits.
byte_test : ℕ → ℕ → Bool
byte_test x k = not (bit_and x (2 ^ k) == 0)

byte_set : ℕ → ℕ → ℕ
byte_set x k = bit_or x (2 ^ k)

byte_clear : ℕ → ℕ → ℕ
byte_clear x k = bit_and x (2 ^ 32 - 1 - 2 ^ k)

same : Bool → Bool → Bool
same true b = b
same false b = not b

byte_ok : ℕ → Bool
byte_ok x = passes_below 8 λ k.
    ltb (byte_set x k) 256
    && ltb (byte_clear x k) 256
    && passes_below 8 λ j.
      same (byte_test (byte_set x k) j) (k == j || byte_test x j)
      && same (byte_test (byte_clear x k) j) (not (k == j) && byte_test x j)

byte_table : passes_below 256 byte_ok ≡ true
unfolding byte_ok passes_below byte_test byte_set byte_clear same
byte_table = refl

same→eq : (a b : Bool) → same a b ≡ true → a ≡ b
unfolding same
same→eq true true h = refl
same→eq true false h = sym h
same→eq false true h = h
same→eq false false h = refl

-- What the table says of one byte and two of its bits.
record ByteLaws (x k j : ℕ) : Type 0 where
  set_small : byte_set x k < 256
  clear_small : byte_clear x k < 256
  test-set : byte_test (byte_set x k) j ≡ (k == j || byte_test x j)
  test-clear : byte_test (byte_clear x k) j ≡ (not (k == j) && byte_test x j)

byte_laws : (x k j : ℕ) → x < 256 → k < 8 → j < 8 → ByteLaws x k j
unfolding byte_ok
byte_laws x k j hx hk hj =
    let row = passes_below_lem 256 byte_ok x byte_table hx in
    let bits = passes_below_lem 8 _ k row hk in
    let pairs =
      passes_below_lem 8
        (λ j.
          same (byte_test (byte_set x k) j) (k == j || byte_test x j)
          && same (byte_test (byte_clear x k) j) (not (k == j) && byte_test x j))
        j (ground (arith, bits)) hj in
    record {
      set_small = ground (arith, bits);
      clear_small = ground (arith, bits);
      test-set = same→eq _ _ (ground (arith, pairs));
      test-clear = same→eq _ _ (ground (arith, pairs));
    }

pub bitmap_set-IsBytes : (page : ℕ) {b : Bitmap} → IsBytes b → IsBytes (bitmap_set page b)
unfolding bitmap_set byte_set
bitmap_set-IsBytes page {b} v i = ground (
  arith,
  v i,
  (byte_laws (b (page / 8)) (page % 8) 0 (v (page / 8)) (omega arith) (omega arith)).set_small,
)

pub bitmap_clear-IsBytes : (page : ℕ) {b : Bitmap} → IsBytes b → IsBytes (bitmap_clear page b)
unfolding bitmap_clear byte_clear
bitmap_clear-IsBytes page {b} v i = ground (
  arith,
  v i,
  (byte_laws (b (page / 8)) (page % 8) 0 (v (page / 8)) (omega arith) (omega arith)).clear_small,
)

-- Two pages are the same page if they share the byte and the bit.
place-eq : (p q : ℕ) → (p == q) ≡ (p / 8 == q / 8 && p % 8 == q % 8)
place-eq p q = ground arith

module _ (page : ℕ) {b : Bitmap} (q : ℕ) (v : IsBytes b) where
  laws : ByteLaws (b (page / 8)) (page % 8) (q % 8)
  laws = byte_laws _ _ _ (v (page / 8)) (omega arith) (omega arith)

  -- Setting a bit makes that page used and leaves every other page.
  pub bitmap_test-set : bitmap_test (bitmap_set page b) q ≡ (page == q || bitmap_test b q)
  unfolding bitmap_set bitmap_test byte_set byte_test
  bitmap_test-set = elim (Bool-cases (page / 8 == q / 8)) [
    | inl e ↦
        rw (e, place-eq page q, e)
          (laws.test-set
            ∙ ap (λ i. page % 8 == q % 8 || byte_test (b i) (q % 8))
                ((==_iff (page / 8) (q / 8)).0 e))
    | inr e ↦ rw (e, place-eq page q, e)
  ]

  -- Clearing a bit makes that page free and leaves every other page.
  pub bitmap_test-clear : bitmap_test (bitmap_clear page b) q ≡ (not (page == q) && bitmap_test b q)
  unfolding bitmap_clear bitmap_test byte_clear byte_test
  bitmap_test-clear = elim (Bool-cases (page / 8 == q / 8)) [
    | inl e ↦
        rw (e, place-eq page q, e)
          (laws.test-clear
            ∙ ap (λ i. not (page % 8 == q % 8) && byte_test (b i) (q % 8))
                ((==_iff (page / 8) (q / 8)).0 e))
    | inr e ↦ rw (e, place-eq page q, e)
  ]

ones_table : passes_below 8 (byte_test 255) ≡ true
unfolding passes_below byte_test
ones_table = refl

-- In a byte 0xFF every page is used.
pub bitmap_test_of_ones : (b : Bitmap) (q : ℕ) → b (q / 8) ≡ 255 → bitmap_test b q ≡ true
unfolding bitmap_test byte_test
bitmap_test_of_ones b q e =
    rw e (passes_below_lem 8 (byte_test 255) (q % 8) ones_table (omega arith))
