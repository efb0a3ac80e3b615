-- ===== src/Strings/Compare.antt =====
-- memcmp, strcmp and strncmp.
use mathlib.Core.Path.{subst}
use open_idp_os.Base.{
  ℕ, zero, suc, ◌+◌, ◌≤◌, ◌<◌, ◌≡◌, ◌≢◌, ◌⊎◌, ◌∙◌, ap, refl, arith, ◌==◌, if◌then◌else◌, Bool-cases,
  inl, inr, List, [], ◌∷◌, ℤ, pos, negsuc,
}
use open_idp_os.Strings.{Bytes, memcmp_loop, memcmp, byte_diff, strncmp}

-- The string `xs` stands at `s`, with its NUL behind it.
abbrev pub Holds : Bytes → ℕ → List ℕ → Type 0
Holds m s [] = m s ≡ 0
Holds m s (x ∷ xs) = (m s ≡ x) × (x ≢ 0) × Holds m (s + 1) xs

-- The n bytes at `p` and `q` from the i-th one on are equal.
abbrev pub Same : Bytes → (p q i n : ℕ) → Type 0
Same m p q i n = (j : ℕ) → i ≤ j → j < n → m (p + j) ≡ m (q + j)

-- The outcome of a comparison of n bytes from the i-th one on.
abbrev pub Compared : Bytes → (p q i n : ℕ) → ℤ → Type 0
Compared m p q i n r =
    ((r ≡ pos 0) × Same m p q i n)
    ⊎ ((j : ℕ) × (i ≤ j)
        × (j < n)
        × Same m p q i j
        × (((r ≡ negsuc 0) × (m (p + j) < m (q + j))) ⊎ ((r ≡ pos 1) × (m (q + j) < m (p + j)))))

step-Compared :
    (m : Bytes) (p q i n : ℕ) (r : ℤ)
    → m (p + i) ≡ m (q + i)
    → Compared m p q (i + 1) n r
    → Compared m p q i n r
step-Compared m p q i n r e (inl (z, same)) = inl (
  z,
  λ j le lt. elim (Bool-cases (i == j)) [
    | inl t ↦ ap (λ a. m (p + a)) (ground arith) ∙ e ∙ ap (λ a. m (q + a)) (ground arith)
    | inr t ↦ same j (ground arith) lt
  ],
)
step-Compared m p q i n r e (inr (j, le, lt, same, o)) = inr (j, omega arith, lt, first, o)
  where
    first : Same m p q i j
    first a le' lt' = elim (Bool-cases (i == a)) [
      | inl t ↦ ap (λ a. m (p + a)) (ground arith) ∙ e ∙ ap (λ a. m (q + a)) (ground arith)
      | inr t ↦ same a (ground arith) lt'
    ]

memcmp_loop-Compared :
    (m : Bytes) (p q left i n : ℕ) → i + left ≡ n → Compared m p q i n (memcmp_loop p q left i m)
unfolding memcmp_loop
memcmp_loop-Compared m p q zero i n e = inl (refl, λ j le lt. absurd (omega arith))
memcmp_loop-Compared m p q (suc left) i n e = elim (Bool-cases (m (p + i) == m (q + i))) [
  | inl t ↦ subst (Compared m p q i n) (rw t refl) (
      step-Compared m p q i n (memcmp_loop p q left (i + 1) m) (ground arith)
        (memcmp_loop-Compared m p q left (i + 1) n (omega arith)))
  | inr t ↦ inr (i, omega arith, omega arith, (λ j le lt. absurd (omega arith)), ground arith)
]

-- memcmp returns 0 if the n bytes at both places are equal; or else, at the first place where
-- they differ, -1 if the first one's byte is smaller and 1 if it is larger.
pub memcmp_lem : (m : Bytes) (p q n : ℕ) → Compared m p q 0 n (memcmp p q n m)
unfolding memcmp
memcmp_lem m p q n = memcmp_loop-Compared m p q n 0 n (omega arith)

-- The difference at the first place where two strings differ, a NUL standing behind each.
abbrev pub difference : List ℕ → List ℕ → ℤ
difference [] [] = pos 0
difference [] (y ∷ ys) = byte_diff 0 y
difference (x ∷ xs) [] = byte_diff x 0
difference (x ∷ xs) (y ∷ ys) = if x == y then difference xs ys else byte_diff x y

-- The first n elements.
abbrev pub take : ℕ → List ℕ → List ℕ
take zero xs = []
take (suc n) [] = []
take (suc n) (x ∷ xs) = x ∷ take n xs

-- For two strings at their places, strncmp returns what strcmp returns for their first n
-- characters.
pub strncmp-difference :
    (m : Bytes) (s1 s2 n : ℕ) (xs ys : List ℕ)
    → Holds m s1 xs
    → Holds m s2 ys
    → strncmp s1 s2 n m ≡ difference (take n xs) (take n ys)
unfolding strncmp
strncmp-difference m s1 s2 zero xs ys h k = refl
strncmp-difference m s1 s2 (suc n) [] [] h k = ground arith
strncmp-difference m s1 s2 (suc n) [] (y ∷ ys) h k = ground arith
strncmp-difference m s1 s2 (suc n) (x ∷ xs) [] h k = ground arith
strncmp-difference m s1 s2 (suc n) (x ∷ xs) (y ∷ ys) h k =
    ground (arith, strncmp-difference m (s1 + 1) (s2 + 1) n xs ys h.2 k.2)
