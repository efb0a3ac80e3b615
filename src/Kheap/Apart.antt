-- ===== src/Kheap/Apart.antt =====
-- Heaps in which no two segments side by side are free.
use open_idp_os.Base.{
  ℕ, ◌+◌, ◌-◌, ◌≡◌, ◌⊎◌, ◌∙◌, refl, ap, true, false, not, arith, ◌==◌, ltb, if◌then◌else◌, List, [],
  ◌∷◌, ◌++◌, Bool-cases, inl, inr,
}
use open_idp_os.Kheap.{header}
use open_idp_os.Kheap.Segments.{Segment, behind}
use open_idp_os.Kheap.Fit.{carve}
use open_idp_os.Kheap.Merge.{absorbed, left_over}
use open_idp_os.Kheap.Free.{unwind, collapse}

abbrev pub flag_of : List Segment → ℕ
flag_of [] = 0
flag_of ((n, free) ∷ segments) = free

-- No two segments side by side are free, and a flag is 0 or 1.
abbrev pub Apart : List Segment → Type 0
Apart [] = Unit
Apart ((n, free) ∷ segments) = ((free ≡ 0) ⊎ ((free ≡ 1) × (flag_of segments ≡ 0))) × Apart segments

Apart-unwind : (back segments : List Segment) → Apart (unwind back segments) → Apart segments
Apart-unwind [] segments apart = apart
Apart-unwind (s ∷ back) segments apart = (Apart-unwind back (s ∷ segments) apart).1

free_side :
    (free flag : ℕ)
    → not (free == 0) ≡ true
    → (free ≡ 0) ⊎ ((free ≡ 1) × (flag ≡ 0))
    → (free ≡ 1) × (flag ≡ 0)
free_side free flag ok (inl none_free) =
    let taken : not (free == 0) ≡ false = ap (λ x. not (x == 0)) none_free in absurd (cc)
free_side free flag ok (inr both) = both

-- What lies on both sides of a free segment is in use.
pub around :
    (back : List Segment) (n free : ℕ) (segments : List Segment)
    → Apart (unwind back ((n, free) ∷ segments))
    → not (free == 0) ≡ true
    → (free ≡ 1) × (flag_of back ≡ 0) × (flag_of segments ≡ 0)
around [] n free segments apart ok =
    let (one, behind) = free_side free (flag_of segments) ok apart.0 in (one, refl, behind)
around ((m, free') ∷ back) n free segments apart ok =
    let near = Apart-unwind back ((m, free') ∷ (n, free) ∷ segments) apart in
    let (one, behind) = free_side free (flag_of segments) ok near.1.0 in
    (one, elim near.0 [ inl used ↦ used | inr both ↦ absurd (omega (arith, one, both.1)) ], behind)

absorbed-flag : (m : ℕ) (segments : List Segment) → flag_of segments ≡ 0 → absorbed m segments ≡ m
absorbed-flag m [] used = refl
absorbed-flag m ((k, free) ∷ segments) used = rw used refl

left_over-flag : (segments : List Segment) → flag_of segments ≡ 0 → left_over segments ≡ segments
left_over-flag [] used = refl
left_over-flag ((k, free) ∷ segments) used = rw used refl

collapse-flag :
    (back : List Segment) (m free : ℕ) (segments : List Segment)
    → flag_of back ≡ 0
    → collapse back m free segments ≡ unwind back ((absorbed m segments, free) ∷ left_over segments)
collapse-flag [] m free segments used = refl
collapse-flag ((n, free') ∷ back) m free segments used = rw used refl

-- The segment that was carved, and what lies behind it then.
abbrev pub carved : (size n : ℕ) → ℕ
carved size n = if ltb n (size + 72) then n else size

abbrev pub behind_carved : (size n : ℕ) → List Segment → List Segment
behind_carved size n segments =
    if ltb n (size + 72) then segments else (n - size - 40, 1) ∷ segments

pub carve-carved :
    (size n : ℕ) (segments : List Segment)
    → carve size n ++ segments ≡ (carved size n, 0) ∷ behind_carved size n segments
carve-carved size n segments = elim (Bool-cases (ltb n (size + 72))) [
  | inl few ↦ rw few refl
  | inr many ↦ rw many refl
]

-- It merges into the one that it was carved from.
pub collapse-carve :
    (back : List Segment) (size n : ℕ) (segments : List Segment)
    → flag_of back ≡ 0
    → flag_of segments ≡ 0
    → collapse back (carved size n) 1 (behind_carved size n segments)
      ≡ unwind back ((n, 1) ∷ segments)
collapse-carve back size n segments lo hi =
    collapse-flag back (carved size n) 1 (behind_carved size n segments) lo
    ∙ elim (Bool-cases (ltb n (size + 72))) [
      | inl few ↦ rw few (
          ap (λ m. unwind back ((m, 1) ∷ left_over segments)) (absorbed-flag n segments hi)
          ∙ ap (λ xs. unwind back ((n, 1) ∷ xs)) (left_over-flag segments hi))
      | inr many ↦
          let whole : size + (header + (n - size - 40)) ≡ n = ground arith in
          rw many (ap (λ m. unwind back ((m, 1) ∷ segments)) whole)
    ]
