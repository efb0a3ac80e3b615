-- ===== src/Process/Scheduler/Links.antt =====
-- The circular list under a write of one `next` field.
use open_idp_os.Base.{
  ℕ, zero, suc, ◌≤◌, ◌<◌, ◌≡◌, ◌∙◌, sym, refl, ap, true, false, some, List, [], ◌∷◌, arith, ◌==◌,
  if◌then◌else◌, length, elem, Distinct, update, update_self, update_ne, Bool-cases, inl, inr,
}
use open_idp_os.Process.{Ptr}
use open_idp_os.Process.TaskList.{Chain}
use open_idp_os.Process.Scheduler.{prev_loop}

-- The list without the first occurrence of a pointer.
unfoldable pub without : Ptr → List Ptr → List Ptr
without v [] = []
without v (x ∷ xs) = if x == v then xs else x ∷ without v xs

pub last_of : Ptr → List Ptr → Ptr
last_of x [] = x
last_of x (y ∷ ys) = last_of y ys

module _ (next : ℕ → ℕ) where
  -- A write elsewhere leaves a chain as it is.
  Chain-update :
      (a r p q : ℕ) (xs : List Ptr)
      → Chain next p xs q
      → elem a (p ∷ xs) ≡ false
      → Chain (update next a r) p xs q
  Chain-update a r p q [] c out = update_ne next r (ground arith) ∙ c
  Chain-update a r p q (x ∷ xs) c out =
      (update_ne next r (ground arith) ∙ c.0, Chain-update a r x q xs c.1 (ground arith))

  -- Passing over `x`.
  bypass :
      (p x v head : ℕ) (xs : List Ptr)
      → Chain next x xs head
      → x ≡ v
      → elem p (x ∷ xs) ≡ false
      → Chain (update next p (next v)) p xs head
  bypass p x v head [] c e out = update_self next p (next v) ∙ (ap next (sym e) ∙ c)
  bypass p x v head (y ∷ ys) c e out = (
    update_self next p (next v) ∙ (ap next (sym e) ∙ c.0),
    Chain-update p (next v) y head ys c.1 (ground arith),
  )

  -- The walk from `p` to the task before `v`, which is not at the head.
  pub prev_loop-inside :
      (head v fuel p : ℕ) (xs : List Ptr)
      → Chain next p xs head
      → Distinct (p ∷ xs)
      → elem head xs ≡ false
      → elem v xs ≡ true
      → (v == head) ≡ false
      → length xs ≤ fuel
      → (prev : Ptr) × (prev_loop next head v fuel p ≡ some (some prev))
        × (next prev ≡ v)
        × (elem prev (p ∷ xs) ≡ true)
        × Chain (update next prev (next v)) p (without v xs) head
  unfolding prev_loop without
  prev_loop-inside head v fuel p [] c d out m ne h = cc
  prev_loop-inside head v zero p (x ∷ xs) c d out m ne h = absurd (omega arith)
  prev_loop-inside head v (suc f) p (x ∷ xs) c d out m ne h = elim (Bool-cases (x == v)) [
    | inl here ↦
        (let e : next p ≡ v = ground arith in
          (
            p,
            rw (c.0, here),
            e,
            ground arith,
            rw here (bypass p x v head xs c.1 (ground arith) d.0),
          ))
    | inr later ↦
        (let (prev, found, e, inside, chain) =
            prev_loop-inside head v f x xs c.1 d.1 (ground arith) (ground arith) ne (omega arith) in
          (
            prev,
            rw (c.0, later, the_head) found,
            e,
            ground arith,
            rw later (update_ne next (next v) (ground arith) ∙ c.0, chain),
          ))
  ]
    where
      the_head : (x == head) ≡ false
      the_head = ground arith

  -- The last task of the circle leads back to the head; its link is moved to `r`.
  pub prev_loop-last :
      (head fuel p r : ℕ) (xs : List Ptr)
      → Chain next p xs head
      → Distinct (p ∷ xs)
      → elem head xs ≡ false
      → length xs < fuel
      → (prev_loop next head head fuel p ≡ some (some (last_of p xs)))
        × (elem (last_of p xs) (p ∷ xs) ≡ true)
        × Chain (update next (last_of p xs) r) p xs r
  unfolding prev_loop last_of
  prev_loop-last head zero p r xs c d out h = absurd (omega arith)
  prev_loop-last head (suc f) p r [] c d out h = (ground arith, ground arith, update_self next p r)
  prev_loop-last head (suc f) p r (x ∷ xs) c d out h =
      let (found, inside, chain) =
        prev_loop-last head f x r xs c.1 d.1 (ground arith) (omega arith) in
      (rw (c.0, not_head) found, ground arith, (update_ne next r (ground arith) ∙ c.0, chain))
    where
      not_head : (x == head) ≡ false
      not_head = ground arith

pub elem-without : (v t : ℕ) (xs : List Ptr) → elem t xs ≡ false → elem t (without v xs) ≡ false
unfolding without
elem-without v t [] h = refl
elem-without v t (x ∷ xs) h = elim (Bool-cases (x == v)) [
  | inl e ↦ rw e (ground arith)
  | inr e ↦ rw e (ground (arith, elem-without v t xs))
]

pub Distinct-without : (v : ℕ) (xs : List Ptr) → Distinct xs → Distinct (without v xs)
unfolding without
Distinct-without v [] d = tt
Distinct-without v (x ∷ xs) d = elim (Bool-cases (x == v)) [
  | inl e ↦ rw e d.1
  | inr e ↦ rw e (elem-without v x xs d.0, Distinct-without v xs d.1)
]
