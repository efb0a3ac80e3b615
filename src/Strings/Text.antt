-- ===== src/Strings/Text.antt =====
-- strlen, strchr, strcpy and strncpy.
use mathlib.Core.Path.{subst}
use open_idp_os.Base.{
  ℕ, zero, suc, ◌+◌, ◌-◌, ◌%◌, ◌^◌, ◌≤◌, ◌<◌, ◌≡◌, ◌⊎◌, ◌∙◌, ap, refl, ◌&&◌, arith, ◌==◌, ltb, leb,
  if◌then◌else◌, inl, List, [], ◌∷◌, length, get_or, some, update, update_ne, update_self,
}
use open_idp_os.Strings.{
  Bytes, strlen_loop, strlen, strchr, strcpy, pad_loop, strncpy_loop, strncpy,
}
use open_idp_os.Strings.Compare.{Holds}

strlen_loop-length :
    (m : Bytes) (fuel s p : ℕ) (xs : List ℕ)
    → Holds m p xs
    → length xs < fuel
    → s ≤ p
    → strlen_loop fuel s p m ≡ some (p + length xs - s)
unfolding strlen_loop
strlen_loop-length m zero s p xs h lt le = absurd (omega arith)
strlen_loop-length m (suc f) s p [] h lt le = ground arith
strlen_loop-length m (suc f) s p (x ∷ xs) h lt le =
    ground (arith, strlen_loop-length m f s (p + 1) xs h.2)

-- The place of the first `c` in a string, or NULL.
abbrev pub place_of : (s c : ℕ) → List ℕ → ℕ
place_of s c [] = if c == 0 then s else 0
place_of s c (x ∷ xs) = if x == c then s else place_of (s + 1) c xs

-- With more fuel than the string is long, strchr ends at the first place of the low byte of `c`,
-- the NUL behind the string included, and with NULL if there is none.
pub strchr_lem :
    (m : Bytes) (fuel s c : ℕ) (xs : List ℕ)
    → Holds m s xs
    → length xs < fuel
    → strchr fuel s c m ≡ some (place_of s (c % 2 ^ 8) xs)
unfolding strchr
strchr_lem m zero s c xs h lt = absurd (omega arith)
strchr_lem m (suc f) s c [] h lt = ground arith
strchr_lem m (suc f) s c (x ∷ xs) h lt = ground (arith, strchr_lem m f (s + 1) c xs h.2)

-- A write outside a string keeps it.
Holds-update :
    (m : Bytes) (s a v : ℕ) (xs : List ℕ)
    → Holds m s xs
    → (a < s) ⊎ (s + length xs < a)
    → Holds (update m a v) s xs
Holds-update m s a v [] h out = ground arith
Holds-update m s a v (x ∷ xs) h out =
    (ground arith, h.1, Holds-update m (s + 1) a v xs h.2 (ground arith))

abbrev pub Apart : (d src n : ℕ) → Type 0
Apart d src n = (d + n < src) ⊎ (src + n < d)

record Copied (d : ℕ) (xs : List ℕ) (m m' : Bytes) : Type 0 where
  pub holds : Holds m' d xs
  pub rest : (a : ℕ) → (a < d) ⊎ (d + length xs < a) → m' a ≡ m a

strcpy-Copied :
    (m : Bytes) (fuel d src : ℕ) (xs : List ℕ)
    → Holds m src xs
    → length xs < fuel
    → Apart d src (length xs)
    → (m' : Bytes) × (strcpy fuel d src m ≡ some m') × Copied d xs m m'
unfolding strcpy
strcpy-Copied m zero d src xs h lt out = absurd (omega arith)
strcpy-Copied m (suc f) d src [] h lt out = (
  update m d (m src),
  (rw h refl),
  record { holds = update_self m d (m src) ∙ h; rest = λ a o. ground arith },
)
strcpy-Copied m (suc f) d src (x ∷ xs) h lt out =
    let (m', e, c) =
      strcpy-Copied (update m d (m src)) f (d + 1) (src + 1) xs
        (Holds-update m (src + 1) d (m src) xs h.2 (ground arith)) (omega arith) (ground arith) in
    (
      m',
      ground (arith, e),
      record {
        holds = (c.rest d (inl (omega arith)) ∙ update_self m d (m src) ∙ h.0, h.1, c.holds);
        rest = λ a o. c.rest a (ground arith) ∙ update_ne m (m src) (ground arith);
      },
    )

-- With more fuel than the string at `src` is long, and if the destination lies apart from it,
-- strcpy ends; then the string stands at the destination too, strlen there gives its length, and
-- no byte outside the destination has changed.
pub strlen-strcpy :
    (m : Bytes) (fuel d src : ℕ) (xs : List ℕ)
    → Holds m src xs
    → length xs < fuel
    → Apart d src (length xs)
    → (m' : Bytes) × (strcpy fuel d src m ≡ some m')
      × Holds m' d xs
      × (strlen fuel d m' ≡ some (length xs))
      × ((a : ℕ) → (a < d) ⊎ (d + length xs < a) → m' a ≡ m a)
unfolding strlen
strlen-strcpy m fuel d src xs h lt out =
    let (m', e, c) = strcpy-Copied m fuel d src xs h lt out in
    (
      m',
      e,
      c.holds,
      strlen_loop-length m' fuel d d xs c.holds lt (omega arith) ∙ ap some (omega arith),
      c.rest,
    )

pad_loop_lem :
    (dest left i : ℕ) (m : Bytes) (a : ℕ)
    → pad_loop dest left i m a ≡ (if leb (dest + i) a && ltb a (dest + i + left) then 0 else m a)
unfolding pad_loop
pad_loop_lem dest zero i m a = ground arith
pad_loop_lem dest (suc left) i m a =
    ground (arith, pad_loop_lem dest left (i + 1) (update m (dest + i) 0) a)

move-Holds : (m : Bytes) (xs : List ℕ) (s t : ℕ) → s ≡ t → Holds m s xs → Holds m t xs
move-Holds m xs s t e h = subst (λ p. Holds m p xs) e h

get_or_step : (x : ℕ) (xs : List ℕ) (a b : ℕ) → suc b ≡ a → get_or (x ∷ xs) a 0 ≡ get_or xs b 0
get_or_step x xs zero b e = absurd (omega arith)
get_or_step x xs (suc a) b e = ap (λ n. get_or xs n 0) (omega arith)

strncpy_loop_lem :
    (dest src left i : ℕ) (m : Bytes) (xs : List ℕ)
    → Holds m (src + i) xs
    → (dest + i + left ≤ src + i) ⊎ (src + i + length xs < dest + i)
    → (a : ℕ)
    → strncpy_loop dest src left i m a
      ≡ (if leb (dest + i) a && ltb a (dest + i + left) then get_or xs (a - (dest + i)) 0 else m a)
unfolding strncpy_loop
strncpy_loop_lem dest src zero i m xs h out a = ground arith
strncpy_loop_lem dest src (suc left) i m [] h out a =
    ground (arith, pad_loop_lem dest (suc left) i m a)
strncpy_loop_lem dest src (suc left) i m (x ∷ xs) h out a = ground (
  arith,
  strncpy_loop_lem dest src left (i + 1) (update m (dest + i) (m (src + i))) xs
      (move-Holds (update m (dest + i) (m (src + i))) xs (src + i + 1) (src + (i + 1)) (omega arith)
        (Holds-update m (src + i + 1) (dest + i) (m (src + i)) xs h.2 (ground arith)))
      (ground arith) a,
  get_or_step x xs (a - (dest + i)) (a - (dest + (i + 1))),
)

-- If the string lies apart from the destination, strncpy writes the n bytes from `dest` on and no
-- other: the string's first n characters, and then zeros.
pub strncpy_lem :
    (m : Bytes) (dest src n : ℕ) (xs : List ℕ)
    → Holds m src xs
    → (dest + n ≤ src) ⊎ (src + length xs < dest)
    → (a : ℕ)
    → strncpy dest src n m a
      ≡ (if leb dest a && ltb a (dest + n) then get_or xs (a - dest) 0 else m a)
unfolding strncpy
strncpy_lem m dest src n xs h out a = ground (
  arith,
  strncpy_loop_lem dest src n 0 m xs (move-Holds m xs src (src + 0) (omega arith) h) (ground arith)
      a,
)
