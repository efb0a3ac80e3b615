-- ===== src/Strings/Tests.antt =====
-- The functions of src/utility/kstring.c at concrete inputs.
use open_idp_os.Base.{
  ℕ, ◌+◌, ◌-◌, ◌%◌, ◌^◌, ◌<◌, ◌≡◌, ◌⊎◌, refl, ◌&&◌, inl, inr, List, [], ◌∷◌, arith, ◌==◌, ltb, leb,
  if◌then◌else◌, length, some, get_or,
}
use open_idp_os.Strings.{
  Bytes, memcpy, memmove, memset, memcmp, strncmp, strchr, strcpy, strncpy, strlen,
}
use open_idp_os.Strings.Move.{moved, memmove_lem, memcpy-memmove, memset_lem}
use open_idp_os.Strings.Compare.{Holds, Compared, difference, take, memcmp_lem, strncmp-difference}
use open_idp_os.Strings.Text.{place_of, strchr_lem, strlen-strcpy, strncpy_lem}

-- "hi" at 16 and "ho" at 32.
abbrev two_texts : Bytes
two_texts a =
    if a == 16
    then 104
    else if a == 17
    then 105
    else if a == 32
    then 104
    else if a == 33
    then 111
    else 0

abbrev hi : List ℕ
hi = 104 ∷ 105 ∷ []

abbrev ho : List ℕ
ho = 104 ∷ 111 ∷ []

hi-Holds : Holds two_texts 16 hi
hi-Holds = (refl, omega arith, (refl, omega arith, refl))

ho-Holds : Holds two_texts 32 ho
ho-Holds = (refl, omega arith, (refl, omega arith, refl))

-- The areas overlap.
memmove_example : memmove 17 16 2 two_texts 18 ≡ moved 17 16 2 two_texts 18
memmove_example = memmove_lem 17 16 2 two_texts 18

memcpy-memmove_example : memcpy 48 16 2 two_texts 49 ≡ memmove 48 16 2 two_texts 49
memcpy-memmove_example = memcpy-memmove 48 16 2 two_texts (inl (omega arith)) 49

memset_example :
    memset 16 0x141 1 two_texts 16 ≡ (if leb 16 16 && ltb 16 (16 + 1) then 0x141 % 2 ^ 8 else 104)
memset_example = memset_lem 16 0x141 1 two_texts 16

memcmp_example : Compared two_texts 16 32 0 2 (memcmp 16 32 2 two_texts)
memcmp_example = memcmp_lem two_texts 16 32 2

strncmp-difference_example : strncmp 16 32 1 two_texts ≡ difference (take 1 hi) (take 1 ho)
strncmp-difference_example = strncmp-difference two_texts 16 32 1 hi ho hi-Holds ho-Holds

strchr_example : strchr 3 16 105 two_texts ≡ some (place_of 16 (105 % 2 ^ 8) hi)
strchr_example = strchr_lem two_texts 3 16 105 hi hi-Holds (omega arith)

strlen-strcpy_example :
    (m' : Bytes) × (strcpy 3 48 16 two_texts ≡ some m')
    × Holds m' 48 hi
    × (strlen 3 48 m' ≡ some (length hi))
    × ((a : ℕ) → (a < 48) ⊎ (48 + length hi < a) → m' a ≡ two_texts a)
strlen-strcpy_example =
    strlen-strcpy two_texts 3 48 16 hi hi-Holds (omega arith) (inr (omega arith))

strncpy_example :
    strncpy 48 16 4 two_texts 51
    ≡ (if leb 48 51 && ltb 51 (48 + 4) then get_or hi (51 - 48) 0 else two_texts 51)
strncpy_example = strncpy_lem two_texts 48 16 4 hi hi-Holds (inr (omega arith)) 51
