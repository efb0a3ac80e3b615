-- ===== src/Strings.antt =====
-- src/utility/kstring.c: the byte and string functions of the kernel, over memory as a map from
-- addresses to bytes. An object lies within the address space, so that no pointer wraps around.
pub mod Move
pub mod Compare
pub mod Text
mod Tests
use open_idp_os.Base.{
  ℕ, zero, suc, ◌+◌, ◌-◌, ◌%◌, ◌^◌, Bool, not, ◌&&◌, ◌||◌, Option, none, some, List, [], ◌∷◌, ◌==◌,
  ltb, leb, if◌then◌else◌, update, ℤ, pos, negsuc,
}

abbrev pub Bytes : Type 0
Bytes = ℕ → ℕ

-- `for (i = ...; i < n; i++) pdest[i] = psrc[i];` with `left` turns to go.
pub copy_up : (dest src left i : ℕ) → Bytes → Bytes
copy_up dest src zero i m = m
copy_up dest src (suc left) i m = copy_up dest src left (i + 1) (update m (dest + i) (m (src + i)))

-- `for (i = n; i > 0; i--) pdest[i-1] = psrc[i-1];`
pub copy_down : (dest src i : ℕ) → Bytes → Bytes
copy_down dest src zero m = m
copy_down dest src (suc i) m = copy_down dest src i (update m (dest + i) (m (src + i)))

pub memcpy : (dest src n : ℕ) → Bytes → Bytes
unfolding copy_up
memcpy dest src n m = copy_up dest src n 0 m

pub memmove : (dest src n : ℕ) → Bytes → Bytes
unfolding copy_up copy_down
memmove dest src n m =
    if ltb dest src
    then copy_up dest src n 0 m
    else if ltb src dest
    then copy_down dest src n m
    else m

pub set_up : (s c left i : ℕ) → Bytes → Bytes
set_up s c zero i m = m
set_up s c (suc left) i m = set_up s c left (i + 1) (update m (s + i) (c % 2 ^ 8))

pub memset : (s c n : ℕ) → Bytes → Bytes
unfolding set_up
memset s c n m = set_up s c n 0 m

pub memcmp_loop : (p1 p2 left i : ℕ) → Bytes → ℤ
memcmp_loop p1 p2 zero i m = pos 0
memcmp_loop p1 p2 (suc left) i m =
    let rest = memcmp_loop p1 p2 left (i + 1) m in
    if not (m (p1 + i) == m (p2 + i))
    then (if ltb (m (p1 + i)) (m (p2 + i)) then negsuc 0 else pos 1)
    else rest

pub memcmp : (s1 s2 n : ℕ) → Bytes → ℤ
unfolding memcmp_loop
memcmp s1 s2 n m = memcmp_loop s1 s2 n 0 m

-- a - b for two bytes, as an int.
pub byte_diff : (a b : ℕ) → ℤ
byte_diff a b = if leb b a then pos (a - b) else negsuc (b - a - 1)

-- The loops over strings run on fuel.
pub strchr : (fuel s c : ℕ) → Bytes → Option ℕ
strchr zero s c m = none
strchr (suc fuel) s c m =
    let rest = strchr fuel (s + 1) c m in
    if not (m s == 0)
    then (if m s == c % 2 ^ 8 then some s else rest)
    else if c % 2 ^ 8 == 0
    then some s
    else some 0

pub strcmp : (fuel s1 s2 : ℕ) → Bytes → Option ℤ
unfolding byte_diff
strcmp zero s1 s2 m = none
strcmp (suc fuel) s1 s2 m =
    let rest = strcmp fuel (s1 + 1) (s2 + 1) m in
    if not (m s1 == 0) && (m s1 == m s2) then rest else some (byte_diff (m s1) (m s2))

-- `n` is not negative.
pub strncmp : (s1 s2 n : ℕ) → Bytes → ℤ
unfolding byte_diff
strncmp s1 s2 zero m = pos 0
strncmp s1 s2 (suc n) m =
    let rest = strncmp (s1 + 1) (s2 + 1) n m in
    if not (m s1 == m s2) then byte_diff (m s1) (m s2) else if m s1 == 0 then pos 0 else rest

-- The second loop of strncpy, then the first one, which goes over to it.
pub pad_loop : (dest left i : ℕ) → Bytes → Bytes
pad_loop dest zero i m = m
pad_loop dest (suc left) i m = pad_loop dest left (i + 1) (update m (dest + i) 0)

pub strncpy_loop : (dest src left i : ℕ) → Bytes → Bytes
unfolding pad_loop
strncpy_loop dest src zero i m = m
strncpy_loop dest src (suc left) i m =
    let rest = strncpy_loop dest src left (i + 1) (update m (dest + i) (m (src + i))) in
    if not (m (src + i) == 0) then rest else pad_loop dest (suc left) i m

pub strncpy : (dest src n : ℕ) → Bytes → Bytes
unfolding strncpy_loop
strncpy dest src n m = strncpy_loop dest src n 0 m

pub strcpy : (fuel d src : ℕ) → Bytes → Option Bytes
strcpy zero d src m = none
strcpy (suc fuel) d src m =
    let copied = update m d (m src) in
    let rest = strcpy fuel (d + 1) (src + 1) copied in
    if not (m src == 0) then rest else some copied

pub strlen_loop : (fuel s p : ℕ) → Bytes → Option ℕ
strlen_loop zero s p m = none
strlen_loop (suc fuel) s p m =
    let rest = strlen_loop fuel s (p + 1) m in if not (m p == 0) then rest else some (p - s)

pub strlen : (fuel s : ℕ) → Bytes → Option ℕ
unfolding strlen_loop
strlen fuel s m = strlen_loop fuel s s m
