-- ===== src/Strings/Move.antt =====
-- memcpy, memmove and memset: every byte of memory after them.
use open_idp_os.Base.{
  ℕ, zero, suc, ◌+◌, ◌-◌, ◌%◌, ◌^◌, ◌≤◌, ◌<◌, ◌≡◌, ◌⊎◌, ◌&&◌, arith, ltb, leb, if◌then◌else◌,
  Bool-cases, inl, inr, update,
}
use open_idp_os.Strings.{Bytes, copy_up, copy_down, memcpy, memmove, set_up, memset}

-- The n bytes from `dest` on are those that `m` has from `src` on, and the others are as in `m`.
abbrev pub moved : (dest src n : ℕ) → Bytes → Bytes
moved dest src n m a = if leb dest a && ltb a (dest + n) then m (src + (a - dest)) else m a

-- The part of `moved` from the i-th byte on.
abbrev tail : (dest src left i : ℕ) → Bytes → Bytes
tail dest src left i m a =
    if leb (dest + i) a && ltb a (dest + i + left) then m (src + (a - dest)) else m a

copy_up-tail :
    (dest src left i : ℕ) (m : Bytes)
    → (dest < src) ⊎ (src + i + left ≤ dest)
    → (a : ℕ) → copy_up dest src left i m a ≡ tail dest src left i m a
unfolding copy_up
copy_up-tail dest src zero i m ok a = ground arith
copy_up-tail dest src (suc left) i m ok a =
    ground (
      arith,
      copy_up-tail dest src left (i + 1) (update m (dest + i) (m (src + i))) (ground arith) a,
    )

copy_down-moved :
    (dest src n : ℕ) (m : Bytes)
    → src < dest
    → (a : ℕ) → copy_down dest src n m a ≡ moved dest src n m a
unfolding copy_down
copy_down-moved dest src zero m lt a = ground arith
copy_down-moved dest src (suc i) m lt a =
    ground (arith, copy_down-moved dest src i (update m (dest + i) (m (src + i))) lt a)

-- memmove moves the n bytes as they were before the call, wherever the two areas lie and however
-- they overlap, and changes no other byte.
pub memmove_lem :
    (dest src n : ℕ) (m : Bytes) (a : ℕ) → memmove dest src n m a ≡ moved dest src n m a
unfolding memmove
memmove_lem dest src n m a = elim (Bool-cases (ltb dest src)) [
  | inl t ↦ ground (arith, copy_up-tail dest src n 0 m (inl (ground arith)) a)
  | inr f ↦ elim (Bool-cases (ltb src dest)) [
    | inl t ↦ ground (arith, copy_down-moved dest src n m (ground arith) a)
    | inr g ↦ ground arith
  ]
]

-- If the two areas do not overlap, memcpy writes what memmove writes.
pub memcpy-memmove :
    (dest src n : ℕ) (m : Bytes)
    → (src + n ≤ dest) ⊎ (dest + n ≤ src)
    → (a : ℕ) → memcpy dest src n m a ≡ memmove dest src n m a
unfolding memcpy
memcpy-memmove dest src n m apart a =
    ground (arith, memmove_lem dest src n m a, copy_up-tail dest src n 0 m (ground arith) a)

set_up-tail :
    (s c left i : ℕ) (m : Bytes) (a : ℕ)
    → set_up s c left i m a ≡ (if leb (s + i) a && ltb a (s + i + left) then c % 2 ^ 8 else m a)
unfolding set_up
set_up-tail s c zero i m a = ground arith
set_up-tail s c (suc left) i m a =
    ground (arith, set_up-tail s c left (i + 1) (update m (s + i) (c % 2 ^ 8)) a)

-- memset sets the n bytes from `s` on to the low byte of `c` and no other byte.
pub memset_lem :
    (s c n : ℕ) (m : Bytes) (a : ℕ)
    → memset s c n m a ≡ (if leb s a && ltb a (s + n) then c % 2 ^ 8 else m a)
unfolding memset
memset_lem s c n m a = ground (arith, set_up-tail s c n 0 m a)
