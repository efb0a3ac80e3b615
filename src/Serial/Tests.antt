-- ===== src/Serial/Tests.antt =====
-- Printing at concrete inputs.
use open_idp_os.Base.{ℕ, ◌≤◌, ◌≡◌, refl, inl, some, none, List, [], ◌∷◌, ◌++◌, arith, length}
use open_idp_os.Serial.{serial_write_uint, serial_printf}
use open_idp_os.Serial.Digits.{Numeral, serial_write_uint_lem}
use open_idp_os.Serial.Pieces.{
  Piece, literal, text, decimal, unknown, PrintsAll, format_of, arguments_of, serial_printf_lem,
}

serial_write_uint_example :
    (ds : List ℕ) × (serial_write_uint 65 1024 10 [] ≡ some ([] ++ ds))
    × Numeral 10 1024 ds
    × (length ds ≤ 20)
serial_write_uint_example = serial_write_uint_lem 10 1024 [] (inl refl) (omega arith)

-- "A%d%s%z" with -1 and NULL.
abbrev pieces : List Piece
pieces = literal 65 refl ∷ decimal 0xFFFFFFFF (omega arith) ∷ text none ∷ unknown b'z' refl ∷ []

serial_printf_example :
    (out : List ℕ) × (serial_printf (format_of pieces) (arguments_of pieces) [] ≡ some ([] ++ out))
    × PrintsAll pieces out
serial_printf_example = serial_printf_lem pieces []
