-- ===== src/Keyboard.antt =====
-- src/drivers/keyboard.c: the scancode decoder of the PS/2 keyboard and its ring of key packets.
-- The ports are arguments: `status` and `scancode` are what the two `inb` calls return.
pub mod Queue
pub mod Refine
pub mod Modifiers
pub mod Packets
mod Tests
use open_idp_os.Base.{
  ℕ, ◌+◌, ◌%◌, Bool, true, false, not, ◌&&◌, ◌||◌, List, [], ◌∷◌, ltb, ◌==◌, if◌then◌else◌, get_or,
  update, bit, bit_or,
}

abbrev pub buffer_size : ℕ
buffer_size = 256

-- The static variables. The modifier and prefix flags are ints that hold 0 or 1.
pub record Keyboard : Type 0 where
  pub buffer : ℕ → ℕ
  pub kb_head : ℕ
  pub kb_tail : ℕ
  pub mod_shift : Bool
  pub mod_ctrl : Bool
  pub mod_alt : Bool
  pub mod_super : Bool
  pub e0_prefix : Bool

abbrev pub initial : Keyboard
initial = record {
  buffer = λ _. 0;
  kb_head = 0;
  kb_tail = 0;
  mod_shift = false;
  mod_ctrl = false;
  mod_alt = false;
  mod_super = false;
  e0_prefix = false;
}

-- The initialisers; the rest of the 128 entries is zero, the default of the reads below.
pub scancode_map : List ℕ
scancode_map =
    0 ∷ 27 ∷ b'1' ∷ b'2' ∷ b'3' ∷ b'4' ∷ b'5' ∷ b'6' ∷ b'7' ∷ b'8' ∷ b'9' ∷ b'0' ∷ b'-' ∷ b'=' ∷ 8
    ∷ 9 ∷ b'q' ∷ b'w' ∷ b'e' ∷ b'r' ∷ b't' ∷ b'y' ∷ b'u' ∷ b'i' ∷ b'o' ∷ b'p' ∷ b'[' ∷ b']' ∷ 10 ∷ 0
    ∷ b'a' ∷ b's' ∷ b'd' ∷ b'f' ∷ b'g' ∷ b'h' ∷ b'j' ∷ b'k' ∷ b'l' ∷ b';' ∷ 39 ∷ b'`' ∷ 0 ∷ 92
    ∷ b'z' ∷ b'x' ∷ b'c' ∷ b'v' ∷ b'b' ∷ b'n' ∷ b'm' ∷ b',' ∷ b'.' ∷ b'/' ∷ 0 ∷ b'*' ∷ 0 ∷ b' ' ∷ []

pub scancode_map_shifted : List ℕ
scancode_map_shifted =
    0 ∷ 27 ∷ b'!' ∷ b'@' ∷ b'#' ∷ b'$' ∷ b'%' ∷ b'^' ∷ b'&' ∷ b'*' ∷ b'(' ∷ b')' ∷ b'_' ∷ b'+' ∷ 8
    ∷ 9 ∷ b'Q' ∷ b'W' ∷ b'E' ∷ b'R' ∷ b'T' ∷ b'Y' ∷ b'U' ∷ b'I' ∷ b'O' ∷ b'P' ∷ b'{' ∷ b'}' ∷ 10 ∷ 0
    ∷ b'A' ∷ b'S' ∷ b'D' ∷ b'F' ∷ b'G' ∷ b'H' ∷ b'J' ∷ b'K' ∷ b'L' ∷ b':' ∷ 34 ∷ b'~' ∷ 0 ∷ b'|'
    ∷ b'Z' ∷ b'X' ∷ b'C' ∷ b'V' ∷ b'B' ∷ b'N' ∷ b'M' ∷ b'<' ∷ b'>' ∷ b'?' ∷ 0 ∷ b'*' ∷ 0 ∷ b' ' ∷ []

-- scancode_map[c] and scancode_map_shifted[c].
pub plain_char : ℕ → ℕ
unfolding scancode_map
plain_char c = get_or scancode_map c 0

pub shifted_char : ℕ → ℕ
unfolding scancode_map_shifted
shifted_char c = get_or scancode_map_shifted c 0

pub keyboard_buffer_write : Keyboard → ℕ → Keyboard
keyboard_buffer_write k packet =
    let next_head = (k.kb_head + 1) % buffer_size in
    if not (next_head == k.kb_tail)
    then record k { buffer = update k.buffer k.kb_head packet; kb_head = next_head }
    else k

-- 0 stands for an empty buffer.
pub keyboard_read_key : Keyboard → ℕ × Keyboard
keyboard_read_key k =
    if k.kb_head == k.kb_tail
    then (0, k)
    else (k.buffer k.kb_tail, record k { kb_tail = (k.kb_tail + 1) % buffer_size })

-- `uint16_t packet = ascii;` for a char, which is signed, given as its byte.
pub widen_char : (ascii : ℕ) → ℕ
widen_char ascii = if ltb ascii 128 then ascii else ascii + 0xFF00

-- The `|=` chain that packs the modifier flags above the character.
pub pack : Bool → Bool → Bool → Bool → ℕ → ℕ
unfolding widen_char
pack shift ctrl alt super ascii =
    let packet = widen_char ascii in
    let packet = (if shift then bit_or packet 0x0100 else packet) in
    let packet = (if ctrl then bit_or packet 0x0200 else packet) in
    let packet = (if alt then bit_or packet 0x0400 else packet) in
    if super then bit_or packet 0x0800 else packet

-- The last part of the handler: a key that is no modifier.
pub regular_key : Keyboard → ℕ → Keyboard
regular_key k scancode =
    if bit scancode 7 == 0
    then if k.e0_prefix
      then record k { e0_prefix = false }
      else if ltb scancode 128 && not (plain_char scancode == 0)
      then (let ascii = (if k.mod_shift then shifted_char scancode else plain_char scancode) in
          let packet = pack k.mod_shift k.mod_ctrl k.mod_alt k.mod_super ascii in
          record (keyboard_buffer_write k packet) { e0_prefix = false })
      else record k { e0_prefix = false }
    else record k { e0_prefix = false }

pub keyboard_handler : (status scancode : ℕ) → Keyboard → Keyboard
keyboard_handler status scancode k =
    if bit status 0 == 1
    then if scancode == 0xE0
      then record k { e0_prefix = true }
      else if scancode == 0x2A || scancode == 0x36
      then record k { mod_shift = true; e0_prefix = false }
      else if scancode == 0xAA || scancode == 0xB6
      then record k { mod_shift = false; e0_prefix = false }
      else if scancode == 0x1D
      then record k { mod_ctrl = true; e0_prefix = false }
      else if scancode == 0x9D
      then record k { mod_ctrl = false; e0_prefix = false }
      else if scancode == 0x38
      then record k { mod_alt = true; e0_prefix = false }
      else if scancode == 0xB8
      then record k { mod_alt = false; e0_prefix = false }
      else if k.e0_prefix && scancode == 0x5B
      then record k { mod_super = true; e0_prefix = false }
      else if k.e0_prefix && scancode == 0xDB
      then record k { mod_super = false; e0_prefix = false }
      else regular_key k scancode
    else k
