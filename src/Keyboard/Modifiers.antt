-- ===== src/Keyboard/Modifiers.antt =====
-- Which modifier flags keyboard_handler has set after a history of scancodes.
use open_idp_os.Base.{
  ℕ, ◌≡◌, refl, Bool, true, false, ◌&&◌, ◌||◌, List, [], ◌∷◌, arith, ◌==◌, if◌then◌else◌,
}
use open_idp_os.Keyboard.{
  Keyboard, initial, keyboard_buffer_write, regular_key, keyboard_handler, pack, plain_char,
  shifted_char,
}

-- The driver after the interrupts for these scancodes, the newest first.
pub after : List ℕ → Keyboard
after [] = initial
after (c ∷ older) = keyboard_handler 1 c (after older)

-- Whether the newest of the press and release events in a history is a press.
pub latest : (press release : ℕ → Bool) → List ℕ → Bool
latest press release [] = false
latest press release (c ∷ older) =
    let rest = latest press release older in
    if press c then true else if release c then false else rest

abbrev pub newest_is : ℕ → List ℕ → Bool
newest_is c [] = false
newest_is c (d ∷ older) = d == c

-- The same for a key whose codes are behind the prefix byte 0xE0.
pub latest_extended : (press release : ℕ) → List ℕ → Bool
latest_extended press release [] = false
latest_extended press release (c ∷ older) =
    let rest = latest_extended press release older in
    if newest_is 0xE0 older && c == press
    then true
    else if newest_is 0xE0 older && c == release
    then false
    else rest

pub record SameFlags (k l : Keyboard) : Type 0 where
  pub shift : k.mod_shift ≡ l.mod_shift
  pub ctrl : k.mod_ctrl ≡ l.mod_ctrl
  pub alt : k.mod_alt ≡ l.mod_alt
  pub super : k.mod_super ≡ l.mod_super

write-SameFlags : (k : Keyboard) (x : ℕ) → SameFlags (keyboard_buffer_write k x) k
unfolding keyboard_buffer_write
write-SameFlags k x = ground arith

-- A key that is no modifier changes no flag and drops the prefix.
pub regular_key-SameFlags :
    (k : Keyboard) (c : ℕ) → SameFlags (regular_key k c) k × ((regular_key k c).e0_prefix ≡ false)
unfolding regular_key
regular_key-SameFlags k c = ground (
  arith,
  write-SameFlags k (
      pack k.mod_shift k.mod_ctrl k.mod_alt k.mod_super
        (if k.mod_shift then shifted_char c else plain_char c)),
)

-- The flags of the driver against the history.
pub record Agrees (k : Keyboard) (h : List ℕ) : Type 0 where
  pub shift : k.mod_shift ≡ latest (λ c. c == 0x2A || c == 0x36) (λ c. c == 0xAA || c == 0xB6) h
  pub ctrl : k.mod_ctrl ≡ latest (λ c. c == 0x1D) (λ c. c == 0x9D) h
  pub alt : k.mod_alt ≡ latest (λ c. c == 0x38) (λ c. c == 0xB8) h
  pub super : k.mod_super ≡ latest_extended 0x5B 0xDB h
  pub prefix : k.e0_prefix ≡ newest_is 0xE0 h

step-Agrees :
    (k : Keyboard) (c : ℕ) (h : List ℕ) → Agrees k h → Agrees (keyboard_handler 1 c k) (c ∷ h)
unfolding keyboard_handler latest latest_extended
step-Agrees k c h a = ground (arith, regular_key-SameFlags k c)

-- After any history of scancodes, each modifier flag tells whether the newest press or release of
-- that modifier in the history is a press, where shift has two keys with one flag and super
-- counts only behind 0xE0; and the prefix flag tells whether the newest scancode is 0xE0.
pub after-Agrees : (h : List ℕ) → Agrees (after h) h
unfolding after latest latest_extended
after-Agrees [] = record { shift = refl; ctrl = refl; alt = refl; super = refl; prefix = refl }
after-Agrees (c ∷ h) = step-Agrees (after h) c h (after-Agrees h)
