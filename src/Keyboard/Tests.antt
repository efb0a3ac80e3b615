-- ===== src/Keyboard/Tests.antt =====
-- The keyboard driver at concrete inputs.
use open_idp_os.Base.{◌+◌, ◌≤◌, ◌<◌, ◌↔◌, ◌≡◌, refl, true, false, List, [], ◌∷◌, arith}
use open_idp_os.Keyboard.{
  Keyboard, initial, pack, keyboard_buffer_write, keyboard_read_key, keyboard_handler, regular_key,
  widen_char, plain_char, shifted_char,
}
use open_idp_os.Keyboard.Queue
use open_idp_os.Keyboard.Queue.{Call, write, read}
use open_idp_os.Keyboard.Refine.{IsValid, contents, write_refines, read_refines, run, calls_refine}
use open_idp_os.Keyboard.Modifiers.{after, Agrees, after-Agrees}
use open_idp_os.Keyboard.Packets.{pack-sum, Event, interrupt, run_events, read_key-zero}

-- Two packets round the end of the array.
abbrev wrapped : Keyboard
wrapped = record initial { kb_head = 1; kb_tail = 255; buffer = λ i. i + 1 }

wrapped-IsValid : IsValid wrapped
wrapped-IsValid = omega arith

write_refines_example : contents (keyboard_buffer_write wrapped 7) ≡ Queue.push (contents wrapped) 7
write_refines_example = write_refines 7 wrapped-IsValid

read_refines_example :
    let (x, k) = keyboard_read_key wrapped in (x, contents k) ≡ Queue.pop (contents wrapped)
read_refines_example = read_refines wrapped-IsValid

abbrev calls : List Call
calls = write 5 ∷ read ∷ read ∷ read ∷ read ∷ []

calls_refine_example : run wrapped calls ≡ Queue.run (contents wrapped) calls
calls_refine_example = calls_refine calls wrapped-IsValid

run-wrapped : run wrapped calls ≡ 256 ∷ 1 ∷ 5 ∷ 0 ∷ []
unfolding run keyboard_buffer_write keyboard_read_key
run-wrapped = refl

-- Shift down, E0, super down, newest first.
after-Agrees_example : Agrees (after (0x5B ∷ 0xE0 ∷ 0x2A ∷ [])) (0x5B ∷ 0xE0 ∷ 0x2A ∷ [])
after-Agrees_example = after-Agrees (0x5B ∷ 0xE0 ∷ 0x2A ∷ [])

pack-sum_example :
    (0xE4 < 128 → pack true false true false 0xE4 ≡ 0xE4 + 0x100 + 0 + 0x400 + 0)
    × (128 ≤ 0xE4 → 0xE4 < 256 → pack true false true false 0xE4 ≡ 0xFF00 + 0xE4)
pack-sum_example = pack-sum true false true false 0xE4

-- Shift and the key q.
abbrev shifted_q : List Event
shifted_q = interrupt 1 0x2A (omega arith) ∷ interrupt 1 0x10 (omega arith) ∷ []

read_key-zero_example :
    let k = run_events shifted_q initial in ((keyboard_read_key k).0 ≡ 0) ↔ (contents k ≡ [])
read_key-zero_example = read_key-zero shifted_q

shifted_q_read : (keyboard_read_key (run_events shifted_q initial)).0 ≡ 0x100 + b'Q'
unfolding run_events keyboard_handler regular_key keyboard_buffer_write keyboard_read_key pack
    widen_char plain_char shifted_char
shifted_q_read = refl
