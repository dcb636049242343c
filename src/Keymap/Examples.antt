-- ===== src/Keymap/Examples.antt =====
-- Runs of the key maps of gui/keymap.c, and the theorems at some keys.
use mvisor_x.Base.{◌≡◌, refl, true, false, [], ◌∷◌, arith}
use mvisor_x.Keymap.{
  entry, scancode_from_usb, scancode_from_x11, high_byte, low_byte, release_bit, qcode_to_atset1,
}
use mvisor_x.Keymap.Transcode.{break_code, is_make_code, qcode_to_atset1-break_code}

-- the arrow to the right of SDL, released
right_arrow : qcode_to_atset1 (scancode_from_usb 79) false ≡ 224 ∷ 205 ∷ []
unfolding qcode_to_atset1 scancode_from_usb entry high_byte low_byte release_bit
right_arrow = refl

qcode_to_atset1-break_code_example :
    (is_make_code (qcode_to_atset1 12 true) ≡ true)
    × (qcode_to_atset1 12 false ≡ break_code (qcode_to_atset1 12 true))
qcode_to_atset1-break_code_example = qcode_to_atset1-break_code 12 (omega arith) (omega arith)

unknown_key : scancode_from_x11 1 ≡ 0
unfolding scancode_from_x11 entry
unknown_key = refl
