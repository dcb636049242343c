-- ===== src/Keymap.antt =====
-- The key maps of gui/keymap.c and gui/keymap.h: from the keys of SDL and of X11 to the numbers of
-- `QKeyCode`, and from those to scancodes of set 1. A number of `QKeyCode` is its place in the
-- enumeration. The bytes that `QcodeToAtset1` writes are a list, and its result the length.
mod X11
mod Usb
mod Atset1
pub mod Transcode
mod Examples
use mvisor_x.Base.{
  ℕ, ◌/◌, Bool, true, false, List, [], ◌∷◌, ◌++◌, bit_and, bit_or, u8, leb, ◌==◌, if◌then◌else◌,
}
use X11.{x11_to_qcode}
use Usb.{usb_to_qcode}
use Atset1.{qcode_to_atset1_map}

-- `Q_KEY_CODE_UNMAPPED` and `Q_KEY_CODE__MAX`
abbrev pub q_key_code_unmapped : ℕ
q_key_code_unmapped = 0

abbrev pub q_key_code_max : ℕ
q_key_code_max = 148

-- an element of an array of which the source writes some entries
unfoldable pub entry : ℕ → List (ℕ × ℕ) → ℕ
entry i [] = 0
entry i ((j, v) ∷ m) = if i == j then v else entry i m

-- `ScancodeFromUsb`
unfoldable pub scancode_from_usb : ℕ → ℕ
scancode_from_usb scancode =
    if leb 252 scancode then q_key_code_unmapped else entry scancode usb_to_qcode

-- `ScancodeFromX11`
unfoldable pub scancode_from_x11 : ℕ → ℕ
scancode_from_x11 keycode =
    if leb 65536 keycode then q_key_code_unmapped else entry keycode x11_to_qcode

-- the two bytes of `QcodeToAtset1`
unfoldable pub high_byte : ℕ → List ℕ
high_byte keycode = if bit_and keycode 65280 == 0 then [] else u8 (keycode / 256) ∷ []

unfoldable pub low_byte : ℕ → List ℕ
low_byte keycode = if bit_and keycode 255 == 0 then [] else u8 keycode ∷ []

-- `keycode |= 0x80` for a release
unfoldable pub release_bit : Bool → ℕ → ℕ
release_bit true keycode = keycode
release_bit false keycode = bit_or keycode 128

-- `QcodeToAtset1`
unfoldable pub qcode_to_atset1 : ℕ → Bool → List ℕ
qcode_to_atset1 qcode pressed =
    if leb q_key_code_max qcode
    then []
    else (let keycode = entry qcode qcode_to_atset1_map in
        high_byte keycode ++ low_byte (release_bit pressed keycode))
