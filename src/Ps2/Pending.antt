-- ===== src/Ps2/Pending.antt =====
-- The bytes that the guest has yet to read from the PS/2 controller of devices/superio/ps2.cc, in
-- the order in which it gets them.
use mvisor_x.Base.{
  ℕ, zero, suc, ◌≡◌, refl, sym, ◌∙◌, ap, append_assoc, Bool, true, false, List, [], ◌∷◌, ◌++◌,
  length,
}
use mvisor_x.Ps2.{
  Ps2, raise_irq, raise_line, fill, fill_output_data, push_keyboard, push_mouse, read_data,
}
use mvisor_x.Ps2.Settled.{Waits, IsSettled, read_data-IsSettled}

-- the byte in the output register, if it is not read
abbrev pub output : Bool → ℕ → List ℕ
output true byte = []
output false byte = byte ∷ []

-- the output register, the keyboard's queue and then the mouse's
abbrev pub pending : Ps2 → List ℕ
pending s = output s.output_data_is_read s.output_data ++ s.keyboard_queue ++ s.mouse_queue

fill-pending :
    (b : Bool) (ks ms : List ℕ) (s : Ps2)
    → s.output_data_is_read ≡ b
    → s.keyboard_queue ≡ ks
    → s.mouse_queue ≡ ms
    → pending (fill b ks ms s) ≡ output b s.output_data ++ ks ++ ms
unfolding fill raise_irq raise_line
fill-pending false (k ∷ ks) ms s e f g = cc (e, f, g)
fill-pending false [] (m ∷ ms) s e f g = cc (e, f, g)
fill-pending false [] [] s e f g = cc (e, f, g)
fill-pending true (k ∷ ks) ms s e f g = cc (g)
fill-pending true [] (m ∷ ms) s e f g = cc (f)
fill-pending true [] [] s e f g = cc (e, f, g)

-- `FillOutputData` moves no byte out of its place.
pub fill_output_data-pending : (s : Ps2) → pending (fill_output_data s) ≡ pending s
unfolding fill_output_data
fill_output_data-pending s =
    fill-pending s.output_data_is_read s.keyboard_queue s.mouse_queue s refl refl refl

-- A byte of the keyboard comes behind those of the keyboard that wait and before all of the mouse,
-- but not before the byte in the output register.
pub push_keyboard-pending :
    (byte : ℕ) (s : Ps2)
    → pending (push_keyboard byte s)
      ≡ output s.output_data_is_read s.output_data
        ++ (s.keyboard_queue ++ byte ∷ [])
        ++ s.mouse_queue
unfolding push_keyboard
push_keyboard-pending byte s = fill_output_data-pending _

pub push_mouse-pending : (byte : ℕ) (s : Ps2) → pending (push_mouse byte s) ≡ pending s ++ byte ∷ []
unfolding push_mouse
push_mouse-pending byte s =
    fill_output_data-pending _
    ∙ sym (
        append_assoc (output s.output_data_is_read s.output_data ++ s.keyboard_queue) s.mouse_queue
          (byte ∷ []))

first_pending :
    (b : Bool) (ks ms : List ℕ) (p : ℕ) (ps : List ℕ) (o : ℕ)
    → Waits b ks ms
    → output b o ++ ks ++ ms ≡ p ∷ ps
    → (o ≡ p) × (ks ++ ms ≡ ps)
first_pending false ks ms p ps o v h = (cc (h), cc (h))
first_pending true ks ms p ps o v h = absurd (cc (v.0, v.1, h))

-- what `ReadData` leaves, and the byte it gives
read_data-pending :
    (p : ℕ) (ps : List ℕ) (s : Ps2)
    → IsSettled s
    → pending s ≡ p ∷ ps
    → ((read_data s).1 ≡ p) × (pending (read_data s).0 ≡ ps)
unfolding read_data
read_data-pending p ps s v h =
    let r =
      first_pending s.output_data_is_read s.keyboard_queue s.mouse_queue p ps s.output_data v h in
    (r.0, fill_output_data-pending _ ∙ r.1)

-- the guest reads the data port so many times
unfoldable pub read_times : ℕ → Ps2 → List ℕ
read_times zero s = []
read_times (suc n) s = (read_data s).1 ∷ read_times n (read_data s).0

-- If no byte stands in a queue behind a read output register, reading the data port as often as
-- bytes wait gives these bytes, in their order.
pub read_times-pending :
    (ps : List ℕ) (s : Ps2) → IsSettled s → pending s ≡ ps → read_times (length ps) s ≡ ps
unfolding read_times
read_times-pending [] s v h = refl
read_times-pending (p ∷ ps) s v h =
    let r = read_data-pending p ps s v h in
    ap (λ x. x ∷ read_times (length ps) (read_data s).0) r.0
    ∙ ap (λ xs. p ∷ xs) (read_times-pending ps (read_data s).0 (read_data-IsSettled s) r.1)
