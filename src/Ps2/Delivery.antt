-- ===== src/Ps2/Delivery.antt =====
-- From a key to the guest: what the reads of the data port give after `QueueKeyboardEvent` of
-- devices/superio/ps2.cc, and the packet of `QueueMouseEvent`.
use mvisor_x.Base.{
  ℕ, zero, suc, ◌≡◌, refl, sym, ◌∙◌, ap, append_assoc, append-nil, Bool, true, false, List, [], ◌∷◌,
  ◌++◌, if◌then◌else◌, ◌==◌, length, arith,
}
use mvisor_x.Ps2.{Ps2, raise_irq, raise_line, fill, fill_output_data, push_keyboard}
use mvisor_x.Ps2.Events.{push_scancode, sync_leds, is_lock, plain_code, queue_keyboard_event}
use mvisor_x.Ps2.Settled.{IsSettled}
use mvisor_x.Ps2.Runs.{push_scancode-IsSettled}
use mvisor_x.Ps2.Pending.{output, pending, push_keyboard-pending, read_times, read_times-pending}

-- the bytes before the first 0, at most so many
abbrev pub sent : ℕ → List ℕ → List ℕ
sent zero bytes = []
sent (suc n) [] = []
sent (suc n) (zero ∷ bytes) = []
sent (suc n) (suc b ∷ bytes) = suc b ∷ sent n bytes

fill-mouse_queue :
    (b : Bool) (ks : List ℕ) (s : Ps2) → s.mouse_queue ≡ [] → (fill b ks [] s).mouse_queue ≡ []
unfolding fill raise_irq raise_line
fill-mouse_queue false (k ∷ ks) s h = h
fill-mouse_queue false [] s h = h
fill-mouse_queue true (k ∷ ks) s h = h
fill-mouse_queue true [] s h = h

push_keyboard-mouse_queue :
    (byte : ℕ) (s : Ps2) → s.mouse_queue ≡ [] → (push_keyboard byte s).mouse_queue ≡ []
unfolding push_keyboard fill_output_data
push_keyboard-mouse_queue byte s h =
    let q : fill s.output_data_is_read (s.keyboard_queue ++ byte ∷ []) s.mouse_queue
          (record s { keyboard_queue = s.keyboard_queue ++ byte ∷ [] })
        ≡ fill s.output_data_is_read (s.keyboard_queue ++ byte ∷ []) []
            (record s { keyboard_queue = s.keyboard_queue ++ byte ∷ [] }) =
      cc (h) in
    rw q (
      fill-mouse_queue s.output_data_is_read (s.keyboard_queue ++ byte ∷ [])
        (record s { keyboard_queue = s.keyboard_queue ++ byte ∷ [] }) h)

append-last :
    (o ks ms : List ℕ) (byte : ℕ)
    → ms ≡ []
    → o ++ (ks ++ byte ∷ []) ++ ms ≡ o ++ ks ++ ms ++ byte ∷ []
append-last o ks ms byte h =
    cc (h, append-nil (o ++ (ks ++ byte ∷ [])), append-nil (o ++ ks), append_assoc o ks (byte ∷ []))

push_keyboard-pending_last :
    (byte : ℕ) (s : Ps2)
    → s.mouse_queue ≡ []
    → pending (push_keyboard byte s) ≡ pending s ++ byte ∷ []
push_keyboard-pending_last byte s h =
    push_keyboard-pending byte s
    ∙ append-last (output s.output_data_is_read s.output_data) s.keyboard_queue s.mouse_queue byte h

push_scancode-pending :
    (left : ℕ) (bytes : List ℕ) (s : Ps2)
    → s.mouse_queue ≡ []
    → pending (push_scancode left bytes s) ≡ pending s ++ sent left bytes
unfolding push_scancode
push_scancode-pending zero bytes s h = sym (append-nil (pending s))
push_scancode-pending (suc left) [] s h = sym (append-nil (pending s))
push_scancode-pending (suc left) (zero ∷ bytes) s h = sym (append-nil (pending s))
push_scancode-pending (suc left) (suc b ∷ bytes) s h = cc (
  push_scancode-pending left bytes (push_keyboard (suc b) s)
      (push_keyboard-mouse_queue (suc b) s h),
  push_keyboard-pending_last (suc b) s h,
  append_assoc (pending s) (suc b ∷ []) (sent left bytes),
)

first_branch : (b : Bool) (x y : Ps2) → b ≡ true → (if b then x else y) ≡ x
first_branch true x y h = refl
first_branch false x y h = absurd (cc (h))

sync_leds-same : (modifiers : ℕ) (s : Ps2) → s.keyboard.leds ≡ modifiers → sync_leds modifiers s ≡ s
unfolding sync_leds
sync_leds-same modifiers s h = first_branch (modifiers == s.keyboard.leds) s _ (ground arith)

last_branch :
    (b c : Bool) (x y z : Ps2)
    → b ≡ false
    → c ≡ false
    → let r : Ps2 × Bool = if b then (x, false) else if c then (y, true) else (z, true) in r.0 ≡ z
last_branch true c x y z h g = absurd (cc (h))
last_branch false true x y z h g = absurd (cc (g))
last_branch false false x y z h g = refl

queue_keyboard_event-plain :
    (scancode : List ℕ) (modifiers : ℕ) (s : Ps2)
    → s.keyboard.disable_scanning ≡ false
    → s.keyboard.leds ≡ modifiers
    → is_lock (plain_code scancode) ≡ false
    → (queue_keyboard_event scancode modifiers s).0 ≡ push_scancode 10 scancode s
unfolding queue_keyboard_event
queue_keyboard_event-plain scancode modifiers s scans leds plain =
    let same : sync_leds modifiers s ≡ s = sync_leds-same modifiers s leds in
    last_branch s.keyboard.disable_scanning (is_lock (plain_code scancode)) s
      (sync_leds modifiers s) (push_scancode 10 scancode (sync_leds modifiers s)) scans plain
    ∙ ap (push_scancode 10 scancode) same

-- A key that is no lock, pressed or released while the guest has read everything, scans keys and
-- has the locks of the host, reaches it: reading the data port gives the bytes of its scancode up
-- to the first 0, at most ten, in their order.
pub queue_keyboard_event-read :
    (scancode : List ℕ) (modifiers : ℕ) (s : Ps2)
    → IsSettled s
    → pending s ≡ []
    → s.mouse_queue ≡ []
    → s.keyboard.disable_scanning ≡ false
    → s.keyboard.leds ≡ modifiers
    → is_lock (plain_code scancode) ≡ false
    → read_times (length (sent 10 scancode)) (queue_keyboard_event scancode modifiers s).0
      ≡ sent 10 scancode
queue_keyboard_event-read scancode modifiers s v p m scans leds plain =
    let event = queue_keyboard_event-plain scancode modifiers s scans leds plain in
    let waits : pending (push_scancode 10 scancode s) ≡ sent 10 scancode =
      push_scancode-pending 10 scancode s m ∙ ap (λ xs. xs ++ sent 10 scancode) p in
    ap (read_times (length (sent 10 scancode))) event
    ∙ read_times-pending (sent 10 scancode) (push_scancode 10 scancode s)
        (push_scancode-IsSettled 10 scancode s v) waits
