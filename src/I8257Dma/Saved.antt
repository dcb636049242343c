-- ===== src/I8257Dma/Saved.antt =====
-- The saved state of the DMA controllers: `SaveState` and `LoadState` of
-- devices/superio/i8257_dma.cc, and what a load after a save gives.
use mvisor_x.Base.{
  ℕ, zero, suc, ◌+◌, ◌*◌, ◌/◌, ◌<◌, ◌≡◌, subst, Option, none, some, ◌>>=◌, List, [], ◌∷◌, bit_and,
  bit_or, u8, arith, bit_or-byte, bit_and-byte,
}
use mvisor_x.I8257Dma.{
  TwoBytes, I8257DmaChannel, Channels, I8257DmaController, I8257Dma, set_channel, two_bytes, reset,
  write,
}
use mvisor_x.I8257Dma.Bytes.{
  AreBytes, ChannelIsValid, ControllerIsValid, IsValid, ResultIsValid, reset-IsValid,
  write-ResultIsValid,
}
use mvisor_x.I8257Dma.Buffer.{run_writes}

-- the message of i8257_dma.proto
pub record ChannelState : Type 0 where
  pub base : ℕ
  pub count : ℕ
  pub page : ℕ
  pub mode : ℕ

pub record ControllerState : Type 0 where
  pub channels : List ChannelState
  pub mask : ℕ
  pub flip_flop : ℕ

-- `SaveState`
unfoldable pub save_channel : I8257DmaChannel → ChannelState
save_channel ch = record {
  base = two_bytes ch.base;
  count = two_bytes ch.count;
  page = ch.page;
  mode = ch.mode;
}

unfoldable pub save_controller : I8257DmaController → ControllerState
save_controller c = record {
  channels =
      save_channel c.channels.channel_0
      ∷ save_channel c.channels.channel_1
      ∷ save_channel c.channels.channel_2
      ∷ save_channel c.channels.channel_3
      ∷ [];
  mask = c.mask;
  flip_flop = c.flip_flop;
}

unfoldable pub save_state : I8257Dma → List ControllerState
save_state d = save_controller d.controller_0 ∷ save_controller d.controller_1 ∷ []

-- `LoadState`: the fields of the message are 32 bits wide, the registers 8
unfoldable pub load_bytes : ℕ → TwoBytes
load_bytes x = record { low = bit_and x 255; high = bit_and (x / 256) 255 }

unfoldable pub load_channel : ChannelState → I8257DmaChannel
load_channel s = record {
  base = load_bytes s.base;
  count = load_bytes s.count;
  page = u8 s.page;
  mode = u8 s.mode;
}

-- the inner loop, `left` rounds from channel j
unfoldable pub load_channels : ℕ → ℕ → List ChannelState → Channels → Channels
load_channels zero j ss cs = cs
load_channels (suc left) j [] cs = cs
load_channels (suc left) j (s ∷ ss) cs =
    load_channels left (j + 1) ss (set_channel j (λ ch. load_channel s) cs)

unfoldable pub load_controller : ControllerState → I8257DmaController → I8257DmaController
load_controller s c = record {
  mask = u8 s.mask;
  flip_flop = u8 s.flip_flop;
  channels = load_channels 4 0 s.channels c.channels;
}

-- the outer loop, for two controllers
unfoldable pub load_state : List ControllerState → I8257Dma → I8257Dma
load_state [] d = d
load_state (s ∷ []) d = record d { controller_0 = load_controller s d.controller_0 }
load_state (s ∷ t ∷ ss) d = record d {
  controller_0 = load_controller s d.controller_0;
  controller_1 = load_controller t d.controller_1;
}

load_bytes-two_bytes : (b : TwoBytes) → AreBytes b → load_bytes (two_bytes b) ≡ b
unfolding load_bytes two_bytes
load_bytes-two_bytes b v =
    let sum : bit_or (b.high * 256) b.low ≡ b.high * 256 + b.low = bit_or-byte b.high b.low v.0 in
    rw sum (
      rw (bit_and-byte (b.high * 256 + b.low))
        (rw (bit_and-byte ((b.high * 256 + b.low) / 256)) (ground arith)))

load_channel-save_channel :
    (ch : I8257DmaChannel) → ChannelIsValid ch → load_channel (save_channel ch) ≡ ch
unfolding load_channel save_channel
load_channel-save_channel ch v = ground (
  arith,
  v.mode,
  v.page,
  load_bytes-two_bytes ch.base v.base,
  load_bytes-two_bytes ch.count v.count,
)

load_controller-save_controller :
    (c d : I8257DmaController) → ControllerIsValid c → load_controller (save_controller c) d ≡ c
unfolding load_controller save_controller load_channels set_channel
load_controller-save_controller c d v = ground (
  arith,
  v.mask,
  v.flip_flop,
  load_channel-save_channel c.channels.channel_0 v.channels.channel_0,
  load_channel-save_channel c.channels.channel_1 v.channels.channel_1,
  load_channel-save_channel c.channels.channel_2 v.channels.channel_2,
  load_channel-save_channel c.channels.channel_3 v.channels.channel_3,
)

-- Loading what was saved from controllers whose registers are bytes gives those controllers,
-- whatever the state before the load.
pub load_state-save_state : (d old : I8257Dma) → IsValid d → load_state (save_state d) old ≡ d
unfolding load_state save_state
load_state-save_state d old v = ground (
  arith,
  load_controller-save_controller d.controller_0 old.controller_0 v.controller_0,
  load_controller-save_controller d.controller_1 old.controller_1 v.controller_1,
)

-- the values that a guest writes are bytes
abbrev WritesBytes : List (ℕ × (ℕ × ℕ)) → Type 0
WritesBytes [] = Unit {0}
WritesBytes ((base, (offset, value)) ∷ ws) = (value < 256) × WritesBytes ws

ResultIsValid-bind :
    (r : Option I8257Dma) (f : I8257Dma → Option I8257Dma)
    → ResultIsValid r
    → ((d : I8257Dma) → IsValid d → ResultIsValid (f d))
    → ResultIsValid (r >>= f)
ResultIsValid-bind none f v h = tt
ResultIsValid-bind (some d) f v h = h d v

run_writes-ResultIsValid :
    (ws : List (ℕ × (ℕ × ℕ))) (d : I8257Dma)
    → WritesBytes ws
    → IsValid d
    → ResultIsValid (run_writes ws d)
run_writes-ResultIsValid [] d b v = v
run_writes-ResultIsValid ((base, (offset, value)) ∷ ws) d (lt, b) v =
    ResultIsValid-bind (write base offset value d) (run_writes ws)
      (write-ResultIsValid base offset value d lt v) (λ d' v'. run_writes-ResultIsValid ws d' b v')

-- Whatever bytes a guest has written since a reset, the controllers come back from what is saved.
load_state-run_writes :
    (ws : List (ℕ × (ℕ × ℕ))) (d old : I8257Dma)
    → WritesBytes ws
    → run_writes ws reset ≡ some d
    → load_state (save_state d) old ≡ d
load_state-run_writes ws d old b e =
    let valid : ResultIsValid (some d) =
      subst ResultIsValid e (run_writes-ResultIsValid ws reset b reset-IsValid) in
    load_state-save_state d old valid
