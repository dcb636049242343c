-- ===== src/I8257Dma/Bytes.antt =====
-- Every register of the DMA controllers is a byte, and the accesses of the guest keep it so.
use mvisor_x.Base.{
  ℕ, zero, suc, ◌/◌, ◌%◌, ◌<◌, Option, none, some, bit_and, ltb, ◌==◌, has_bits, ◌>>=◌, if-keeps,
  arith,
}
use mvisor_x.I8257Dma.{
  TwoBytes, I8257DmaChannel, Channels, I8257DmaController, I8257Dma, set_channel, set_byte,
  zero_controller, reset, set_controller, controller_at, write_base, write_count, write_single_mask,
  write_mode, write_dma_control, write_control, write_dma_page, write_page, set_page, write,
  page_channel,
}

abbrev pub AreBytes : TwoBytes → Type 0
AreBytes b = (b.low < 256) × (b.high < 256)

pub record ChannelIsValid (ch : I8257DmaChannel) : Type 0 where
  pub mode : ch.mode < 256
  pub base : AreBytes ch.base
  pub count : AreBytes ch.count
  pub page : ch.page < 256

pub record ChannelsAreValid (cs : Channels) : Type 0 where
  pub channel_0 : ChannelIsValid cs.channel_0
  pub channel_1 : ChannelIsValid cs.channel_1
  pub channel_2 : ChannelIsValid cs.channel_2
  pub channel_3 : ChannelIsValid cs.channel_3

pub record ControllerIsValid (c : I8257DmaController) : Type 0 where
  pub mask : c.mask < 256
  pub flip_flop : c.flip_flop < 256
  pub channels : ChannelsAreValid c.channels

-- every register is a byte
pub record IsValid (d : I8257Dma) : Type 0 where
  pub controller_0 : ControllerIsValid d.controller_0
  pub controller_1 : ControllerIsValid d.controller_1

set_byte-AreBytes :
    (at value : ℕ) (b : TwoBytes) → value < 256 → AreBytes b → AreBytes (set_byte at value b)
unfolding set_byte
set_byte-AreBytes at value b l v = ground arith

set_channel-ChannelsAreValid :
    (i : ℕ) (f : I8257DmaChannel → I8257DmaChannel) (cs : Channels)
    → ((ch : I8257DmaChannel) → ChannelIsValid ch → ChannelIsValid (f ch))
    → ChannelsAreValid cs
    → ChannelsAreValid (set_channel i f cs)
unfolding set_channel
set_channel-ChannelsAreValid zero f cs h v = record {
  channel_0 = h cs.channel_0 v.channel_0;
  channel_1 = v.channel_1;
  channel_2 = v.channel_2;
  channel_3 = v.channel_3;
}
set_channel-ChannelsAreValid (suc zero) f cs h v = record {
  channel_0 = v.channel_0;
  channel_1 = h cs.channel_1 v.channel_1;
  channel_2 = v.channel_2;
  channel_3 = v.channel_3;
}
set_channel-ChannelsAreValid (suc (suc zero)) f cs h v = record {
  channel_0 = v.channel_0;
  channel_1 = v.channel_1;
  channel_2 = h cs.channel_2 v.channel_2;
  channel_3 = v.channel_3;
}
set_channel-ChannelsAreValid (suc (suc (suc zero))) f cs h v = record {
  channel_0 = v.channel_0;
  channel_1 = v.channel_1;
  channel_2 = v.channel_2;
  channel_3 = h cs.channel_3 v.channel_3;
}
set_channel-ChannelsAreValid (suc (suc (suc (suc i)))) f cs h v = v

zero_controller-ControllerIsValid : ControllerIsValid zero_controller
unfolding zero_controller
zero_controller-ControllerIsValid =
    let z : ChannelIsValid (zero_controller.channels.channel_0) = record {
      mode = omega arith;
      base = (omega arith, omega arith);
      count = (omega arith, omega arith);
      page = omega arith;
    } in
    record {
      mask = omega arith;
      flip_flop = omega arith;
      channels = record { channel_0 = z; channel_1 = z; channel_2 = z; channel_3 = z };
    }

pub reset-IsValid : IsValid reset
unfolding reset
reset-IsValid = record {
  controller_0 = zero_controller-ControllerIsValid;
  controller_1 = zero_controller-ControllerIsValid;
}

write_base-ControllerIsValid :
    (i value : ℕ) (c : I8257DmaController)
    → value < 256
    → ControllerIsValid c
    → ControllerIsValid (write_base i value c)
unfolding write_base
write_base-ControllerIsValid i value c l v = record {
  mask = v.mask;
  flip_flop = omega arith;
  channels =
      set_channel-ChannelsAreValid i _ c.channels
        (λ ch w. record {
          mode = w.mode;
          page = w.page;
          count = w.count;
          base = set_byte-AreBytes c.flip_flop value ch.base l w.base;
        })
        v.channels;
}

write_count-ControllerIsValid :
    (i value : ℕ) (c : I8257DmaController)
    → value < 256
    → ControllerIsValid c
    → ControllerIsValid (write_count i value c)
unfolding write_count
write_count-ControllerIsValid i value c l v = record {
  mask = v.mask;
  flip_flop = omega arith;
  channels =
      set_channel-ChannelsAreValid i _ c.channels
        (λ ch w. record {
          mode = w.mode;
          page = w.page;
          base = w.base;
          count = set_byte-AreBytes c.flip_flop value ch.count l w.count;
        })
        v.channels;
}

write_single_mask-ControllerIsValid :
    (value : ℕ) (c : I8257DmaController)
    → ControllerIsValid c
    → ControllerIsValid (write_single_mask value c)
unfolding write_single_mask
write_single_mask-ControllerIsValid value c v =
    if-keeps ControllerIsValid (has_bits value 4)
      (record { mask = omega arith; flip_flop = v.flip_flop; channels = v.channels })
      (record { mask = omega arith; flip_flop = v.flip_flop; channels = v.channels })

write_mode-ControllerIsValid :
    (value : ℕ) (c : I8257DmaController)
    → value < 256
    → ControllerIsValid c
    → ControllerIsValid (write_mode value c)
unfolding write_mode
write_mode-ControllerIsValid value c l v = record {
  mask = v.mask;
  flip_flop = v.flip_flop;
  channels =
      set_channel-ChannelsAreValid (bit_and value 3) _ c.channels
        (λ ch w. record { mode = l; page = w.page; base = w.base; count = w.count }) v.channels;
}

clear_flip_flop-ControllerIsValid :
    (c : I8257DmaController) → ControllerIsValid c → ControllerIsValid (record c { flip_flop = 0 })
clear_flip_flop-ControllerIsValid c v = record {
  mask = v.mask;
  flip_flop = omega arith;
  channels = v.channels;
}

-- the result of a fallible access to a controller, and to the device
abbrev ControllerResult : Option I8257DmaController → Type 0
ControllerResult none = Unit {0}
ControllerResult (some c) = ControllerIsValid c

abbrev pub ResultIsValid : Option I8257Dma → Type 0
ResultIsValid none = Unit {0}
ResultIsValid (some d) = IsValid d

write_dma_control-ControllerResult :
    (offset value : ℕ) (c : I8257DmaController)
    → value < 256
    → ControllerIsValid c
    → ControllerResult (write_dma_control offset value c)
unfolding write_dma_control
write_dma_control-ControllerResult offset value c l v =
    if-keeps ControllerResult (ltb offset 8)
      (if-keeps ControllerResult (offset % 2 == 0)
        (write_base-ControllerIsValid (offset / 2) value c l v)
        (write_count-ControllerIsValid (offset / 2) value c l v))
      (if-keeps ControllerResult (offset == 10) (write_single_mask-ControllerIsValid value c v) (
        if-keeps ControllerResult (offset == 11) (write_mode-ControllerIsValid value c l v) (
          if-keeps ControllerResult (offset == 12) (clear_flip_flop-ControllerIsValid c v)
            (if-keeps ControllerResult (offset == 13) zero_controller-ControllerIsValid tt))))

set_controller-IsValid :
    (i : ℕ) (c : I8257DmaController) (d : I8257Dma)
    → ControllerIsValid c
    → IsValid d
    → IsValid (set_controller i c d)
unfolding set_controller
set_controller-IsValid zero c d w v = record { controller_0 = w; controller_1 = v.controller_1 }
set_controller-IsValid (suc zero) c d w v = record {
  controller_0 = v.controller_0;
  controller_1 = w;
}
set_controller-IsValid (suc (suc i)) c d w v = v

controller_at-ControllerResult :
    (i : ℕ) (d : I8257Dma) → IsValid d → ControllerResult (controller_at i d)
unfolding controller_at
controller_at-ControllerResult zero d v = v.controller_0
controller_at-ControllerResult (suc zero) d v = v.controller_1
controller_at-ControllerResult (suc (suc i)) d v = tt

-- the two steps of an access: take the controller out, put another in
update-ResultIsValid :
    (i : ℕ) (d : I8257Dma) (f : I8257DmaController → Option I8257DmaController)
    → ((c : I8257DmaController) → ControllerIsValid c → ControllerResult (f c))
    → IsValid d
    → ResultIsValid (controller_at i d >>= λ c. f c >>= λ c'. some (set_controller i c' d))
update-ResultIsValid i d f h v = go (controller_at i d) (controller_at-ControllerResult i d v)
  where
    put :
        (o : Option I8257DmaController)
        → ControllerResult o
        → ResultIsValid (o >>= λ c'. some (set_controller i c' d))
    put none w = tt
    put (some c') w = set_controller-IsValid i c' d w v

    go :
        (o : Option I8257DmaController)
        → ControllerResult o
        → ResultIsValid (o >>= λ c. f c >>= λ c'. some (set_controller i c' d))
    go none w = tt
    go (some c) w = put (f c) (h c w)

write_control-ResultIsValid :
    (i offset value : ℕ) (d : I8257Dma)
    → value < 256
    → IsValid d
    → ResultIsValid (write_control i offset value d)
unfolding write_control
write_control-ResultIsValid i offset value d l v =
    update-ResultIsValid i d (write_dma_control offset value)
      (λ c w. write_dma_control-ControllerResult offset value c l w) v

set_page-ControllerIsValid :
    (j value : ℕ) (c : I8257DmaController)
    → value < 256
    → ControllerIsValid c
    → ControllerIsValid (set_page j value c)
unfolding set_page
set_page-ControllerIsValid j value c l v = record {
  mask = v.mask;
  flip_flop = v.flip_flop;
  channels =
      set_channel-ChannelsAreValid j _ c.channels
        (λ ch w. record { mode = w.mode; page = l; base = w.base; count = w.count }) v.channels;
}

write_page-ResultIsValid :
    (o : Option (ℕ × ℕ)) (value : ℕ) (d : I8257Dma)
    → value < 256
    → IsValid d
    → ResultIsValid (write_page o value d)
unfolding write_page
write_page-ResultIsValid none value d l v = v
write_page-ResultIsValid (some (i, j)) value d l v =
    update-ResultIsValid i d (λ c. some (set_page j value c))
      (λ c w. set_page-ControllerIsValid j value c l w) v

-- A write of a byte by the guest, at any offset of the three port ranges and elsewhere, leaves
-- every register of both controllers a byte, unless the emulator panics.
pub write-ResultIsValid :
    (base offset value : ℕ) (d : I8257Dma)
    → value < 256
    → IsValid d
    → ResultIsValid (write base offset value d)
unfolding write write_dma_page
write-ResultIsValid base offset value d l v =
    if-keeps ResultIsValid (base == 0) (write_control-ResultIsValid 0 offset value d l v) (
      if-keeps ResultIsValid (base == 192) (write_control-ResultIsValid 1 (offset / 2) value d l v)
        (if-keeps ResultIsValid (base == 128)
          (write_page-ResultIsValid (page_channel offset) value d l v) tt))
