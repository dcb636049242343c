-- ===== src/I8257Dma.antt =====
-- The ISA DMA controllers (devices/superio/i8257_dma.h and i8257_dma.cc): their registers, the
-- port accesses of the guest, the saved state, and the buffer a device is given. `none` stands
-- for MV_PANIC, a failed MV_ASSERT and an access outside an array.
use mvisor_x.Base.{
  ℕ, zero, suc, ◌+◌, ◌-◌, ◌*◌, ◌/◌, ◌%◌, Bool, true, false, not, Option, none, some, List, [], ◌∷◌,
  map, bit_and, bit_or, bit_xor, ◌==◌, ltb, ◌>>=◌, if◌then◌else◌, has_bits, u8, get_elem?,
}
pub mod Bytes
pub mod Saved
pub mod Buffer
mod Examples

-- an array of two bytes
pub record TwoBytes : Type 0 where
  pub low : ℕ
  pub high : ℕ

pub record I8257DmaChannel : Type 0 where
  pub mode : ℕ
  pub base : TwoBytes
  pub count : TwoBytes
  pub page : ℕ

-- an array of four channels
pub record Channels : Type 0 where
  pub channel_0 : I8257DmaChannel
  pub channel_1 : I8257DmaChannel
  pub channel_2 : I8257DmaChannel
  pub channel_3 : I8257DmaChannel

pub record I8257DmaController : Type 0 where
  pub mask : ℕ
  pub flip_flop : ℕ
  pub channels : Channels

-- `controllers_`, an array of two
pub record I8257Dma : Type 0 where
  pub controller_0 : I8257DmaController
  pub controller_1 : I8257DmaController

-- the element of an array, and the array with another element there
unfoldable pub channel_at : ℕ → Channels → Option I8257DmaChannel
channel_at zero cs = some cs.channel_0
channel_at (suc zero) cs = some cs.channel_1
channel_at (suc (suc zero)) cs = some cs.channel_2
channel_at (suc (suc (suc zero))) cs = some cs.channel_3
channel_at _ cs = none

unfoldable pub set_channel : ℕ → (I8257DmaChannel → I8257DmaChannel) → Channels → Channels
set_channel zero f cs = record cs { channel_0 = f cs.channel_0 }
set_channel (suc zero) f cs = record cs { channel_1 = f cs.channel_1 }
set_channel (suc (suc zero)) f cs = record cs { channel_2 = f cs.channel_2 }
set_channel (suc (suc (suc zero))) f cs = record cs { channel_3 = f cs.channel_3 }
set_channel _ f cs = cs

unfoldable pub controller_at : ℕ → I8257Dma → Option I8257DmaController
controller_at zero d = some d.controller_0
controller_at (suc zero) d = some d.controller_1
controller_at _ d = none

unfoldable pub set_controller : ℕ → I8257DmaController → I8257Dma → I8257Dma
set_controller zero c d = record d { controller_0 = c }
set_controller (suc zero) c d = record d { controller_1 = c }
set_controller _ c d = d

-- `bytes[at & 1] = value`
unfoldable pub set_byte : ℕ → ℕ → TwoBytes → TwoBytes
set_byte at value b =
    if bit_and at 1 == 0 then record b { low = value } else record b { high = value }

abbrev pub zero_bytes : TwoBytes
zero_bytes = record { low = 0; high = 0 }

abbrev pub zero_channel : I8257DmaChannel
zero_channel = record { mode = 0; base = zero_bytes; count = zero_bytes; page = 0 }

-- what `bzero` leaves
unfoldable pub zero_controller : I8257DmaController
zero_controller = record {
  mask = 0;
  flip_flop = 0;
  channels = record {
    channel_0 = zero_channel;
    channel_1 = zero_channel;
    channel_2 = zero_channel;
    channel_3 = zero_channel;
  };
}

-- `Reset`
unfoldable pub reset : I8257Dma
reset = record { controller_0 = zero_controller; controller_1 = zero_controller }

-- the cases of `WriteDmaControl`
unfoldable pub write_base : ℕ → ℕ → I8257DmaController → I8257DmaController
write_base channel_index value c = record c {
  flip_flop = u8 (c.flip_flop + 1);
  channels =
      set_channel channel_index (λ ch. record ch { base = set_byte c.flip_flop value ch.base })
        c.channels;
}

unfoldable pub write_count : ℕ → ℕ → I8257DmaController → I8257DmaController
write_count channel_index value c = record c {
  flip_flop = u8 (c.flip_flop + 1);
  channels =
      set_channel channel_index (λ ch. record ch { count = set_byte c.flip_flop value ch.count })
        c.channels;
}

-- `1 << n`, for the channel of a mask
unfoldable pub mask_bit : ℕ → ℕ
mask_bit zero = 1
mask_bit (suc zero) = 2
mask_bit (suc (suc zero)) = 4
mask_bit _ = 8

unfoldable pub write_single_mask : ℕ → I8257DmaController → I8257DmaController
write_single_mask value c =
    if has_bits value 4
    then record c { mask = u8 (bit_or c.mask (mask_bit (bit_and value 3))) }
    else record c { mask = u8 (bit_and c.mask (255 - mask_bit (bit_and value 3))) }

unfoldable pub write_mode : ℕ → I8257DmaController → I8257DmaController
write_mode value c = record c {
  channels = set_channel (bit_and value 3) (λ ch. record ch { mode = value }) c.channels;
}

unfoldable pub write_dma_control : ℕ → ℕ → I8257DmaController → Option I8257DmaController
write_dma_control offset value c =
    if ltb offset 8
    then (if offset % 2 == 0
        then some (write_base (offset / 2) value c)
        else some (write_count (offset / 2) value c))
    else if offset == 10
    then some (write_single_mask value c)
    else if offset == 11
    then some (write_mode value c)
    else if offset == 12
    then some (record c { flip_flop = 0 })
    else if offset == 13
    then some zero_controller
    else none

-- `ReadDmaControl`: there is no case but the default
unfoldable pub read_dma_control : ℕ → ℕ → I8257Dma → ℕ
read_dma_control controller_index offset d = 0

-- the channel whose page register stands at an offset, in its controller
unfoldable pub page_channel : ℕ → Option (ℕ × ℕ)
page_channel offset =
    if offset == 3
    then some (0, 1)
    else if offset == 1
    then some (0, 2)
    else if offset == 2
    then some (0, 3)
    else if offset == 11
    then some (1, 1)
    else if offset == 9
    then some (1, 2)
    else if offset == 10
    then some (1, 3)
    else none

-- `ReadWriteDmaPage` once the channel is known: a read into `byte`, and a write
unfoldable pub read_page : Option (ℕ × ℕ) → ℕ → I8257Dma → Option ℕ
read_page none byte d = some byte
read_page (some (i, j)) byte d = do
  c ← controller_at i d
  ch ← channel_at j c.channels
  some ch.page

unfoldable pub set_page : ℕ → ℕ → I8257DmaController → I8257DmaController
set_page j value c = record c {
  channels = set_channel j (λ ch. record ch { page = value }) c.channels;
}

unfoldable pub write_page : Option (ℕ × ℕ) → ℕ → I8257Dma → Option I8257Dma
write_page none value d = some d
write_page (some (i, j)) value d = do
  c ← controller_at i d
  some (set_controller i (set_page j value c) d)

unfoldable pub read_dma_page : ℕ → ℕ → I8257Dma → Option ℕ
read_dma_page offset byte d = read_page (page_channel offset) byte d

unfoldable pub write_dma_page : ℕ → ℕ → I8257Dma → Option I8257Dma
write_dma_page offset value d = write_page (page_channel offset) value d

unfoldable pub write_control : ℕ → ℕ → ℕ → I8257Dma → Option I8257Dma
write_control i offset value d = do
  c ← controller_at i d
  c' ← write_dma_control offset value c
  some (set_controller i c' d)

-- `Read` and `Write`, by the base of the resource
unfoldable pub read : ℕ → ℕ → ℕ → I8257Dma → Option ℕ
read base offset byte d =
    if base == 0
    then some (read_dma_control 0 offset d)
    else if base == 192
    then some (read_dma_control 1 (offset / 2) d)
    else if base == 128
    then read_dma_page offset byte d
    else none

unfoldable pub write : ℕ → ℕ → ℕ → I8257Dma → Option I8257Dma
write base offset value d =
    if base == 0
    then write_control 0 offset value d
    else if base == 192
    then write_control 1 (offset / 2) value d
    else if base == 128
    then write_dma_page offset value d
    else none

-- `(bytes[1] << 8) | bytes[0]`
unfoldable pub two_bytes : TwoBytes → ℕ
two_bytes b = bit_or (b.high * 256) b.low

-- the vector that `WaitForChannel` makes, with the call of `AddDirtyMemory`
pub record DmaBuffer : Type 0 where
  pub address : ℕ
  pub length : ℕ
  pub dirty : Option (ℕ × ℕ)

-- `WaitForChannel`, up to the call of `callback`
unfoldable pub wait_for_channel : Bool → ℕ → I8257Dma → Option DmaBuffer
wait_for_channel is_write channel_id d =
    if ltb channel_id 8
    then (do
      c ← controller_at (channel_id / 4) d
      ch ← channel_at (channel_id % 5) c.channels
      let gpa = bit_or (bit_or (ch.page * 65536) (ch.base.high * 256)) ch.base.low
      let len = two_bytes ch.count + 1
      some (record {
        address = gpa;
        length = len;
        dirty = if is_write then some (gpa, len) else none;
      }))
    else none
