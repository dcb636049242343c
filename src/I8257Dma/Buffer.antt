-- ===== src/I8257Dma/Buffer.antt =====
-- The buffer that `WaitForChannel` of devices/superio/i8257_dma.cc hands to a device, as the
-- guest programmed it.
use mvisor_x.Base.{
  ℕ, zero, suc, ◌+◌, ◌*◌, ◌/◌, ◌%◌, ◌<◌, ◌≤◌, ◌≡◌, refl, Bool, true, Option, none, some, List, [],
  ◌∷◌, bit_or, arith, ltb, ◌==◌, ◌>>=◌, if◌then◌else◌, bit_or-byte, bit_or-word,
}
use mvisor_x.I8257Dma.{
  I8257DmaChannel, I8257DmaController, I8257Dma, DmaBuffer, channel_at, set_channel, controller_at,
  set_controller, set_byte, write_base, write_count, write_dma_control, write_control,
  write_dma_page, write_page, set_page, page_channel, write, two_bytes, wait_for_channel,
}
use mvisor_x.I8257Dma.Bytes.{AreBytes, IsValid}

-- The buffer of a channel, by the meaning of its registers: the page stands above the base, and
-- the count is one less than the length.
abbrev pub buffer_of : Bool → I8257DmaChannel → DmaBuffer
buffer_of is_write ch =
    let address = ch.page * 65536 + ch.base.high * 256 + ch.base.low in
    let length = ch.count.high * 256 + ch.count.low + 1 in
    record {
      address = address;
      length = length;
      dirty = if is_write then some (address, length) else none;
    }

-- the words that `WaitForChannel` puts together
joined :
    (page high low : ℕ)
    → high < 256
    → low < 256
    → bit_or (bit_or (page * 65536) (high * 256)) low ≡ page * 65536 + high * 256 + low
joined page high low h l =
    let upper : bit_or (page * 65536) (high * 256) ≡ (page * 256 + high) * 256 =
      omega (arith, bit_or-word page (high * 256) (omega arith)) in
    rw upper (omega (arith, bit_or-byte (page * 256 + high) low l))

-- the channel that `WaitForChannel` takes
wait_for_channel-at :
    (is_write : Bool) (k : ℕ) (d : I8257Dma) (c : I8257DmaController) (ch : I8257DmaChannel)
    → k < 8
    → controller_at (k / 4) d ≡ some c
    → channel_at (k % 5) c.channels ≡ some ch
    → AreBytes ch.base
    → AreBytes ch.count
    → wait_for_channel is_write k d ≡ some (buffer_of is_write ch)
unfolding wait_for_channel two_bytes
wait_for_channel-at is_write k d c ch l e e' b n =
    let inside : ltb k 8 ≡ true = ground arith in
    rw inside (
      rw e (
        rw e' (
          rw (joined ch.page ch.base.high ch.base.low b.1 b.0)
            (rw (bit_or-byte ch.count.high ch.count.low n.0) refl))))

-- the guest's writes, each the base of a port range, an offset and a byte
abbrev pub run_writes : List (ℕ × (ℕ × ℕ)) → I8257Dma → Option I8257Dma
run_writes [] d = some d
run_writes ((base, (offset, value)) ∷ ws) d = write base offset value d >>= run_writes ws

-- the offset of the page register of a channel of the first controller
abbrev pub page_offset : ℕ → ℕ
page_offset k = if k == 1 then 3 else if k == 2 then 1 else 2

-- what a guest writes to give channel k the address, the length and the page of `ch`: the low
-- byte first, after the flip-flop is cleared
abbrev pub program : ℕ → I8257DmaChannel → List (ℕ × (ℕ × ℕ))
program k ch =
    (0, (12, 0))
    ∷ (0, (2 * k, ch.base.low))
    ∷ (0, (2 * k, ch.base.high))
    ∷ (0, (2 * k + 1, ch.count.low))
    ∷ (0, (2 * k + 1, ch.count.high))
    ∷ (128, (page_offset k, ch.page))
    ∷ []

-- A guest that programs channel 1, 2 or 3 with an address and a length whose halves are bytes,
-- from any state of the controllers, makes no panic, and the device that then waits for the
-- channel gets the buffer at that page and base, of one byte more than the count, and marks just
-- this range dirty when it is about to write.
pub wait_for_channel-program :
    (is_write : Bool) (k : ℕ) (ch : I8257DmaChannel) (d : I8257Dma)
    → 1 ≤ k
    → k ≤ 3
    → AreBytes ch.base
    → AreBytes ch.count
    → (run_writes (program k ch) d >>= wait_for_channel is_write k) ≡ some (buffer_of is_write ch)
unfolding write write_dma_page write_control write_dma_control write_base write_count write_page
    set_page page_channel controller_at set_controller channel_at set_channel set_byte
wait_for_channel-program is_write zero ch d lo hi b n = absurd (omega arith)
wait_for_channel-program is_write (suc zero) ch d lo hi b n =
    wait_for_channel-at is_write 1 _ _ (record ch { mode = d.controller_0.channels.channel_1.mode })
      (omega arith) refl refl b n
wait_for_channel-program is_write (suc (suc zero)) ch d lo hi b n =
    wait_for_channel-at is_write 2 _ _ (record ch { mode = d.controller_0.channels.channel_2.mode })
      (omega arith) refl refl b n
wait_for_channel-program is_write (suc (suc (suc zero))) ch d lo hi b n =
    wait_for_channel-at is_write 3 _ _ (record ch { mode = d.controller_0.channels.channel_3.mode })
      (omega arith) refl refl b n
wait_for_channel-program is_write (suc (suc (suc (suc k)))) ch d lo hi b n = absurd (omega arith)

-- Channels 4 to 7 are those of the second controller, but the remainder by 5 misses them: if every
-- register is a byte, waiting for channel 4 reads behind the array, and waiting for channel 5, 6
-- or 7 gives the buffer of the channel before it.
pub wait_for_channel-misses :
    (is_write : Bool) (d : I8257Dma)
    → IsValid d
    → let cs = d.controller_1.channels in
      (wait_for_channel is_write 4 d ≡ none)
      × (wait_for_channel is_write 5 d ≡ some (buffer_of is_write cs.channel_0))
      × (wait_for_channel is_write 6 d ≡ some (buffer_of is_write cs.channel_1))
      × (wait_for_channel is_write 7 d ≡ some (buffer_of is_write cs.channel_2))
unfolding wait_for_channel controller_at channel_at
wait_for_channel-misses is_write d v =
    let cs = d.controller_1.channels in
    let vs = v.controller_1.channels in
    (
      refl,
      wait_for_channel-at is_write 5 d d.controller_1 cs.channel_0 (omega arith) refl refl
          vs.channel_0.base vs.channel_0.count,
      wait_for_channel-at is_write 6 d d.controller_1 cs.channel_1 (omega arith) refl refl
          vs.channel_1.base vs.channel_1.count,
      wait_for_channel-at is_write 7 d d.controller_1 cs.channel_2 (omega arith) refl refl
          vs.channel_2.base vs.channel_2.count,
    )
