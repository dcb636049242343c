-- ===== src/DeviceManager.antt =====
-- core/device_manager.cc and include/device_manager.h: the handlers of ports and of device memory,
-- and how an access finds its handler. A device is the number of its object. What the devices, the
-- memory manager and KVM do is a parameter, and MV_PANIC and a failed MV_ASSERT are `none`. What a
-- device does to the manager while it is called is part of its parameter.
pub mod Registry
pub mod Changes
pub mod Lookup
pub mod Dispatch
pub mod Agree
pub mod Unordered
pub mod Routing
pub mod Vectors
pub mod Levels
pub mod Shared
pub mod Ring
pub mod Slots
mod Examples
use mvisor_x.Base.{
  ℕ, zero, suc, ◌+◌, ◌-◌, ◌*◌, ◌%◌, ◌^◌, Bool, true, false, ◌&&◌, ◌||◌, List, [], ◌∷◌, ◌++◌, Option,
  none, some, ltb, leb, ◌==◌, if◌then◌else◌, ◌>>=◌, take, drop, replicate,
}
use mvisor_x.PciDevice.{ResourceType, untyped, pio, mmio, ram}

-- what the manager reads of an `IoResource`; `is_coalescing` is kIoResourceFlagCoalescingMmio
pub record IoResource : Type 0 where
  pub type : ResourceType
  pub base : ℕ
  pub length : ℕ
  pub is_coalescing : Bool

pub record IoHandler : Type 0 where
  pub resource : IoResource
  pub device : ℕ
  pub memory_region : Option ℕ

-- `Map` and `Unmap` of the memory manager, and the coalescing zones of KVM, where `none` is an error
pub record Host (M : Type 0) : Type 0 where
  pub map : ℕ → ℕ → M → ℕ × M
  pub unmap : Option ℕ → M → M
  pub register_zone : ℕ → ℕ → M → Option M
  pub unregister_zone : ℕ → ℕ → M → Option M

pub record DeviceManager (M : Type 0) : Type 0 where
  pub pio_handlers : List IoHandler
  pub mmio_handlers : List IoHandler
  pub memory : M

-- `range_get_last` and `ranges_overlap` of include/pci_device.h, for ranges that are not empty
abbrev pub range_get_last : ℕ → ℕ → ℕ
range_get_last offset len = (offset + (len - 1)) % 2 ^ 64

abbrev pub ranges_overlap : ℕ → ℕ → ℕ → ℕ → Bool
ranges_overlap first1 len1 first2 len2 =
    leb first2 (range_get_last first1 len1) && leb first1 (range_get_last first2 len2)

-- the search for a handler that overlaps
unfoldable pub find_overlap : List IoHandler → IoResource → Option Bool
find_overlap [] r = some false
find_overlap (h ∷ hs) r =
    let rest = find_overlap hs r in
    if h.resource.length == 0 || r.length == 0
    then none
    else if ranges_overlap h.resource.base h.resource.length r.base r.length
    then some true
    else rest

-- the first handler of a device at a base address is taken out
abbrev pub is_handler : ℕ → ℕ → IoHandler → Bool
is_handler device base h = h.device == device && h.resource.base == base

unfoldable pub erase_handler : ℕ → ℕ → List IoHandler → List IoHandler
erase_handler device base [] = []
erase_handler device base (h ∷ hs) =
    if is_handler device base h then hs else h ∷ erase_handler device base hs

unfoldable pub find_erased : ℕ → ℕ → List IoHandler → Option IoHandler
find_erased device base [] = none
find_erased device base (h ∷ hs) =
    if is_handler device base h then some h else find_erased device base hs

-- a port resource, when no handler overlaps
unfoldable pub register_port : ℕ → IoResource → List IoHandler → Option (List IoHandler)
register_port device r hs = find_overlap hs r >>= λ found.
    if found
    then none
    else some (hs ++ (record { resource = r; device = device; memory_region = none } ∷ []))

module _ {M : Type 0} (host : Host M) where
  abbrev pub add_zone : IoResource → DeviceManager M → Option (DeviceManager M)
  add_zone r m =
      if r.is_coalescing
      then (host.register_zone r.base (r.length % 2 ^ 32) m.memory >>= λ memory.
          some (record m { memory = memory }))
      else some m

  -- device memory is compared with the handlers of the ports
  unfoldable pub register_memory : ℕ → IoResource → DeviceManager M → Option (DeviceManager M)
  register_memory device r m = find_overlap m.pio_handlers r >>= λ found.
      if found
      then none
      else let (region, memory) = host.map r.base r.length m.memory in
        add_zone r (record m {
          mmio_handlers =
              m.mmio_handlers
              ++ (record { resource = r; device = device; memory_region = some region } ∷ []);
          memory = memory;
        })

  -- `RegisterIoHandler`
  abbrev pub register_typed :
      ResourceType → ℕ → IoResource → DeviceManager M → Option (DeviceManager M)
  register_typed untyped device r m = some m
  register_typed ram device r m = some m
  register_typed pio device r m =
      register_port device r m.pio_handlers >>= λ hs. some (record m { pio_handlers = hs })
  register_typed mmio device r m = register_memory device r m

  unfoldable pub register_io_handler : ℕ → IoResource → DeviceManager M → Option (DeviceManager M)
  register_io_handler device r m = register_typed r.type device r m

  abbrev pub remove_zone : IoResource → DeviceManager M → Option (DeviceManager M)
  remove_zone r m =
      if r.is_coalescing
      then (host.unregister_zone r.base (r.length % 2 ^ 32) m.memory >>= λ memory.
          some (record m { memory = memory }))
      else some m

  abbrev pub unmap_erased : Option IoHandler → M → M
  unmap_erased none memory = memory
  unmap_erased (some h) memory = host.unmap h.memory_region memory

  -- `UnregisterIoHandler`
  abbrev pub unregister_typed :
      ResourceType → ℕ → IoResource → DeviceManager M → Option (DeviceManager M)
  unregister_typed untyped device r m = some m
  unregister_typed ram device r m = some m
  unregister_typed pio device r m =
      some (record m { pio_handlers = erase_handler device r.base m.pio_handlers })
  unregister_typed mmio device r m = remove_zone r (record m {
    mmio_handlers = erase_handler device r.base m.mmio_handlers;
    memory = unmap_erased (find_erased device r.base m.mmio_handlers) m.memory;
  })

  unfoldable pub unregister_io_handler : ℕ → IoResource → DeviceManager M → Option (DeviceManager M)
  unregister_io_handler device r m = unregister_typed r.type device r m

-- the handler is responsible for an address
abbrev pub handles : ℕ → IoHandler → Bool
handles a h = leb h.resource.base a && ltb a ((h.resource.base + h.resource.length) % 2 ^ 64)

-- the first handler of an address, with its place
unfoldable pub find_handler : ℕ → ℕ → List IoHandler → Option (ℕ × IoHandler)
find_handler it_count a [] = none
find_handler it_count a (h ∷ hs) =
    let rest = find_handler (suc it_count) a hs in if handles a h then some (it_count, h) else rest

unfoldable pub erase_at : ℕ → List IoHandler → List IoHandler
erase_at i [] = []
erase_at zero (h ∷ hs) = hs
erase_at (suc i) (h ∷ hs) = h ∷ erase_at i hs

-- from the fourth on, the handler that is found moves to the front
unfoldable pub move_to_front : Option (ℕ × IoHandler) → List IoHandler → List IoHandler
move_to_front none hs = hs
move_to_front (some (it_count, h)) hs = if leb 3 it_count then h ∷ erase_at it_count hs else hs
