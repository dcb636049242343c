-- ===== src/Lib.antt =====
-- A verification library for MVisor, a small x86 hypervisor on KVM.
--
-- The program. core/ has the machine: MemoryManager keeps the guest's physical memory, DeviceManager
-- sends accesses to ports and memory on to the devices under devices/, which read and write guest
-- memory through it. Disks of devices/ahci stand on the images of images/, whose tables are cached
-- by include/lru_cache.h. Interfaces of gui/ and networks of networks/ feed the devices.
--
-- What is modelled, by file:
--   Base (Base/Tests, Base/Lists, Base/Bits, Base/Or, Base/Ints): Boolean tests, lists, words, bit
--     masks and signed numbers, shared by all.
--   StdMap: std::map and std::set as ordered lists.
--   Memory/Types: include/memory_region.h; a pointer is a number, the field `ref`.
--   Memory/Commit: MemoryManager::CommitMemoryRegionChanges of core/memory_manager.cc with what it
--     calls: region_points, pick and visible_from are its first two loops, compare_slots the loop
--     that compares the visible regions with kvm_slots_, remove_all and add_all the two loops that
--     commit the pending slots. A refusal of KVM and a failed MV_ASSERT are `none`. The answer of
--     KVM_SET_USER_MEMORY_REGION is the parameter `ioctl_ok`. The sets of pending slots have no
--     order in C++; here they are walked in the order of insertion.
--   Memory/Api: Map, Unmap, SetLogDirtyBitmap, GuestToHostAddress, HostToGuestAddress,
--     GetMemoryFlatView and the registration of listeners.
--   Memory/Tables, Compare, Rebuild, Effects, Visible, Ids, Stale, Total, Invariant, Runs, Overlap,
--     Translate: the proofs about these; Memory/Examples: runs and instances.
--   Lru: SimpleLRUCache of include/lru_cache.h at uint64_t keys, with list iterators as node
--     numbers; Lru/Recency is the list of entries that it promises; Lru/Nodes, View, Laws,
--     Invariant, Put and Clear have the proofs, Lru/Examples the runs.
--   I8257Dma: the ISA DMA controllers of devices/superio/i8257_dma.h and i8257_dma.cc. Arrays are
--     records with a field for each element; an access outside an array, MV_PANIC and a failed
--     MV_ASSERT are `none`. wait_for_channel is WaitForChannel up to the translation of the guest
--     address. I8257Dma/Bytes: the invariant; I8257Dma/Saved: SaveState and LoadState;
--     I8257Dma/Buffer: what a programmed channel gives; I8257Dma/Examples: runs and instances.
--   Keymap: the key maps of gui/keymap.c; the numbers of QKeyCode are places in its enumeration and
--     the bytes that QcodeToAtset1 writes are a list. Keymap/X11, Usb and Atset1 are the tables,
--     Keymap/Transcode the proofs, Keymap/Examples the runs.
--   Ps2: the PS/2 controller of devices/superio/ps2.cc. The record has the calls of SetGsiLevel as a
--     list and the number of resets of the machine; an array of bytes is a list. Ps2: the queues,
--     the output register and the interrupt lines; Ps2/Commands: the writes and reads of the guest;
--     Ps2/Events: keys and mouse; Ps2/Saved: the saved state. Ps2/Settled, Runs, Pending, Delivery
--     and Devices have the proofs, Ps2/Examples the runs.
--   Uart: the serial ports of devices/superio/uart.cc. A Console has the calls of SetGsiLevel and of
--     putchar as lists. Uart: the registers of one console; Uart/Ports: the four consoles and the
--     port accesses; Uart/Valid, Output and Received have the proofs, Uart/Examples the runs.
--   Dirty: HandleBitmap of core/memory_manager.cc and IsDirty of core/memory_region.cc; the calls of
--     a callback are a list. Dirty/Foreach: ForeachDirtyPage. Dirty/Sound and Visits have the proofs
--     about the others, Dirty/Examples the instances.
--   Qcow2: the disk images of images/qcow2.cc. pread and pwrite of the file are parameters, with
--     pwrite one that writes all its bytes: a run in which it fails or writes less ends in the
--     MV_ASSERT of WriteFile and is not modelled. Their laws
--     are those of a regular file, in IsFile. Parameters are fsync and the zstd decompression, too; an entry
--     of a table is the number that it stands for. Shifts by the cluster bits are products and
--     quotients by the cluster size. Qcow2/Words: big-endian words; Qcow2/Tables: a cache of tables
--     with the file behind it, read, changed in place, evicted and flushed; Qcow2/Refcounts:
--     GetRefcountBlock, FreeCluster, AllocateCluster; Qcow2/Image: GetL2Table; Qcow2/Clusters:
--     ReadCluster, WriteCluster and DiscardCluster on an image and its backing files, which are a
--     list; Qcow2/Requests: BlockIo, FlushAll, HandleIoRequest. A pointer to a table is its key in
--     the cache. Evicted, Coherent, Refine, Entries and Flush have the proofs about the caches,
--     Cells, Sound, Blocks, NewBlock, Search, Take, Allocate, Free and Reuse those about
--     refcounts, Bounds, Loop and ReadBack those about clusters and requests. Disk is a file for
--     the tests in Examples and ImageExamples. AllocateCluster has one more round of fuel than the
--     refcount table has clusters, BlockIo one more than it has bytes.
--   PciDevice: the command, the base address registers and the ROM register of a PCI device's
--     configuration space, core/pci_device.cc and include/pci_device.h: WritePciCommand,
--     UpdatePciBarAddress, ActivatePciBar, DeactivatePciBar and UpdateRomBarAddress. The resources
--     that AddIoResource has and RemoveIoResource has not are a list, a failed MV_ASSERT is `none`:
--     those on the type, the length and the host memory of a register that is activated, and on the
--     size of a ROM that is mapped. What the device manager and the memory manager do with a resource
--     or the ROM is a parameter, `Managers`, that says whether they panic, as they do where port ranges
--     overlap. PciDevice/Setup: SetupPciBar, SetupPciBar64 and the host memory of a register of
--     memory, which devices/display/qxl/qxl.cc assigns; PciDevice/Idle and Started: from the set-up on;
--     PciDevice/Load: the registers in SaveState and LoadState;
--     PciDevice/Access: accesses of the width that the code asserts, one after the other;
--     PciDevice/Registered and Mapped: the resources; PciDevice/Sizing: the sizes that a guest reads;
--     PciDevice/Kept: what an access keeps; PciDevice/Total: no assertion fails; PciDevice/Examples: devices with registers and a ROM.
--   DeviceManager: the handlers of ports and device memory, core/device_manager.cc and
--     include/device_manager.h. RegisterIoHandler and UnregisterIoHandler are register_io_handler and
--     unregister_io_handler; the devices, the memory manager and KVM are parameters.
--     DeviceManager/Lookup: HandleIo and HandleMmio; DeviceManager/Registry and Changes: the handlers as
--     a set; DeviceManager/Dispatch, Agree and Unordered: sequences of registrations and accesses;
--     DeviceManager/Routing and Vectors: the table of interrupt routes and MSI notifiers;
--     DeviceManager/Levels and Shared: SetPciIrqLevel; DeviceManager/Slots: the addresses that
--     RegisterDevice gives; DeviceManager/Ring: the flush of coalesced writes, with 170 rounds for
--     170 entries; DeviceManager/Examples: a run of each.
--
-- Numbers are native; a uint64_t keeps its wrap at 2^64 where the source can wrap. Fuel: the loop
-- of Clear has the length of its list and one more, which clear-Cleared shows to be enough. All
-- other loops are recursions on lists or on the number of rounds that the source counts.
--
-- Not modelled: locks and threads, printing, the set-up of RAM and BIOS, migration streams, and the
-- parts of the program that are not named above. Code of other projects in the repository (the
-- canvas code of SPICE, libfuse, Linux headers) is not modelled.
pub mod Base
pub mod StdMap
pub mod Memory
pub mod Lru
pub mod I8257Dma
pub mod Keymap
pub mod Ps2
pub mod Uart
pub mod Dirty
pub mod Qcow2
pub mod PciDevice
pub mod DeviceManager
