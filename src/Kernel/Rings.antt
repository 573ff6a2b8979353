-- ===== src/Kernel/Rings.antt =====
-- kernel/ringbuffer.c, the two rings of a device: set up together or not at all.
pub mod Balance
use pcie_sim.Base.{Option, none, some, Ret, success, fail, ℕ}
use pcie_sim.Kernel.Ring.{DmaHeap, init_ring, cleanup_ring}
use pcie_sim.Kernel.Device.{Device}

-- pcie_sim_ring_init; the first two arguments are what the two calls of dma_alloc_coherent
-- return, the second only if it is made.
unfoldable pub ring_init : Option ℕ → Option ℕ → DmaHeap → Device → Ret × DmaHeap × Device
unfolding init_ring cleanup_ring
ring_init tx_alloc rx_alloc heap dev =
    let (ret, heap', tx) = init_ring tx_alloc heap dev.tx_ring in
    let dev' : Device = record dev { tx_ring = tx } in
    elim ret [
      | some e ↦ (fail e, heap', dev')
      | none ↦
          (let (ret', heap'', rx) = init_ring rx_alloc heap' dev'.rx_ring in
            elim ret' [
              | some e ↦
                  (let (heap''', tx') = cleanup_ring heap'' tx in
                    (fail e, heap''', record dev' { tx_ring = tx'; rx_ring = rx }))
              | none ↦ (success, heap'', record dev' { rx_ring = rx })
            ])
    ]

-- pcie_sim_ring_cleanup; the device is `none` where the pointer is NULL.
unfoldable pub ring_cleanup : DmaHeap → Option Device → DmaHeap × Option Device
unfolding cleanup_ring
ring_cleanup heap none = (heap, none)
ring_cleanup heap (some dev) =
    let (heap', rx) = cleanup_ring heap dev.rx_ring in
    let (heap'', tx) = cleanup_ring heap' dev.tx_ring in
    (heap'', some (record dev { rx_ring = rx; tx_ring = tx }))
