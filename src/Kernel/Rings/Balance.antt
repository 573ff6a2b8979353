-- ===== src/Kernel/Rings/Balance.antt =====
-- What the set-up of the rings allocates is freed on its error path and by the clean-up, and
-- leaves two valid, empty rings where it succeeds.
use pcie_sim.Base.{
  ℕ, ◌⊎◌, inl, inr, ◌*◌, ◌≡◌, refl, [], ◌∷◌, Option, none, some, arith, length-replicate, success,
  fail, enomem,
}
use pcie_sim.Kernel.Ring.{Ring, DmaHeap, desc_bytes, zero_desc, dma_free, init_ring}
use pcie_sim.Kernel.Ring.Inv.{IsValid}
use pcie_sim.Kernel.Ring.Refine.{contents}
use pcie_sim.Kernel.Device.{Device}
use pcie_sim.Kernel.Rings.{ring_init, ring_cleanup}

-- A ring that its set-up returned success for is valid and empty.
init_ring-IsValid :
    (addr : ℕ) (heap : DmaHeap) (r : Ring)
    → let r' = (init_ring (some addr) heap r).2 in IsValid r' × (contents r' ≡ [])
unfolding init_ring
init_ring-IsValid addr heap r = (
  record {
    allocated = length-replicate 256 zero_desc;
    nonempty = omega arith;
    small = omega arith;
    head_in = omega arith;
    tail_in = omega arith;
    count_le = omega arith;
    placed = omega arith;
    balanced = omega arith;
  },
  refl,
)

-- Where both allocations succeed, pcie_sim_ring_init returns 0 with two valid and empty rings.
ring_init-IsValid :
    (tx rx : ℕ) (heap : DmaHeap) (dev : Device)
    → let (ret, heap', dev') = ring_init (some tx) (some rx) heap dev in
      (ret ≡ success)
      × IsValid dev'.tx_ring
      × IsValid dev'.rx_ring
      × (contents dev'.tx_ring ≡ [])
      × (contents dev'.rx_ring ≡ [])
unfolding ring_init
ring_init-IsValid tx rx heap dev =
    let (tx_valid, tx_empty) = init_ring-IsValid tx heap dev.tx_ring in
    let (rx_valid, rx_empty) = init_ring-IsValid rx ((tx, 256 * desc_bytes) ∷ heap) dev.rx_ring in
    (refl, tx_valid, rx_valid, tx_empty, rx_empty)

-- Where an allocation fails, it returns -ENOMEM and has freed all that it allocated.
ring_init_fails :
    (tx rx : Option ℕ) (heap : DmaHeap) (dev : Device)
    → ((tx ≡ none) ⊎ (rx ≡ none))
    → let (ret, heap', dev') = ring_init tx rx heap dev in (ret ≡ fail enomem) × (heap' ≡ heap)
unfolding ring_init dma_free
ring_init_fails tx rx heap dev h = ground arith

-- pcie_sim_ring_cleanup frees all that a successful pcie_sim_ring_init allocated.
ring_cleanup-ring_init :
    (tx rx : ℕ) (heap : DmaHeap) (dev : Device)
    → let (ret, heap', dev') = ring_init (some tx) (some rx) heap dev in
      (ring_cleanup heap' (some dev')).0 ≡ heap
unfolding ring_init ring_cleanup dma_free
ring_cleanup-ring_init tx rx heap dev = ground arith

-- Where both allocations succeed, pcie_sim_ring_init returns 0 with two valid and empty rings, and
-- pcie_sim_ring_cleanup frees all that was allocated for them. Where one fails, it returns -ENOMEM
-- and has freed all that it allocated.
pub ring_init_all_or_nothing :
    (tx rx : Option ℕ) (heap : DmaHeap) (dev : Device)
    → let (ret, heap', dev') = ring_init tx rx heap dev in
      ((ret ≡ success)
        × IsValid dev'.tx_ring
        × IsValid dev'.rx_ring
        × (contents dev'.tx_ring ≡ [])
        × (contents dev'.rx_ring ≡ [])
        × ((ring_cleanup heap' (some dev')).0 ≡ heap))
      ⊎ (((tx ≡ none) ⊎ (rx ≡ none)) × (ret ≡ fail enomem) × (heap' ≡ heap))
ring_init_all_or_nothing none rx heap dev =
    let (ret, freed) = ring_init_fails none rx heap dev (inl refl) in inr (inl refl, ret, freed)
ring_init_all_or_nothing (some tx) none heap dev =
    let (ret, freed) = ring_init_fails (some tx) none heap dev (inr refl) in
    inr (inr refl, ret, freed)
ring_init_all_or_nothing (some tx) (some rx) heap dev =
    let (ret, tx_valid, rx_valid, tx_empty, rx_empty) = ring_init-IsValid tx rx heap dev in
    inl (ret, tx_valid, rx_valid, tx_empty, rx_empty, ring_cleanup-ring_init tx rx heap dev)
