-- ===== src/Tests/Ring.antt =====
-- Runs of kernel/ringbuffer.c.
use pcie_sim.Base.{
  ℕ, Option, ◌≡◌, ◌⊎◌, refl, true, false, List, [], ◌∷◌, none, some, arith, success, fail, enospc,
  enodata, enomem, Returns,
}
use pcie_sim.Kernel.Ring.{nothing_written}
use pcie_sim.Kernel.Ring.Queue.{run, queue_run, queue_step, Call, submits, completes}
use pcie_sim.Kernel.Ring.Inv.{IsValid}
use pcie_sim.Kernel.Ring.Refine.{contents, run_refines}
use pcie_sim.Kernel.Rings.{ring_init, ring_cleanup}
use pcie_sim.Kernel.Rings.Balance.{ring_init_all_or_nothing}
use pcie_sim.Tests.Data.{small_ring, plain_device}

small_ring-IsValid : IsValid small_ring
small_ring-IsValid = record {
  allocated = refl;
  nonempty = omega arith;
  small = omega arith;
  head_in = omega arith;
  tail_in = omega arith;
  count_le = omega arith;
  placed = refl;
  balanced = refl;
}

-- One entry fits, the next does not, and three completions find two.
abbrev session : List Call
session =
    submits 200 12288 32 1
    ∷ submits 210 16384 16 1
    ∷ completes 300 true true 0
    ∷ completes 350 true false 5
    ∷ completes 360 true true 0
    ∷ []

run_refines_example :
    Returns
      (run small_ring session)
      (λ out. IsValid out.1 × (out.0 ≡ queue_run 2 (contents small_ring) session))
run_refines_example = run_refines session small_ring small_ring-IsValid

-- The replies of that session.
session_replies :
    queue_run 2 (contents small_ring) session
    ≡ (success, nothing_written)
      ∷ (fail enospc, nothing_written)
      ∷ (success, record { length = some 64; latency_ns = some 200 })
      ∷ (success, record { length = some 32; latency_ns = none })
      ∷ (fail enodata, nothing_written)
      ∷ []
unfolding queue_run queue_step
session_replies = refl

ring_init_all_or_nothing_example :
    let tx : Option ℕ = some 65536 in
    let rx : Option ℕ = none in
    let (ret, heap', dev') = ring_init tx rx ((4096, 64) ∷ []) plain_device in
    ((ret ≡ success)
      × IsValid dev'.tx_ring
      × IsValid dev'.rx_ring
      × (contents dev'.tx_ring ≡ [])
      × (contents dev'.rx_ring ≡ [])
      × ((ring_cleanup heap' (some dev')).0 ≡ (4096, 64) ∷ []))
    ⊎ (((tx ≡ none) ⊎ (rx ≡ none)) × (ret ≡ fail enomem) × (heap' ≡ (4096, 64) ∷ []))
ring_init_all_or_nothing_example =
    ring_init_all_or_nothing (some 65536) none ((4096, 64) ∷ []) plain_device
