-- ===== src/Examples/Basic/Writes.antt =====
-- The writes of examples/basic_test.c, and what the device counts of them.
use Prim.Native.Nat.{zero, suc}
use pcie_sim.Base.{
  Double, ℕ, ◌+◌, ◌*◌, ◌≡◌, refl, ◌∙◌, ap, List, [], ◌∷◌, Option, some, ◌>>=◌, arith, length, sum,
}
use pcie_sim.Api.{to_device}
use pcie_sim.Sim.Linux.History.{Transfer, stats_of, sizes, history_counters}
use pcie_sim.Sim.Linux.Calls.{View, log_at}
use pcie_sim.Library.Backend.{Backend, Laws}
use pcie_sim.Examples.Records.{logs_after}
use pcie_sim.Examples.Basic.{Line, transferred, write_loop}

-- Writes of the whole buffer to a device, by their latencies.
abbrev pub sent : ℕ → List ℕ → List (ℕ × Transfer)
sent d [] = []
sent d (l ∷ ls) = (d, record { size = 4096; latency = l }) ∷ sent d ls

length-sent :
    (d : ℕ) (ls : List ℕ) (logs : ℕ → List Transfer)
    → length (logs_after (sent d ls) logs d) ≡ length ls + length (logs d)
length-sent d [] logs = omega arith
length-sent d (l ∷ ls) logs =
    length-sent d ls (log_at d (record { size = 4096; latency = l } ∷ logs d) logs) ∙ ground arith

sizes-sent :
    (d : ℕ) (ls : List ℕ) (logs : ℕ → List Transfer)
    → sum (sizes (logs_after (sent d ls) logs d)) ≡ 4096 * length ls + sum (sizes (logs d))
sizes-sent d [] logs = omega arith
sizes-sent d (l ∷ ls) logs =
    sizes-sent d ls (log_at d (record { size = 4096; latency = l } ∷ logs d) logs) ∙ ground arith

-- The statistics after the writes and the read.
pub counted :
    (d l : ℕ) (ls : List ℕ) (logs : ℕ → List Transfer)
    → length ls ≡ 10
    → let entry : Transfer = record { size = 1024; latency = l } in
      let written_logs = logs_after (sent d ls) (log_at d [] logs) in
      let s = stats_of (entry ∷ written_logs d) in
      (s.total_transfers ≡ 11) × (s.total_bytes ≡ 41984) × (s.total_errors ≡ 0)
counted d l ls logs n =
    let entry : Transfer = record { size = 1024; latency = l } in
    let base = log_at d [] logs in
    let written_logs = logs_after (sent d ls) base in
    let (t, bytes, errors) = history_counters (entry ∷ written_logs d) in
    let empty : base d ≡ [] = ground arith in
    let t' : length (written_logs d) ≡ 10 = length-sent d ls base ∙ rw empty (omega (arith, n)) in
    let bytes' : sum (sizes (written_logs d)) ≡ 40960 =
      sizes-sent d ls base ∙ rw empty (omega (arith, n)) in
    (t ∙ rw t' refl, bytes ∙ rw bytes' refl, errors)

module _ (double : Double) where
  -- The lines of transfers that are numbered on from a number.
  abbrev pub transfer_lines : ℕ → List ℕ → List (Line double)
  transfer_lines i [] = []
  transfer_lines i (l ∷ ls) = transferred (i + 1) 4096 l ∷ transfer_lines (i + 1) ls

  module _ (b : Backend) (laws : Laws b) where
    -- What the loop leaves.
    pub data Written (view : View) (d i more : ℕ)
        : Option (b.State × List (Line double)) → Type 0 where
      written :
          (s : b.State) (ls : List ℕ)
          → length ls ≡ more
          → laws.Abs s (record view { logs = logs_after (sent d ls) view.logs })
          → Written view d i more (some (s, transfer_lines i ls))

    next-Written :
        (view : View) (d i more l : ℕ) (r : Option (b.State × List (Line double)))
        → Written
            (record view {
              logs = log_at d (record { size = 4096; latency = l } ∷ view.logs d) view.logs;
            })
            d
            (i + 1)
            more
            r
        → Written view d i
            (suc more)
            (r >>= (λ (s, lines). some (s, transferred (i + 1) 4096 l ∷ lines)))
    next-Written view d i more l _ (written s ls n a) = written s (l ∷ ls) (ap suc n) a

    pub write_loop-Written :
        (more i : ℕ) (s : b.State) (view : View) (p d : ℕ)
        → laws.Abs s view
        → view.handles p ≡ some d
        → Written view d i more (write_loop double b more i s p)
    unfolding write_loop
    write_loop-Written zero i s view p d a h = written s [] refl a
    write_loop-Written (suc more) i s view p d a h =
        let (s', l, eq, a') =
          laws.transfers_lem s view p d 4096 to_device a h (λ e. absurd (omega (arith, e))) in
        let entry : Transfer = record { size = 4096; latency = l } in
        rw eq (
          next-Written view d i more l (write_loop double b more (i + 1) s' p) (
            write_loop-Written more (i + 1) s'
              (record view { logs = log_at d (entry ∷ view.logs d) view.logs }) p d a' h))
