-- ===== src/Examples/Stress/Together.antt =====
-- The threads of the stress test of examples/cpp_test.cpp together: what they hold, and what is left
-- to do.
use pcie_sim.Base.{ℕ, ◌+◌, ◌≤◌, ◌<◌, ◌≡◌, refl, ◌∙◌, List, [], ◌∷◌, if◌then◌else◌, Option, arith}
use pcie_sim.Sim.Linux.History.{Transfer}
use pcie_sim.Library.Device.Owners.{owns_self}
use pcie_sim.Utils.Csv.{Printer}
use pcie_sim.Utils.Config.{Float, TransferConfig}
use pcie_sim.Examples.Tester.{ErrorInjector, Env, IsEnv}
use pcie_sim.Examples.Stress.{
  Loop, Phase, starting, testing, attempting, recording, resting, ended, Worker, is_ended,
}
use pcie_sim.Examples.Stress.Scheduler.{unfinished_workers}
use pcie_sim.Examples.Stress.Measure.{steps_left, steps_left_mono, weigh, pending, owned}
use pcie_sim.Examples.Stress.Progress.{Good, Named}

abbrev pub steps_of : ℕ → ℕ → List Worker → ℕ
steps_of seconds now [] = 0
steps_of seconds now (w ∷ ws) = steps_left seconds now w.phase + steps_of seconds now ws

pub steps_of_mono :
    (seconds now later : ℕ) (ws : List Worker)
    → now ≤ later
    → steps_of seconds later ws ≤ steps_of seconds now ws
steps_of_mono seconds now later [] l = omega arith
steps_of_mono seconds now later (w ∷ ws) l =
    omega (arith, steps_left_mono seconds now later w.phase l, steps_of_mono seconds now later ws l)

-- How often threads own a handle, and what their transfers weigh that are not logged yet.
abbrev pub owned_by : ℕ → List Worker → ℕ
owned_by q [] = 0
owned_by q (w ∷ ws) = owned q w.phase + owned_by q ws

abbrev pub pending_of : (ℕ × Transfer → ℕ) → List Worker → ℕ
pending_of f [] = 0
pending_of f (w ∷ ws) = weigh f (pending w.device_id w.phase) + pending_of f ws

-- A thread that has not ended has steps left.
pub unfinished-le :
    (seconds now : ℕ) (ws : List Worker) → unfinished_workers ws ≤ steps_of seconds now ws
unfinished-le seconds now [] = omega arith
unfinished-le seconds now (w ∷ ws) = by_phase w.phase (unfinished-le seconds now ws)
  where
    by_phase :
        (p : Phase)
        → unfinished_workers ws ≤ steps_of seconds now ws
        → (if is_ended p then 0 else 1) + unfinished_workers ws
          ≤ steps_left seconds now p + steps_of seconds now ws
    by_phase starting l = omega (arith, l)
    by_phase (testing x) l = omega (arith, l)
    by_phase (attempting x size status time) l = omega (arith, l)
    by_phase (recording x size status latency) l = omega (arith, l)
    by_phase (resting x time) l = omega (arith, l)
    by_phase ended l = omega (arith, l)

-- Threads that have all ended own nothing, and have logged everything.
pub all_ended :
    (ws : List Worker)
    → unfinished_workers ws ≡ 0
    → ((q : ℕ) → owned_by q ws ≡ 0) × ((f : ℕ × Transfer → ℕ) → pending_of f ws ≡ 0)
all_ended [] e = ((λ q. refl), λ f. refl)
all_ended (w ∷ ws) e = by_phase w.device_id w.phase e (all_ended ws)
  where
    by_phase :
        (d : ℕ) (p : Phase)
        → (if is_ended p then 0 else 1) + unfinished_workers ws ≡ 0
        → (unfinished_workers ws ≡ 0
            → ((q : ℕ) → owned_by q ws ≡ 0) × ((f : ℕ × Transfer → ℕ) → pending_of f ws ≡ 0))
        → ((q : ℕ) → owned q p + owned_by q ws ≡ 0)
          × ((f : ℕ × Transfer → ℕ) → weigh f (pending d p) + pending_of f ws ≡ 0)
    by_phase d ended e ih =
        let (none_owned, none_pending) = ih (omega (arith, e)) in
        ((λ q. omega (arith, none_owned q)), λ f. omega (arith, none_pending f))
    by_phase d starting e ih = absurd (omega (arith, e))
    by_phase d (testing x) e ih = absurd (omega (arith, e))
    by_phase d (attempting x size status time) e ih = absurd (omega (arith, e))
    by_phase d (recording x size status latency) e ih = absurd (omega (arith, e))
    by_phase d (resting x time) e ih = absurd (omega (arith, e))

module _ (printer : Printer) (fl : Float) (env : Env fl) (r : IsEnv fl env) where
  module _ (o : Option (ErrorInjector fl)) (low high : ℕ) (config : TransferConfig) where
    abbrev GoodAt : (ℕ → Option ℕ) → ℕ → Phase → Type 0
    GoodAt = Good printer fl env r o low high config

    -- What holds where every thread stands.
    abbrev pub AllGood : (ℕ → Option ℕ) → List Worker → Type 0
    AllGood handles [] = Unit {0}
    AllGood handles (w ∷ ws) =
        (GoodAt handles w.device_id w.phase
          × (low ≤ w.device_id)
          × (w.device_id < high)
          × (w.device_id < 8))
        × AllGood handles ws

    -- What is named stays named where the handles of the thread stay.
    Named-kept :
        (handles handles' : ℕ → Option ℕ) (d : ℕ) (l : Loop)
        → ((q : ℕ) → 1 ≤ owned q (testing l) → handles' q ≡ handles q)
        → Named printer fl env r o low high config handles d l
        → Named printer fl env r o low high config handles' d l
    Named-kept handles handles' d l same (p, e, n) =
        (p, e, same p (rw e (omega (arith, owns_self p))) ∙ n)

    pub Good-kept :
        (handles handles' : ℕ → Option ℕ) (d : ℕ) (p : Phase)
        → ((q : ℕ) → 1 ≤ owned q p → handles' q ≡ handles q)
        → GoodAt handles d p
        → GoodAt handles' d p
    Good-kept handles handles' d starting same good = good
    Good-kept handles handles' d (testing l) same good = Named-kept handles handles' d l same good
    Good-kept handles handles' d (attempting l size status time) same (named, sized, timed) =
        (Named-kept handles handles' d l same named, sized, timed)
    Good-kept handles handles' d (recording l size status latency) same (named, sized, timed) =
        (Named-kept handles handles' d l same named, sized, timed)
    Good-kept handles handles' d (resting l time) same good =
        Named-kept handles handles' d l same good
    Good-kept handles handles' d ended same good = good

    pub AllGood-kept :
        (handles handles' : ℕ → Option ℕ) (ws : List Worker)
        → ((q : ℕ) → 1 ≤ owned_by q ws → handles' q ≡ handles q)
        → AllGood handles ws
        → AllGood handles' ws
    AllGood-kept handles handles' [] same good = tt
    AllGood-kept handles handles' (w ∷ ws) same ((good, lo, hi, m), goods) = (
      (
        Good-kept handles handles' w.device_id w.phase (λ q l. same q (omega (arith, l))) good,
        lo,
        hi,
        m,
      ),
      AllGood-kept handles handles' ws (λ q l. same q (omega (arith, l))) goods,
    )
