-- ===== src/Library/Monitor/Thread/Ending.antt =====
-- stop_monitoring of lib/monitor.hpp gets back from join().
use pcie_sim.Base.{
  ℕ, ◌≤◌, ◌≡◌, refl, true, false, Option, none, some, is_some, arith, subst, ap, ◌⊎◌, inl, inr, ◌<◌,
  zero, suc,
}
use pcie_sim.Library.Monitor.Thread.{
  Phase, testing, reporting, sleeping, ended, Purpose, Control, joining, Monitor, phase_step,
  thread_step, returns, join_step, Step, thread_steps, calls_stop, calls_start, stops, joins,
  spawns, throws, fails, throw_step, Reachable,
}
use pcie_sim.Library.Monitor.Thread.Lifetime.{Fits, IsSound, Step-IsSound, Reachable-IsSound}

-- How many steps the reporting thread has left once the monitoring is off.
abbrev left : Option Phase → ℕ
left none = 0
left (some ended) = 0
left (some testing) = 1
left (some sleeping) = 2
left (some reporting) = 3

left-phase_step :
    (phase : Phase) → (phase ≡ ended → ⊥) → left (some (phase_step false phase)) < left (some phase)
unfolding phase_step
left-phase_step testing ne = omega arith
left-phase_step reporting ne = omega arith
left-phase_step sleeping ne = omega arith
left-phase_step ended ne = absurd (ne refl)

-- Every run from a state gets back from join(), or the program ends because the reporting thread
-- throws; no run is stuck before.
pub data Ends (purpose : Purpose) : Monitor → Type 0 where
  back : (m : Monitor) → m.control ≡ returns purpose → Ends purpose m
  ended_by_throw : (m : Monitor) → m.thrown ≡ true → Ends purpose m
  goes_on :
      (m : Monitor)
      → ((m' : Monitor) × Step m m')
      → ((m' : Monitor) → Step m m' → Ends purpose m')
      → Ends purpose m

-- A step while join() waits.
join-progress :
    (purpose : Purpose) (m m' : Monitor)
    → Step m m'
    → IsSound m
    → m.control ≡ joining purpose
    → (m'.thrown ≡ true)
      ⊎ (m'.control ≡ returns purpose)
      ⊎ ((m'.control ≡ joining purpose) × (left m'.thread < left m.thread))
unfolding thread_step join_step throw_step
join-progress purpose _ _ (thread_steps m phase ne) h e =
    let off : m.monitoring ≡ false = (subst (λ x. Fits x m.monitoring (some phase)) e h.fits).0 in
    inr (inr (e, rw off (left-phase_step phase ne)))
join-progress purpose _ _ (throws m) h e = inl refl
join-progress purpose _ _ (calls_stop m) h e = absurd (cc e)
join-progress purpose _ _ (calls_start m) h e = absurd (cc e)
join-progress purpose _ _ (stops m purpose') h e = absurd (cc e)
join-progress purpose _ _ (joins m purpose') h e = inr (inl (ap returns (cc e)))
join-progress purpose _ _ (spawns m) h e = absurd (cc e)
join-progress purpose _ _ (fails m) h e = absurd (cc e)

-- While join() waits, some thread can go on.
join-enabled :
    (purpose : Purpose) (control : Control) (thread : Option Phase) (m : Monitor)
    → control ≡ joining purpose
    → is_some thread ≡ true
    → (m' : Monitor) × Step (record m { control = control; thread = thread }) m'
join-enabled purpose control none m c e = absurd (cc e)
join-enabled purpose control (some testing) m c e =
    (_, thread_steps (record m { control = control }) testing (λ q. cc q))
join-enabled purpose control (some reporting) m c e =
    (_, thread_steps (record m { control = control }) reporting (λ q. cc q))
join-enabled purpose control (some sleeping) m c e =
    (_, thread_steps (record m { control = control }) sleeping (λ q. cc q))
join-enabled purpose control (some ended) m c e = rw c (_, joins m purpose)

enabled :
    (purpose : Purpose) (m : Monitor)
    → IsSound m
    → m.control ≡ joining purpose
    → (m' : Monitor) × Step m m'
enabled purpose m h e =
    join-enabled purpose m.control m.thread m e
      (subst (λ x. Fits x m.monitoring m.thread) e h.fits).1

Ends-within :
    (bound : ℕ) (purpose : Purpose) (m : Monitor)
    → left m.thread ≤ bound
    → IsSound m
    → m.control ≡ joining purpose
    → Ends purpose m
Ends-within zero purpose m l h e = goes_on m (enabled purpose m h e) (λ m' s.
    elim (join-progress purpose m m' s h e) [
      | inl t ↦ ended_by_throw m' t
      | inr (inl b) ↦ back m' b
      | inr (inr (c, less)) ↦ absurd (omega (arith, l, less))
    ])
Ends-within (suc bound) purpose m l h e = goes_on m (enabled purpose m h e) (λ m' s.
    elim (join-progress purpose m m' s h e) [
      | inl t ↦ ended_by_throw m' t
      | inr (inl b) ↦ back m' b
      | inr (inr (c, less)) ↦
          Ends-within bound purpose m' (omega (arith, l, less)) (Step-IsSound m m' s h) c
    ])

left-bounded : (thread : Option Phase) → left thread ≤ 3
left-bounded none = omega arith
left-bounded (some testing) = omega arith
left-bounded (some reporting) = omega arith
left-bounded (some sleeping) = omega arith
left-bounded (some ended) = omega arith

-- One thread starts and stops the monitoring, the callback does not, and each report ends: it
-- returns, or it throws. Then, once stop_monitoring waits in join(), every run gets back from it,
-- whichever thread goes on, or ends with the program where a report throws, and is not stuck before.
pub join-Ends :
    (purpose : Purpose) (m : Monitor) → Reachable m → m.control ≡ joining purpose → Ends purpose m
join-Ends purpose m r e = Ends-within 3 purpose m (left-bounded m.thread) (Reachable-IsSound m r) e
