-- ===== src/Library/Monitor/Thread/Lifetime.antt =====
-- The reporting thread of lib/monitor.hpp lives between start_monitoring and stop_monitoring.
use pcie_sim.Base.{
  ◌≡◌, refl, Bool, true, false, Option, none, some, is_some, Bool-cases, ◌∙◌, ◌⊎◌, inl, inr,
}
use pcie_sim.Library.Monitor.Thread.{
  Phase, testing, reporting, sleeping, ended, Purpose, to_rest, to_restart, Control, outside,
  starting, stopping, joining, Monitor, phase_step, thread_step, returns, stop_step, join_step,
  spawn_step, Step, thread_steps, calls_stop, calls_start, stops, joins, spawns, throws, fails,
  throw_step, fail_step, Reachable, begins, continues,
}

-- A thread that has not ended while it is monitored, or none that could be started, and none when it
-- is not.
abbrev pub Runs : Bool → Option Phase → Type 0
Runs true (some phase) = (phase ≡ ended) → ⊥
Runs true none = Unit {0}
Runs false none = Unit {0}
Runs false (some phase) = ⊥

-- What holds of the flag and the thread, by where the controlling thread is.
abbrev pub Fits : Control → Bool → Option Phase → Type 0
Fits outside monitoring thread = Runs monitoring thread
Fits (stopping purpose) monitoring thread = Runs monitoring thread
Fits (joining purpose) monitoring thread = (monitoring ≡ false) × (is_some thread ≡ true)
Fits starting monitoring thread = (monitoring ≡ false) × (thread ≡ none)

Runs-phase_step :
    (monitoring : Bool) (phase : Phase)
    → Runs monitoring (some phase)
    → Runs monitoring (some (phase_step monitoring phase))
unfolding phase_step
Runs-phase_step false phase h = absurd h
Runs-phase_step true testing h = λ e. cc e
Runs-phase_step true reporting h = λ e. cc e
Runs-phase_step true sleeping h = λ e. cc e
Runs-phase_step true ended h = h

Fits-phase_step :
    (control : Control) (monitoring : Bool) (phase : Phase)
    → Fits control monitoring (some phase)
    → Fits control monitoring (some (phase_step monitoring phase))
Fits-phase_step outside monitoring phase h = Runs-phase_step monitoring phase h
Fits-phase_step (stopping purpose) monitoring phase h = Runs-phase_step monitoring phase h
Fits-phase_step (joining purpose) monitoring phase h = (h.0, refl)
Fits-phase_step starting monitoring phase h = absurd (cc (h.1))

Fits-returns : (purpose : Purpose) → Fits (returns purpose) false none
Fits-returns to_rest = tt
Fits-returns to_restart = (refl, refl)

-- The controlling thread and the reporting thread fit, and the program was not ended.
pub record IsSound (m : Monitor) : Type 0 where
  pub fits : Fits m.control m.monitoring m.thread
  pub alive : m.terminated ≡ false

stop-Fits :
    (monitoring : Bool) (thread : Option Phase) (purpose : Purpose) (m : Monitor)
    → m.monitoring ≡ monitoring
    → m.thread ≡ thread
    → Runs monitoring thread
    → Fits
        (stop_step m purpose).control
        (stop_step m purpose).monitoring
        (stop_step m purpose).thread
unfolding stop_step
stop-Fits true (some phase) purpose m e e' h = rw (e, e') (refl, refl)
stop-Fits false none purpose m e e' h = rw (e, e') (Fits-returns purpose)
stop-Fits true none purpose m e e' h = rw (e, e') (Fits-returns purpose)
stop-Fits false (some phase) purpose m e e' h = absurd h

stop-terminated :
    (m : Monitor) (purpose : Purpose) → (stop_step m purpose).terminated ≡ m.terminated
unfolding stop_step
stop-terminated m purpose = elim (Bool-cases m.monitoring) [ inl e ↦ rw e refl | inr e ↦ rw e refl ]

pub Step-IsSound : (m m' : Monitor) → Step m m' → IsSound m → IsSound m'
unfolding thread_step join_step spawn_step throw_step fail_step
Step-IsSound _ _ (thread_steps m phase ne) h = record {
  fits = Fits-phase_step m.control m.monitoring phase h.fits;
  alive = h.alive;
}
Step-IsSound _ _ (throws m) h = record { fits = h.fits; alive = h.alive }
Step-IsSound _ _ (calls_stop m) h = record { fits = h.fits; alive = h.alive }
Step-IsSound _ _ (calls_start m) h = record { fits = h.fits; alive = h.alive }
Step-IsSound _ _ (stops m purpose) h = record {
  fits = stop-Fits m.monitoring m.thread purpose m refl refl h.fits;
  alive = stop-terminated m purpose ∙ h.alive;
}
Step-IsSound _ _ (joins m purpose) h = record {
  fits = rw h.fits.0 (Fits-returns purpose);
  alive = h.alive;
}
Step-IsSound _ _ (fails m) h = record { fits = rw h.fits.1 tt; alive = h.alive }
Step-IsSound _ _ (spawns m) h = record { fits = (λ e. cc e); alive = rw (h.alive, h.fits.1) refl }

pub Reachable-IsSound : (m : Monitor) → Reachable m → IsSound m
Reachable-IsSound _ begins = record { fits = tt; alive = refl }
Reachable-IsSound _ (continues m m' r on s) = Step-IsSound m m' s (Reachable-IsSound m r)

-- Where the thread is, by where the controlling thread is.
thread-accounted :
    (control : Control) (monitoring : Bool) (thread : Option Phase)
    → Fits control monitoring thread
    → (thread ≡ none) ⊎ (monitoring ≡ true) ⊎ ((purpose : Purpose) × (control ≡ joining purpose))
thread-accounted control monitoring none h = inl refl
thread-accounted control true (some phase) h = inr (inl refl)
thread-accounted outside false (some phase) h = absurd h
thread-accounted (stopping purpose) false (some phase) h = absurd h
thread-accounted (joining purpose) false (some phase) h = inr (inr (purpose, refl))
thread-accounted starting false (some phase) h = absurd (cc (h.1))

-- Whatever calls one thread makes to start and stop the monitoring, the callback making none, and
-- however the two threads interleave, a start failing or the reporting thread throwing at any time:
-- no thread is assigned over one that is joinable, which would end the program, and there is a
-- reporting thread only while the monitoring is on or stop_monitoring waits for its end.
pub monitor_is_safe :
    (m : Monitor)
    → Reachable m
    → (m.terminated ≡ false)
      × ((m.thread ≡ none)
          ⊎ (m.monitoring ≡ true)
          ⊎ ((purpose : Purpose) × (m.control ≡ joining purpose)))
monitor_is_safe m r =
    let h = Reachable-IsSound m r in
    (h.alive, thread-accounted m.control m.monitoring m.thread h.fits)
