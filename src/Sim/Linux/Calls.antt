-- ===== src/Sim/Linux/Calls.antt =====
-- What a client of sim/linux_sim.c sees: handles that name devices, and a log of transfers for each
-- device. The calls of the backend as one step function, and the same calls on that view.
use pcie_sim.Base.{
  ℕ, ℤ, Bool, false, not, ◌||◌, List, [], ◌∷◌, Option, none, some, ◌>>=◌, if◌then◌else◌, ◌==◌,
  replicate,
}
use pcie_sim.Api.{Error, Stats, success, error_param, error_memory, zero_stats}
use pcie_sim.Sim.Linux.{
  Timespec, Clock, DeviceState, Sim, negative, too_large, index_of, elapsed, transfer_latency,
  delay, open_linux, close_linux, transfer_linux, get_stats_linux, reset_stats_linux,
}
use pcie_sim.Sim.Linux.History.{Transfer, stats_of}

-- A call with its arguments and what malloc and the clock answer; a handle may be NULL, and
-- whether another pointer is given is a Boolean.
pub data Call : Type 0 where
  opens : ℤ → Bool → Option ℕ → Timespec → Call
  closes : Option ℕ → Call
  transfers : Option ℕ → Bool → ℕ → ℕ → Bool → Clock → Call
  gets_stats : Option ℕ → Bool → Call
  resets_stats : Option ℕ → Call

-- What the caller gets: the code, and what is stored at its pointers.
pub data Reply : Type 0 where
  opened : Error → Option ℕ → Reply
  done : Error → Reply
  transferred : Error → Option Timespec → Option ℕ → Reply
  stats : Error → Option Stats → Reply

module _ (print_name : ℤ → List ℕ) where
  -- A call of the backend, which may fault.
  unfoldable pub step : Sim → Call → Option (Sim × Reply)
  step sim (opens id given malloced now) =
      open_linux print_name sim id given malloced now >>= (λ (sim', e, h). some (sim', opened e h))
  step sim (closes handle) = close_linux sim handle >>= (λ (sim', e). some (sim', done e))
  step sim (transfers handle buffer_given size direction latency_given clock) =
      transfer_linux sim handle buffer_given size direction latency_given clock
      >>= (λ (sim', e, asked, latency). some (sim', transferred e asked latency))
  step sim (gets_stats handle given) =
      get_stats_linux sim handle given >>= (λ (e, s). some (sim, stats e s))
  step sim (resets_stats handle) =
      reset_stats_linux sim handle >>= (λ (sim', e). some (sim', done e))

  -- The replies of calls in a row, if none faults.
  unfoldable pub backend_run : Sim → List Call → Option (List Reply)
  backend_run sim [] = some []
  backend_run sim (call ∷ calls) =
      step sim call
      >>= (λ (sim', reply). backend_run sim' calls >>= (λ replies. some (reply ∷ replies)))

-- The view: which device a handle names, and each device's transfers since the last reset.
pub record View : Type 0 where
  pub handles : ℕ → Option ℕ
  pub logs : ℕ → List Transfer

abbrev pub name_at : ℕ → Option ℕ → (ℕ → Option ℕ) → ℕ → Option ℕ
name_at p d handles q = if q == p then d else handles q

abbrev pub log_at : ℕ → List Transfer → (ℕ → List Transfer) → ℕ → List Transfer
log_at d ts logs e = if e == d then ts else logs e

-- The same call on the view: it faults only on a handle that is not open.
unfoldable pub view_step : View → Call → Option (View × Reply)
view_step view (opens id given malloced now) =
    if not given || negative id || too_large id
    then some (view, opened error_param none)
    else opens_at malloced
  where
    opens_at : Option ℕ → Option (View × Reply)
    opens_at none = some (view, opened error_memory none)
    opens_at (some p) = some (
      record view { handles = name_at p (some (index_of id)) view.handles },
      opened success (some p),
    )
view_step view (closes none) = some (view, done error_param)
view_step view (closes (some p)) =
    view.handles p
    >>= (λ d. some (record view { handles = name_at p none view.handles }, done success))
view_step view (transfers none buffer_given size direction latency_given clock) =
    some (view, transferred error_param none none)
view_step view (transfers (some p) buffer_given size direction latency_given clock) =
    if not buffer_given || size == 0
    then some (view, transferred error_param none none)
    else view.handles p >>= (λ d. some (
      record view {
        logs = log_at d (record { size = size; latency = elapsed clock } ∷ view.logs d) view.logs;
      },
      transferred success (delay (transfer_latency size direction))
          (if latency_given then some (elapsed clock) else none),
    ))
view_step view (gets_stats none given) = some (view, stats error_param none)
view_step view (gets_stats (some p) given) =
    if not given
    then some (view, stats error_param none)
    else view.handles p >>= (λ d. some (view, stats success (some (stats_of (view.logs d)))))
view_step view (resets_stats none) = some (view, done error_param)
view_step view (resets_stats (some p)) =
    view.handles p >>= (λ d. some (record view { logs = log_at d [] view.logs }, done success))

unfoldable pub view_run : View → List Call → Option (List Reply)
view_run view [] = some []
view_run view (call ∷ calls) =
    view_step view call
    >>= (λ (view', reply). view_run view' calls >>= (λ replies. some (reply ∷ replies)))

abbrev pub unused : DeviceState
unused = record {
  active = false;
  stats = zero_stats;
  start_time = (record { tv_sec = 0; tv_nsec = 0 });
  device_name = replicate 64 0;
}

-- When the program starts: the globals are zero, and there is no handle.
abbrev pub start : Sim
start = record { devices = replicate 8 unused; initialized = false; heap = (λ p. none) }

abbrev pub nothing_open : View
nothing_open = record { handles = (λ p. none); logs = (λ n. []) }
