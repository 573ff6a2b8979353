-- ===== src/Library/Backend.antt =====
-- The interface between lib/core.c and its callers: the operations of a backend, and what they
-- promise of a view of handles and of logs of transfers.
use pcie_sim.Base.{ℕ, ℤ, pos, ◌<◌, ◌≡◌, ◌≢◌, ◌⊎◌, Bool, true, ◌∷◌, [], Option, none, some}
use pcie_sim.Api.{Error, Stats, success}
use pcie_sim.Sim.Linux.History.{stats_of}
use pcie_sim.Sim.Linux.Calls.{View, name_at, log_at}

-- The functions of lib/api.h, on a state that also holds what the environment answers. A handle may
-- be NULL, and whether another pointer is given is a Boolean. `none` is undefined behaviour; the
-- last result is what is stored at the caller's pointer, if anything is.
pub record Backend : Type 1 where
  pub State : Type 0
  pub opens : State → ℤ → Bool → Option (State × Error × Option ℕ)
  pub closes : State → Option ℕ → Option (State × Error)
  pub transfers : State → Option ℕ → Bool → ℕ → ℕ → Bool → Option (State × Error × Option ℕ)
  pub gets_stats : State → Option ℕ → Bool → Option (State × Error × Option Stats)
  pub resets_stats : State → Option ℕ → Option (State × Error)

-- The numbers that devices have.
pub data IsDevice : ℤ → Type 0 where
  is_device : (n : ℕ) → n < 8 → IsDevice (pos n)

-- What opening a device may do: it is refused, since there is no such device or, with `Full`, no
-- memory, or it gives a handle that was not open.
pub data Opened (Full : Type 0) (view : View) : ℤ → Error → Option ℕ → View → Type 0 where
  no_device : (id : ℤ) (e : Error) → e ≢ success → ¬ IsDevice id → Opened Full view id e none view
  no_memory : (id : ℤ) (e : Error) → e ≢ success → Full → Opened Full view id e none view
  fresh :
      (n p : ℕ)
      → n < 8
      → view.handles p ≡ none
      → Opened Full view
          (pos n)
          success
          (some p)
          (record view { handles = name_at p (some n) view.handles })

-- The promises of a backend, of the views that its states stand for.
pub record Laws (b : Backend) : Type 1 where
  pub Abs : b.State → View → Type 0
  pub Full : b.State → Type 0
  pub opens_lem :
      (s : b.State) (view : View) (id : ℤ)
      → Abs s view
      → (s' : b.State) × (e : Error) × (h : Option ℕ) × (view' : View) × (b.opens s id true
          ≡ some (s', e, h))
        × Opened (Full s) view id e h view'
        × Abs s' view'
  pub closes_lem :
      (s : b.State) (view : View) (p d : ℕ)
      → Abs s view
      → view.handles p ≡ some d
      → (s' : b.State) × (b.closes s (some p) ≡ some (s', success))
        × Abs s' (record view { handles = name_at p none view.handles })
  pub transfers_lem :
      (s : b.State) (view : View) (p d size direction : ℕ)
      → Abs s view
      → view.handles p ≡ some d
      → size ≢ 0
      → (s' : b.State) × (latency : ℕ) × (b.transfers s (some p) true size direction true
          ≡ some (s', success, some latency))
        × Abs s' (record view {
          logs = log_at d (record { size = size; latency = latency } ∷ view.logs d) view.logs;
        })
  pub gets_stats_lem :
      (s : b.State) (view : View) (p d : ℕ)
      → Abs s view
      → view.handles p ≡ some d
      → (s' : b.State) × (b.gets_stats s (some p) true
          ≡ some (s', success, some (stats_of (view.logs d))))
        × Abs s' view
  pub resets_stats_lem :
      (s : b.State) (view : View) (p d : ℕ)
      → Abs s view
      → view.handles p ≡ some d
      → (s' : b.State) × (b.resets_stats s (some p) ≡ some (s', success))
        × Abs s' (record view { logs = log_at d [] view.logs })
  pub no_transfers_lem :
      (s : b.State) (view : View) (h : Option ℕ) (size direction : ℕ)
      → Abs s view
      → (h ≡ none) ⊎ (size ≡ 0)
      → (s' : b.State) × (e : Error) × (b.transfers s h true size direction true
          ≡ some (s', e, none))
        × (e ≢ success)
        × Abs s' view
  pub no_gets_stats_lem :
      (s : b.State) (view : View)
      → Abs s view
      → (s' : b.State) × (e : Error) × (b.gets_stats s none true ≡ some (s', e, none))
        × (e ≢ success)
        × Abs s' view
  pub no_resets_stats_lem :
      (s : b.State) (view : View)
      → Abs s view
      → (s' : b.State) × (e : Error) × (b.resets_stats s none ≡ some (s', e))
        × (e ≢ success)
        × Abs s' view
