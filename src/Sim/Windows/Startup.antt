-- ===== src/Sim/Windows/Startup.antt =====
-- windows_sim_init and windows_sim_cleanup of sim/windows_sim.c, and pcie_sim_open_impl with the
-- initialization that it begins with. A function of the mutex handles says how often each is open;
-- closing one that is not is a fault, as is deleting a critical section that is not there. What
-- CreateMutex and QueryPerformanceFrequency answer, by the device's number, are arguments.
use pcie_sim.Base.{
  ℕ, ◌+◌, ◌-◌, ℤ, Bool, true, false, not, ◌||◌, List, [], ◌∷◌, ◌++◌, map, Option, none, some, ◌>>=◌,
  ◌==◌, if◌then◌else◌,
}
use pcie_sim.Api.{Error, error_param, error_system}
use pcie_sim.Sim.Windows.{DeviceState, Handle, fresh_stats, bad_id, open_impl}

-- `struct windows_device_state` with its mutex, `none` for NULL.
pub record Slot : Type 0 where
  pub state : DeviceState
  pub mutex : Option ℕ

-- The globals of the file, the critical section, the mutexes that are open, and the heap.
pub record Globals : Type 0 where
  pub slots : List Slot
  pub initialized : Bool
  pub lock : Bool
  pub open_mutexes : ℕ → ℕ
  pub heap : ℕ → Option Handle

-- A successful CreateMutex() and CloseHandle().
abbrev pub create_mutex : (ℕ → ℕ) → ℕ → ℕ → ℕ
create_mutex mutexes m q = if q == m then mutexes q + 1 else mutexes q

abbrev pub close_mutex : (ℕ → ℕ) → ℕ → Option (ℕ → ℕ)
close_mutex mutexes m =
    if mutexes m == 0 then none else some (λ q. if q == m then mutexes q - 1 else mutexes q)

abbrev pub close_slot : (ℕ → ℕ) → Option ℕ → Option (ℕ → ℕ)
close_slot mutexes none = some mutexes
close_slot mutexes (some m) = close_mutex mutexes m

-- The mutexes of devices are closed.
unfoldable pub close_slots : (ℕ → ℕ) → List Slot → Option (ℕ → ℕ)
close_slots mutexes [] = some mutexes
close_slots mutexes (slot ∷ slots) =
    close_slot mutexes slot.mutex >>= (λ mutexes'. close_slots mutexes' slots)

abbrev pub unmutexed : Slot → Slot
unmutexed slot = record { state = record slot.state { active = false }; mutex = none }

module _ (create frequency : ℕ → Option ℕ) where
  -- What the loop leaves of a device with a mutex.
  abbrev pub initialized_slot : ℕ → ℕ → Slot
  initialized_slot i m = record {
    state = (record {
      active = false;
      stats = fresh_stats;
      frequency = elim (frequency i) [ none ↦ 1000000 | some f ↦ f ];
    });
    mutex = some m;
  }

  -- The loop of windows_sim_init, from device `i` on: whether every mutex was created, the devices
  -- and the open mutexes.
  unfoldable pub init_slots :
      ℕ → List Slot → List Slot → (ℕ → ℕ) → Option (Bool × List Slot × (ℕ → ℕ))
  init_slots i done [] mutexes = some (true, done, mutexes)
  init_slots i done (slot ∷ rest) mutexes = elim (create i) [
    | none ↦
        close_slots mutexes done
        >>= (λ mutexes'. some (false, done ++ (unmutexed slot ∷ rest), mutexes'))
    | some m ↦
        init_slots (i + 1) (done ++ (initialized_slot i m ∷ [])) rest (create_mutex mutexes m)
  ]

  -- windows_sim_init: whether it returned 0.
  unfoldable pub windows_sim_init : Globals → Option (Globals × Bool)
  windows_sim_init g =
      if g.initialized
      then some (g, true)
      else init_slots 0 [] g.slots g.open_mutexes >>= (λ (ok, slots, mutexes).
        some (record g { slots = slots; initialized = ok; lock = ok; open_mutexes = mutexes }, ok))

  -- A call of open_impl on the devices without their mutexes.
  abbrev pub states_of : List Slot → List DeviceState
  states_of slots = map (λ slot. slot.state) slots

  abbrev pub with_states : List Slot → List DeviceState → List Slot
  with_states [] states = []
  with_states (slot ∷ slots) [] = slot ∷ slots
  with_states (slot ∷ slots) (state ∷ states) =
      record slot { state = state } ∷ with_states slots states

  -- pcie_sim_open_impl from any state.
  unfoldable pub open_initializing :
      Globals → ℤ → Bool → Option ℕ → Option (Globals × Error × Option ℕ)
  open_initializing g id handle_given malloced =
      if not handle_given || bad_id id
      then some (g, error_param, none)
      else windows_sim_init g >>= (λ (g', ok).
        if not ok
        then some (g', error_system, none)
        else open_impl (record { devices = states_of g'.slots; heap = g'.heap }) id handle_given
            malloced
          >>= (λ (sim, e, h).
              some (record g' { slots = with_states g'.slots sim.devices; heap = sim.heap }, e, h)))

-- windows_sim_cleanup
unfoldable pub windows_sim_cleanup : Globals → Option Globals
windows_sim_cleanup g =
    if not g.initialized
    then some g
    else (if not g.lock
        then none
        else close_slots g.open_mutexes g.slots >>= (λ mutexes. some (record g {
          slots = map unmutexed g.slots;
          initialized = false;
          lock = false;
          open_mutexes = mutexes;
        })))
