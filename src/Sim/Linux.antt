-- ===== src/Sim/Linux.antt =====
-- sim/linux_sim.c: the Linux backend. A pointer that may be NULL is an option; the heap tells at
-- which addresses a handle lives, and code that follows or frees another address faults, as does
-- an access past the array of devices. What malloc and the clock answer are arguments.
pub mod Delay
pub mod Calls
pub mod Represents
pub mod Leads
pub mod Refine
pub mod History
use pcie_sim.Base.{
  ℕ, ◌+◌, ◌-◌, ◌*◌, ◌/◌, ◌%◌, ◌^◌, ℤ, pos, negsuc, Bool, true, false, not, ◌||◌, List, [], ◌∷◌, map,
  Option, none, some, ◌>>=◌, if◌then◌else◌, ltb, leb, ◌==◌, u64, get_elem?, set, sub64,
}
use pcie_sim.Api.{Error, Stats, zero_stats, success, error_param, error_memory, from_device}

abbrev pub max_devices : ℕ
max_devices = 8

-- `struct timespec`
pub record Timespec : Type 0 where
  pub tv_sec : ℕ
  pub tv_nsec : ℕ

-- `struct linux_device_state`, without its mutex.
pub record DeviceState : Type 0 where
  pub active : Bool
  pub stats : Stats
  pub start_time : Timespec
  pub device_name : List ℕ

-- `struct pcie_sim_handle`
pub record Handle : Type 0 where
  pub fd : ℤ
  pub device_id : ℤ
  pub is_simulation : Bool

-- The globals of the file, and the handles that live on the heap.
pub record Sim : Type 0 where
  pub devices : List DeviceState
  pub initialized : Bool
  pub heap : ℕ → Option Handle

abbrev pub at : ℕ → Option Handle → (ℕ → Option Handle) → ℕ → Option Handle
at p cell heap q = if q == p then cell else heap q

abbrev pub deactivate : DeviceState → DeviceState
deactivate dev = record dev { active = false }

-- linux_sim_init
unfoldable pub sim_init : Sim → Sim
sim_init sim =
    if not sim.initialized
    then record sim { devices = map deactivate sim.devices; initialized = true }
    else sim

-- linux_sim_get_time_ns, of what the clock answers.
unfoldable pub get_time_ns : Timespec → ℕ
get_time_ns ts = u64 (u64 (ts.tv_sec * 1000000000) + ts.tv_nsec)

-- linux_sim_delay: for how long it calls nanosleep, if it does.
unfoldable pub delay : ℕ → Option Timespec
delay delay_ns =
    if ltb delay_ns 1000
    then none
    else some (record { tv_sec = delay_ns / 1000000000; tv_nsec = delay_ns % 1000000000 })

-- `g_sim_devices[device_id]`
abbrev pub device_at : Sim → ℤ → Option DeviceState
device_at sim (pos n) = get_elem? sim.devices n
device_at sim (negsuc n) = none

abbrev pub index_of : ℤ → ℕ
index_of (pos n) = n
index_of (negsuc n) = 0

abbrev pub put_device : Sim → ℤ → DeviceState → Sim
put_device sim id dev = record sim { devices = set sim.devices (index_of id) dev }

-- `device_id >= MAX_DEVICES`, and `device_id < 0`.
abbrev pub too_large : ℤ → Bool
too_large (pos n) = leb max_devices n
too_large (negsuc n) = false

abbrev pub negative : ℤ → Bool
negative (pos n) = false
negative (negsuc n) = true

-- What snprintf writes for a device number is a parameter.
module _ (print_name : ℤ → List ℕ) where
  -- The section of pcie_sim_open_linux under the device's mutex, `now` what the clock answers.
  abbrev pub activate : ℤ → Timespec → DeviceState → DeviceState
  activate id now dev =
      if not dev.active
      then record {
        active = true;
        stats = zero_stats;
        start_time = now;
        device_name = print_name id;
      }
      else dev

  -- pcie_sim_open_linux, `malloced` what malloc answers; the last result is what is stored at
  -- the caller's `handle`, if anything is.
  unfoldable pub open_linux : Sim → ℤ → Bool → Option ℕ → Timespec → Option (Sim × Error × Option ℕ)
  open_linux sim id handle_given malloced now =
      if not handle_given || negative id || too_large id
      then some (sim, error_param, none)
      else open_at (sim_init sim) malloced
    where
      open_at : Sim → Option ℕ → Option (Sim × Error × Option ℕ)
      open_at sim none = some (sim, error_memory, none)
      open_at sim (some p) = device_at sim id >>= (λ dev. some (
        record (put_device sim id (activate id now dev)) {
          heap =
              at p (some (record { fd = negsuc 0; device_id = id; is_simulation = true })) sim.heap;
        },
        success,
        some p,
      ))

-- pcie_sim_close_linux
unfoldable pub close_linux : Sim → Option ℕ → Option (Sim × Error)
close_linux sim none = some (sim, error_param)
close_linux sim (some p) =
    sim.heap p >>= (λ h. some (record sim { heap = at p none sim.heap }, success))

-- The latency that pcie_sim_transfer_linux simulates.
unfoldable pub transfer_latency : ℕ → ℕ → ℕ
transfer_latency size direction =
    let rounded = u64 (size + 1024 * 1024 - 1) / (1024 * 1024) in
    let size_mb = if rounded == 0 then 1 else rounded in
    let latency = u64 (10000 * size_mb) in
    if direction == from_device then u64 (latency * 12) / 10 else latency

-- The section of pcie_sim_transfer_linux under the device's mutex.
unfoldable pub record_transfer : Stats → ℕ → ℕ → Stats
record_transfer s size latency =
    let transfers = u64 (s.total_transfers + 1) in
    let counted = record s {
      total_transfers = transfers;
      total_bytes = u64 (s.total_bytes + size);
    } in
    if transfers == 1
    then record counted {
      avg_latency_ns = latency;
      min_latency_ns = latency;
      max_latency_ns = latency;
    }
    else record counted {
      avg_latency_ns = u64 (s.avg_latency_ns + latency) / 2;
      min_latency_ns = (if ltb latency s.min_latency_ns then latency else s.min_latency_ns);
      max_latency_ns = (if ltb s.max_latency_ns latency then latency else s.max_latency_ns);
    }

-- What the clock answers before and after the delay.
pub record Clock : Type 0 where
  pub before : Timespec
  pub after : Timespec

-- `end_time - start_time`
abbrev pub elapsed : Clock → ℕ
elapsed clock = sub64 (get_time_ns clock.after) (get_time_ns clock.before)

-- pcie_sim_transfer_linux; the results are the code, what is asked of nanosleep and the latency
-- that is stored at `latency_ns`, if anything is.
unfoldable pub transfer_linux :
    Sim → Option ℕ → Bool → ℕ → ℕ → Bool → Clock → Option (Sim × Error × Option Timespec × Option ℕ)
transfer_linux sim none buffer_given size direction latency_given clock =
    some (sim, error_param, none, none)
transfer_linux sim (some p) buffer_given size direction latency_given clock =
    if not buffer_given || size == 0
    then some (sim, error_param, none, none)
    else sim.heap p >>= (λ h.
      if too_large h.device_id
      then some (sim, error_param, none, none)
      else device_at sim h.device_id >>= (λ dev. some (
        put_device sim h.device_id
            (record dev { stats = record_transfer dev.stats size (elapsed clock) }),
        success,
        delay (transfer_latency size direction),
        (if latency_given then some (elapsed clock) else none),
      )))

-- pcie_sim_get_stats_linux; the last result is what is stored at `stats`, if anything is.
unfoldable pub get_stats_linux : Sim → Option ℕ → Bool → Option (Error × Option Stats)
get_stats_linux sim none stats_given = some (error_param, none)
get_stats_linux sim (some p) stats_given =
    if not stats_given
    then some (error_param, none)
    else sim.heap p >>= (λ h.
      if too_large h.device_id
      then some (error_param, none)
      else device_at sim h.device_id >>= (λ dev. some (success, some dev.stats)))

-- pcie_sim_reset_stats_linux
unfoldable pub reset_stats_linux : Sim → Option ℕ → Option (Sim × Error)
reset_stats_linux sim none = some (sim, error_param)
reset_stats_linux sim (some p) = sim.heap p >>= (λ h.
    if too_large h.device_id
    then some (sim, error_param)
    else device_at sim h.device_id
      >>= (λ dev. some (put_device sim h.device_id (record dev { stats = zero_stats }), success)))
