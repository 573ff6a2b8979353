-- ===== src/Sim/Windows.antt =====
-- sim/windows_sim.c: the Windows backend, once its devices are initialized. A pointer that may be
-- NULL is an option; the heap tells at which addresses a handle lives, and code that follows or
-- frees another address faults, as does a division by zero. What malloc, the counters and the
-- waiting for a mutex answer are arguments.
pub mod Average
pub mod Exclusive
pub mod Startup
pub mod Mutexes
pub mod Wait
use pcie_sim.Base.{
  ℕ, ◌+◌, ◌-◌, ◌*◌, ◌/◌, ◌%◌, ◌^◌, ℤ, pos, negsuc, Bool, true, false, not, ◌||◌, List, Option, none,
  some, ◌>>=◌, if◌then◌else◌, ltb, leb, ◌==◌, u64, sub64, max64, get_elem?, set, replicate,
}
use pcie_sim.Api.{
  Error, Stats, zero_stats, success, error_param, error_memory, error_device, error_timeout,
  to_device,
}

abbrev pub max_devices : ℕ
max_devices = 8

-- `struct windows_device_state`, without its mutex and its name.
pub record DeviceState : Type 0 where
  pub active : Bool
  pub stats : Stats
  pub frequency : ℕ

-- `struct pcie_sim_handle`, without the flag that this backend does not set.
pub record Handle : Type 0 where
  pub fd : ℤ
  pub device_id : ℤ

-- The devices, and the handles that live on the heap.
pub record Sim : Type 0 where
  pub devices : List DeviceState
  pub heap : ℕ → Option Handle

-- What the counters answer: QueryPerformanceCounter if it succeeds, and GetTickCount64.
pub record Counters : Type 0 where
  pub performance : Option ℕ
  pub ticks : ℕ

-- get_timestamp_ns
unfoldable pub get_timestamp_ns : ℕ → Counters → Option ℕ
get_timestamp_ns frequency c = elim c.performance [
  | none ↦ some (u64 (c.ticks * 1000000))
  | some counter ↦ if frequency == 0 then none else some (u64 (counter * 1000000000) / frequency)
]

-- The statistics after initialization and after a reset.
abbrev pub fresh_stats : Stats
fresh_stats = record zero_stats { min_latency_ns = max64 }

-- The update of the statistics in pcie_sim_transfer_impl.
unfoldable pub record_transfer : Stats → ℕ → ℕ → Option Stats
record_transfer s size latency =
    let transfers = u64 (s.total_transfers + 1) in
    let counted = record s {
      total_transfers = transfers;
      total_bytes = u64 (s.total_bytes + size);
      min_latency_ns = (if ltb latency s.min_latency_ns then latency else s.min_latency_ns);
      max_latency_ns = (if ltb s.max_latency_ns latency then latency else s.max_latency_ns);
    } in
    if transfers == 1
    then some (record counted { avg_latency_ns = latency })
    else (if transfers == 0
        then none
        else some (record counted {
          avg_latency_ns = u64 (u64 (s.avg_latency_ns * sub64 transfers 1) + latency) / transfers;
        }))

abbrev pub at : ℕ → Option Handle → (ℕ → Option Handle) → ℕ → Option Handle
at p cell heap q = if q == p then cell else heap q

-- `device_id < 0 || device_id >= MAX_DEVICES`
abbrev pub bad_id : ℤ → Bool
bad_id (pos n) = leb max_devices n
bad_id (negsuc n) = true

abbrev pub index_of : ℤ → ℕ
index_of (pos n) = n
index_of (negsuc n) = 0

-- `g_devices[device_id]`, and a change of it.
abbrev pub device_at : Sim → ℤ → Option DeviceState
device_at sim (pos n) = get_elem? sim.devices n
device_at sim (negsuc n) = none

abbrev pub put_device : Sim → ℤ → DeviceState → Sim
put_device sim id dev = record sim { devices = set sim.devices (index_of id) dev }

-- pcie_sim_open_impl, `malloced` what malloc answers.
unfoldable pub open_impl : Sim → ℤ → Bool → Option ℕ → Option (Sim × Error × Option ℕ)
open_impl sim id handle_given malloced =
    if not handle_given || bad_id id
    then some (sim, error_param, none)
    else device_at sim id >>= (λ dev.
      if dev.active then some (sim, error_device, none) else elim malloced [
        | none ↦ some (put_device sim id (record dev { active = false }), error_memory, none)
        | some p ↦ some (
          record (put_device sim id (record dev { active = true })) {
            heap = at p (some (record { fd = id; device_id = id })) sim.heap;
          },
          success,
          some p,
        )
      ])

-- pcie_sim_close_impl
unfoldable pub close_impl : Sim → Option ℕ → Option (Sim × Error)
close_impl sim none = some (sim, error_param)
close_impl sim (some p) = sim.heap p >>= (λ h.
    if bad_id h.device_id
    then some (sim, error_param)
    else device_at sim h.device_id >>= (λ dev. some (
      record (put_device sim h.device_id (record dev { active = false })) {
        heap = at p none sim.heap;
      },
      success,
    )))

-- simulate_transfer_delay: the milliseconds of Sleep(), if it is called, and the microseconds of
-- the busy wait; the last two arguments are what rand() returns.
unfoldable pub simulate_transfer_delay : ℕ → ℕ → ℕ → Option ℕ × ℕ
simulate_transfer_delay size first second =
    let total = (1 + first % 10) + size / (1000 + second % 7000) in
    if leb 1000 total then (some (total / 1000), total % 1000) else (none, total)

-- `handle->device_id` is checked, the device must be active, and its mutex must be got in time;
-- else an error is returned.
abbrev pub lock :
    {A : Type 0} → Sim → Handle → Bool → (Error → A) → (DeviceState → Option A) → Option A
lock sim h acquired refuse section =
    if bad_id h.device_id
    then some (refuse error_param)
    else device_at sim h.device_id >>= (λ dev.
      if not dev.active
      then some (refuse error_device)
      else (if not acquired then some (refuse error_timeout) else section dev))

-- pcie_sim_reset_stats_impl; `acquired` says whether the mutex was got in time.
unfoldable pub reset_stats_impl : Sim → Option ℕ → Bool → Option (Sim × Error)
reset_stats_impl sim none acquired = some (sim, error_param)
reset_stats_impl sim (some p) acquired = sim.heap p >>= (λ h.
    lock sim h acquired (λ e. (sim, e))
      (λ dev. some (put_device sim h.device_id (record dev { stats = fresh_stats }), success)))

-- pcie_sim_get_stats_impl; the last result is what is stored at `stats`, if anything is.
unfoldable pub get_stats_impl : Sim → Option ℕ → Bool → Bool → Option (Error × Option Stats)
get_stats_impl sim none stats_given acquired = some (error_param, none)
get_stats_impl sim (some p) stats_given acquired =
    if not stats_given
    then some (error_param, none)
    else sim.heap p
      >>= (λ h. lock sim h acquired (λ e. (e, none)) (λ dev. some (success, some dev.stats)))

-- What a transfer leaves besides the code: the bytes that it wrote to the caller's buffer, and
-- what is stored at `latency_ns`.
pub record Written : Type 0 where
  pub bytes : Option (List ℕ)
  pub latency_ns : Option ℕ

abbrev pub nothing_written : Written
nothing_written = record { bytes = none; latency_ns = none }

-- pcie_sim_transfer_impl; the counters are read before and after the transfer.
unfoldable pub transfer_impl :
    Sim
    → Option ℕ
    → Bool
    → ℕ
    → ℕ
    → Bool
    → Bool
    → Counters
    → Counters
    → Option (Sim × Error × Written)
transfer_impl sim none buffer_given size direction latency_given acquired before after =
    some (sim, error_param, nothing_written)
transfer_impl sim (some p) buffer_given size direction latency_given acquired before after =
    if not buffer_given || size == 0 || ltb (1024 * 1024) size
    then some (sim, error_param, nothing_written)
    else sim.heap p >>= (λ h.
      lock sim h acquired (λ e. (sim, e, nothing_written))
        (λ dev. get_timestamp_ns dev.frequency before >>= (λ start_time.
          get_timestamp_ns dev.frequency after >>= (λ end_time.
            record_transfer dev.stats size (sub64 end_time start_time) >>= (λ stats. some (
              put_device sim h.device_id (record dev { stats = stats }),
              success,
              record {
                bytes = (if direction == to_device then none else some (replicate size 0xAA));
                latency_ns = (if latency_given then some (sub64 end_time start_time) else none);
              },
            ))))))
