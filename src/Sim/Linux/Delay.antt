-- ===== src/Sim/Linux/Delay.antt =====
-- The simulated latency of sim/linux_sim.c, and the sleep that it asks for.
use pcie_sim.Base.{ℕ, ◌+◌, ◌*◌, ◌/◌, ◌%◌, ◌^◌, ◌≤◌, ◌<◌, ◌≡◌, some, arith, ◌==◌, if◌then◌else◌}
use pcie_sim.Api.{from_device}
use pcie_sim.Sim.Linux.{Timespec, Clock, elapsed, transfer_latency, delay, get_time_ns}

-- The nanoseconds of a time.
abbrev pub nanoseconds : Timespec → ℕ
nanoseconds ts = ts.tv_sec * 1000000000 + ts.tv_nsec

-- The latency of `m` megabytes.
abbrev pub per_megabyte : ℕ → ℕ → ℕ
per_megabyte direction m = if direction == from_device then 12000 * m else 10000 * m

-- A transfer of 1 byte to 2 ^ 50 bytes takes 10 microseconds, or 12 from the device, for each
-- megabyte that is begun.
pub transfer_latency_lem :
    (size direction : ℕ)
    → 0 < size
    → size ≤ 2 ^ 50
    → (m : ℕ) × (size ≤ m * 1048576)
      × (m * 1048576 < size + 1048576)
      × (transfer_latency size direction ≡ per_megabyte direction m)
unfolding transfer_latency
transfer_latency_lem size direction p q =
    ((size + 1048575) / 1048576, omega arith, omega arith, ground arith)

-- A delay of at least a microsecond is slept as whole.
delay_lem : (d : ℕ) → 1000 ≤ d → (ts : Timespec) × (delay d ≡ some ts) × (nanoseconds ts ≡ d)
unfolding delay
delay_lem d p =
    (record { tv_sec = d / 1000000000; tv_nsec = d % 1000000000 }, ground arith, omega arith)

elapsed_lem :
    (clock : Clock)
    → (d : ℕ) → nanoseconds clock.before + d ≤ nanoseconds clock.after
    → nanoseconds clock.after < 2 ^ 64
    → d ≤ elapsed clock
unfolding get_time_ns
elapsed_lem clock d p q = omega arith

-- The sleep that pcie_sim_transfer_linux asks for has passed between the clock's two answers.
abbrev pub Slept : ℕ → ℕ → Clock → Type 0
Slept size direction clock =
    (ts : Timespec)
    → delay (transfer_latency size direction) ≡ some ts
    → nanoseconds clock.before + nanoseconds ts ≤ nanoseconds clock.after

-- If the sleep asked for passes between the clock's two answers, which lie below 2 ^ 64
-- nanoseconds, a transfer of 1 byte to 2 ^ 50 bytes reports at least 10 microseconds, or 12 from
-- the device, for each megabyte that is begun.
pub latency_at_least :
    (size direction : ℕ)
    → (clock : Clock) → 0 < size
    → size ≤ 2 ^ 50
    → Slept size direction clock
    → nanoseconds clock.after < 2 ^ 64
    → (m : ℕ) × (size ≤ m * 1048576)
      × (m * 1048576 < size + 1048576)
      × (per_megabyte direction m ≤ elapsed clock)
latency_at_least size direction clock p q slept small =
    let (m, enough, begun, e) = transfer_latency_lem size direction p q in
    let (ts, asked, whole) = delay_lem (transfer_latency size direction) (ground arith) in
    (
      m,
      enough,
      begun,
      elapsed_lem clock (per_megabyte direction m) (omega (arith, slept ts asked, whole, e)) small,
    )
