-- ===== src/Examples/Stress/Measure.antt =====
-- What is left to do for a thread of the stress test of examples/cpp_test.cpp, and what it holds.
use Prim.Native.Nat.{zero, suc, max, ◌%◌, ◌^◌}
use native.Mathlib.Nat.{le-div_iff_mul-le, div-le_self}
use pcie_sim.Base.{
  ℕ, ◌+◌, ◌-◌, ◌*◌, ◌/◌, ◌≤◌, ◌≡◌, ◌≢◌, ◌⊎◌, refl, inl, inr, List, [], ◌∷◌, ◌++◌, Option, none,
  arith,
}
use pcie_sim.Sim.Linux.History.{Transfer}
use pcie_sim.Library.Device.Owners.{owns}
use pcie_sim.Library.Device.Members.{of_handle}
use pcie_sim.Library.Backend.{Backend}
use pcie_sim.Utils.Csv.{Printer}
use pcie_sim.Utils.Config.{Float, TransferConfig}
use pcie_sim.Examples.Tester.{no_average, ran, faulted, Env, Tester, read_clock}
use pcie_sim.Examples.Stress.{
  Loop, Phase, starting, testing, attempting, recording, resting, ended, burst_rate, delay_of_rate,
  stress_delay_us, average_ns,
}

-- The device of a thread.
abbrev pub device_of : Phase → Option ℕ
device_of starting = none
device_of (testing l) = l.device.handle
device_of (attempting l size status time) = l.device.handle
device_of (recording l size status latency) = l.device.handle
device_of (resting l time) = l.device.handle
device_of ended = none

-- The rounds that are left at a time, each of 100 microseconds at least.
abbrev pub rounds : ℕ → ℕ → ℕ
rounds now end = (end - now + 99999) / 100000

-- The steps that are left of a thread, at most.
abbrev pub steps_left : ℕ → ℕ → Phase → ℕ
steps_left seconds now starting = 40000 * seconds + 2
steps_left seconds now (testing l) = 4 * rounds now l.end_time + 1
steps_left seconds now (attempting l size status time) = 4 * (rounds now l.end_time - 1) + 4
steps_left seconds now (recording l size status latency) = 4 * (rounds now l.end_time - 1) + 3
steps_left seconds now (resting l time) = 4 * rounds (max now time) l.end_time + 2
steps_left seconds now ended = 0

pub steps_left_mono :
    (seconds now later : ℕ) (p : Phase)
    → now ≤ later
    → steps_left seconds later p ≤ steps_left seconds now p
steps_left_mono seconds now later starting l = omega arith
steps_left_mono seconds now later (testing x) l = omega (arith, l)
steps_left_mono seconds now later (attempting x size status time) l = omega (arith, l)
steps_left_mono seconds now later (recording x size status latency) l = omega (arith, l)
steps_left_mono seconds now later (resting x time) l = ground (arith, l)
steps_left_mono seconds now later ended l = omega arith

-- What transfers weigh together.
abbrev pub weigh : (ℕ × Transfer → ℕ) → List (ℕ × Transfer) → ℕ
weigh f [] = 0
weigh f (x ∷ xs) = f x + weigh f xs

pub average_ns_lem :
    (l : Loop)
    → ((average_ns l ≡ faulted no_average) × (l.transfer_count ≡ 0))
      ⊎ ((ns : ℕ) × (average_ns l ≡ ran ns))
unfolding average_ns
average_ns_lem l = by_count l.transfer_count refl
  where
    by_count :
        (n : ℕ)
        → l.transfer_count ≡ n
        → ((average_ns l ≡ faulted no_average) × (l.transfer_count ≡ 0))
          ⊎ ((ns : ℕ) × (average_ns l ≡ ran ns))
    by_count zero e = inl (rw e refl, e)
    by_count (suc n) e = inr (l.total_latency / suc n, rw e refl)

pub some_bytes : (size : ℕ) → 1 ≤ size → size ≢ 0
some_bytes size l e = absurd (omega (arith, l, e))

-- The rate is at least that of a burst, and the pause after a transfer has a length then.
pub record IsPaced (config : TransferConfig) : Type 0 where
  pub burst_ge : 1 ≤ config.burst_count
  pub burst_le : config.burst_count ≤ config.rate_hz
  pub rate_le : config.rate_hz ≤ 10000

pub stress_delay_us_lem :
    (config : TransferConfig)
    → IsPaced config
    → (us : ℕ) × (stress_delay_us config ≡ ran us) × (100 ≤ us)
unfolding stress_delay_us
stress_delay_us_lem config q =
    let (rate, e, l, u) =
      burst_rate_lem config.rate_hz config.burst_count q.burst_ge q.burst_le q.rate_le in
    let (us, e', l') = delay_of_rate_lem rate l u in (us, rw (e, e') refl, l')
  where
    burst_rate_lem :
        (rate burst : ℕ)
        → 1 ≤ burst
        → burst ≤ rate
        → rate ≤ 10000
        → (q : ℕ) × (burst_rate rate burst ≡ ran q) × (1 ≤ q) × (q ≤ 10000)
    burst_rate_lem rate zero l m u = absurd (omega (arith, l))
    burst_rate_lem rate (suc n) l m u = (
      rate / suc n,
      refl,
      (le-div_iff_mul-le (omega arith)).1 (omega (arith, m)),
      omega (arith, u, div-le_self rate (suc n)),
    )

    delay_of_rate_lem :
        (rate : ℕ) → 1 ≤ rate → rate ≤ 10000 → (us : ℕ) × (delay_of_rate rate ≡ ran us) × (100 ≤ us)
    delay_of_rate_lem zero l u = absurd (omega (arith, l))
    delay_of_rate_lem (suc n) l u =
        (1000000 / suc n, refl, (le-div_iff_mul-le (omega arith)).1 (omega (arith, u)))

-- How often a thread owns a handle.
abbrev pub owned : ℕ → Phase → ℕ
owned q p = owns q (of_handle (device_of p))

-- The transfer that a thread has not logged yet.
abbrev pub pending : ℕ → Phase → List (ℕ × Transfer)
pending d starting = []
pending d (testing l) = []
pending d (attempting l size status time) = []
pending d (recording l size status latency) = (d, record { size = size; latency = latency }) ∷ []
pending d (resting l time) = []
pending d ended = []

pub weigh-append :
    (f : ℕ × Transfer → ℕ) (xs ys : List (ℕ × Transfer))
    → weigh f (xs ++ ys) ≡ weigh f xs + weigh f ys
weigh-append f [] ys = omega arith
weigh-append f (x ∷ xs) ys = omega (arith, weigh-append f xs ys)

-- A thread's variable `transfer_count` is the number of its attempts at a transfer, modulo 2 ^ 32.
abbrev pub Counts : ℕ → Phase → Type 0
Counts n starting = n ≡ 0
Counts n (testing l) = l.transfer_count ≡ n % 2 ^ 32
Counts n (attempting l size status time) = l.transfer_count ≡ n % 2 ^ 32
Counts n (recording l size status latency) = l.transfer_count ≡ n % 2 ^ 32
Counts n (resting l time) = l.transfer_count ≡ n % 2 ^ 32
Counts n ended = Unit {0}

-- The attempts of a thread after its next step.
abbrev pub attempts_after : Phase → ℕ → ℕ
attempts_after (attempting l size status time) n = n + 1
attempts_after p n = n

module _ (printer : Printer) (fl : Float) (env : Env fl) (b : Backend) where
  -- The time of a thread is over, and its number of transfers is 0.
  abbrev pub IsIdle : Tester printer b → Phase → Type 0
  IsIdle t p =
      (l : Loop) × (p ≡ testing l)
      × (l.transfer_count ≡ 0)
      × (l.end_time ≤ (read_clock printer fl env b t).time)
