-- ===== src/Examples/Stress.antt =====
-- examples/cpp_test.cpp: the stress test. Its threads run in the order that the scheduler says, and
-- each call of the library, of the log and of the clock is one step. A thread that sleeps may run
-- on when the time has come; the clock is then at that time at least.
pub mod Scheduler
pub mod Measure
pub mod Progress
pub mod Rounds
pub mod Turns
pub mod Steps
pub mod Together
pub mod Starving
pub mod Advance
pub mod Workers
pub mod Ends
use Prim.Native.Nat.{zero, suc, ◌%◌, ◌^◌, max}
use Prim.Native.String.{String}
use pcie_sim.Base.{
  ℕ, pos, ◌+◌, ◌-◌, ◌*◌, ◌/◌, Bool, true, false, not, ◌&&◌, List, [], ◌∷◌, Option, none, some, u64,
  if◌then◌else◌, ltb, ◌==◌, length, bit_and,
}
use pcie_sim.Library.Backend.{Backend}
use pcie_sim.Library.Device.{Result, returned, thrown, Device, device_new, device_drop, write}
use pcie_sim.Utils.Csv.{Printer}
use pcie_sim.Utils.Config.{Float, TransferConfig, TestConfig}
use pcie_sim.Utils.Options.Convert.{enable_stress}
use pcie_sim.Examples.Tester.{
  no_delay, no_device, no_average, unfinished, Ran, ran, faulted, and_then, defined, ErrorInjector,
  Env, get_error_type, error_delay_ms, Tester, read_clock, ask, choose_injector, log_to_session,
}
use pcie_sim.Examples.Pattern.{make_injector}

-- The local variables of the loop: the device, when the test ends, the number of transfers, and the
-- sum of their latencies.
pub record Loop : Type 0 where
  pub device : Device
  pub end_time : ℕ
  pub transfer_count : ℕ
  pub total_latency : ℕ

-- Where a thread stands: before it opens the device, before the test of the loop, before a transfer
-- of a size that may wait for an injected error, before the log entry, and asleep until a time.
pub data Phase : Type 0 where
  starting : Phase
  testing : Loop → Phase
  attempting : Loop → ℕ → String → ℕ → Phase
  recording : Loop → ℕ → String → ℕ → Phase
  resting : Loop → ℕ → Phase
  ended : Phase

-- A thread of stress_test_worker.
pub record Worker : Type 0 where
  pub device_id : ℕ
  pub thread_id : ℕ
  pub phase : Phase

abbrev pub with_phase : Worker → Phase → Worker
with_phase w p = record w { phase = p }

abbrev pub is_ended : Phase → Bool
is_ended ended = true
is_ended p = false

-- `config.rate_hz / config.burst_count`, and `1000000` by it.
abbrev pub burst_rate : ℕ → ℕ → Ran ℕ
burst_rate rate zero = faulted no_delay
burst_rate rate (suc n) = ran (rate / suc n)

abbrev pub delay_of_rate : ℕ → Ran ℕ
delay_of_rate zero = faulted no_delay
delay_of_rate (suc n) = ran (1000000 / suc n)

unfoldable pub stress_delay_us : TransferConfig → Ran ℕ
stress_delay_us config =
    and_then (burst_rate config.rate_hz config.burst_count) (λ rate. delay_of_rate rate)

-- `total_latency / transfer_count`
unfoldable pub average_ns : Loop → Ran ℕ
average_ns l = elim l.transfer_count [
  | zero ↦ faulted no_average
  | suc n ↦ ran (l.total_latency / suc n)
]

module _ (printer : Printer) (fl : Float) (env : Env fl) (b : Backend) where
  -- The time at which a thread runs on.
  abbrev pub wake : Tester printer b → ℕ → Tester printer b
  wake t time = record t { time = max t.time time + env.passes t.asked; asked = t.asked + 1 }

  -- A step of the thread, after which it stands elsewhere.
  abbrev pub Step : Type 0
  Step = Ran (Tester printer b × Phase)

  -- The device is opened, or an exception ends the thread.
  abbrev pub open_device : Tester printer b → ℕ → Result Device → Step
  open_device t seconds (thrown e) = ran (t, ended)
  open_device t seconds (returned device) =
      let t' = read_clock printer fl env b t in
      ran (
        t',
        testing (record {
          device = device;
          end_time = t'.time + seconds * 1000000000;
          transfer_count = 0;
          total_latency = 0;
        }),
      )

  unfoldable pub start : Tester printer b → ℕ → ℕ → Step
  start t device_id seconds =
      and_then (defined (device_new b t.backend (pos device_id)))
        (λ (s, r). open_device (record t { backend = s }) seconds r)

  -- The round of the loop up to the try statement, or the end of the function.
  abbrev pub begin_round : Tester printer b → Loop → ℕ → Option (ErrorInjector fl) → Phase
  begin_round t l size none = attempting l size "SUCCESS" t.time
  begin_round t l size (some injector) =
      attempting l size (get_error_type fl injector) (t.time + error_delay_ms fl injector * 1000000)

  unfoldable pub test : Tester printer b → TransferConfig → Option (ErrorInjector fl) → Loop → Step
  unfolding choose_injector average_ns
  test t config injector l =
      let t₁ = read_clock printer fl env b t in
      if ltb t₁.time l.end_time
      then (let size = env.draw t₁.asked config.min_size config.max_size in
          let (t₂, injected) =
            choose_injector printer fl env b (ask printer fl env b t₁) injector in
          ran (t₂, begin_round t₂ l size injected))
      else and_then (average_ns l) (λ average.
        and_then (defined (device_drop b t₁.backend l.device))
          (λ s. ran (record t₁ { backend = s }, ended)))

  -- The transfer: its latency is 0 where it throws.
  abbrev pub count : Loop → ℕ → Loop
  count l latency = record l {
    transfer_count = (l.transfer_count + 1) % 2 ^ 32;
    total_latency = u64 (l.total_latency + latency);
  }

  abbrev pub finish : Tester printer b → Loop → ℕ → String → Result ℕ → Tester printer b × Phase
  finish t l size status (returned latency) = (t, recording (count l latency) size status latency)
  finish t l size status (thrown e) = (t, recording (count l 0) size "EXCEPTION" 0)

  unfoldable pub attempt_write : Tester printer b → Loop → ℕ → String → ℕ → Step
  attempt_write t l size status time =
      let t' = wake t time in
      and_then (defined (write b t'.backend l.device size 1))
        (λ (s, r). ran (finish (record t' { backend = s }) l size status r))

  -- The log entry, and how long the thread sleeps after it.
  unfoldable pub record_transfer :
      Tester printer b → TransferConfig → Worker → Loop → ℕ → String → ℕ → Step
  unfolding log_to_session stress_delay_us
  record_transfer t config w l size status latency =
      let t' = log_to_session printer fl env b t w.device_id size latency status w.thread_id in
      if ltb 0 config.rate_hz
      then and_then (stress_delay_us config)
          (λ delay_us. ran (t', resting l (t'.time + delay_us * 1000)))
      else ran (t', testing l)

  -- stress_test_worker
  unfoldable pub stress_test_worker :
      Tester printer b → ℕ → TransferConfig → Option (ErrorInjector fl) → Worker → Step
  unfolding start test attempt_write record_transfer
  stress_test_worker t seconds config injector w = elim w.phase [
    | starting ↦ start t w.device_id seconds
    | testing l ↦ test t config injector l
    | attempting l size status time ↦ attempt_write t l size status time
    | recording l size status latency ↦ record_transfer t config w l size status latency
    | resting l time ↦ ran (wake t time, testing l)
    | ended ↦ ran (t, ended)
  ]
