-- ===== src/Examples/Stress/Rounds.antt =====
-- A round of a thread of the stress test of examples/cpp_test.cpp: the transfer, its log entry, and
-- the sleep after it.
use Prim.Native.String.{String}
use pcie_sim.Base.{
  ℕ, ◌+◌, ◌*◌, ◌^◌, ◌≤◌, ◌<◌, ◌≡◌, refl, sym, List, [], ◌∷◌, Option, some, true, arith, u64, subst,
  ltb,
}
use pcie_sim.Api.{to_device}
use pcie_sim.Sim.Linux.History.{Transfer}
use pcie_sim.Sim.Linux.Calls.{log_at}
use pcie_sim.Library.Backend.{Backend, Laws}
use pcie_sim.Library.Device.{returned, Device, transfer, write}
use pcie_sim.Library.Device.Owners.{times}
use pcie_sim.Utils.Csv.{Printer}
use pcie_sim.Utils.Config.{Float, TransferConfig}
use pcie_sim.Utils.Config.Validity.{IsTransfer}
use pcie_sim.Examples.Tester.{Ran, ran, ErrorInjector, Env, IsEnv, Tester}
use pcie_sim.Examples.Logging.{log_to_session_lem}
use pcie_sim.Examples.Records.{session_after-none}
use pcie_sim.Examples.Stress.{
  Loop, Phase, testing, attempting, recording, resting, attempt_write, record_transfer, wake, count,
}
use pcie_sim.Examples.Stress.Measure.{owned, some_bytes, IsPaced, stress_delay_us_lem}
use pcie_sim.Examples.Stress.Progress.{
  Named as NamedIn, Good as GoodIn, Stepped as SteppedIn, stepped, quiet,
}

module _ (printer : Printer) (fl : Float) (env : Env fl) (r : IsEnv fl env) where
  open printer use {double}
  open double use {whole, over}

  module _ (o : Option (ErrorInjector fl)) (low high : ℕ) (config : TransferConfig) where
    abbrev Named : (ℕ → Option ℕ) → ℕ → Loop → Type 0
    Named = NamedIn printer fl env r o low high config

    abbrev Good : (ℕ → Option ℕ) → ℕ → Phase → Type 0
    Good = GoodIn printer fl env r o low high config

    module _ (b : Backend) (laws : Laws b) (seconds : ℕ) (g : ℕ → ℕ) where
      abbrev Stepped :
          Tester printer b
          → (ℕ → Option ℕ)
          → (ℕ → List Transfer)
          → ℕ
          → Phase
          → Ran (Tester printer b × Phase)
          → Type 0
      Stepped = SteppedIn printer fl env r o low high config b laws seconds g

      -- A transfer of some bytes with an open device.
      write_lem :
          (s : b.State) (handles : ℕ → Option ℕ) (logs : ℕ → List Transfer) (p d size : ℕ)
          (device : Device)
          → 1 ≤ size
          → size < 2 ^ 64
          → device.handle ≡ some p
          → laws.Abs s (record { handles = handles; logs = logs })
          → handles p ≡ some d
          → (s' : b.State) × (latency : ℕ) × (write b s device size 1 ≡ some (s', returned latency))
            × laws.Abs s' (record {
              handles = handles;
              logs = log_at d (record { size = size; latency = latency } ∷ logs d) logs;
            })
      unfolding write transfer
      write_lem s handles logs p d size device l u eh a en =
          let e : u64 (size * 1) ≡ size = omega (arith, u) in
          let (s', latency, eq, a') =
            laws.transfers_lem s (record { handles = handles; logs = logs }) p d size to_device a en
              (some_bytes size l) in
          (s', latency, rw (e, eh, eq) refl, a')

      module _ (t : Tester printer b) (handles : ℕ → Option ℕ) (logs : ℕ → List Transfer)
          (d : ℕ) where
        pub rest-Stepped :
            (l : Loop) (time : ℕ)
            → laws.Abs t.backend (record { handles = handles; logs = logs })
            → ((q : ℕ) → owned q (resting l time) + g q ≡ times (handles q))
            → Named handles d l
            → Stepped t handles logs d
                (resting l time)
                (ran (wake printer fl env b t time, testing l))
        rest-Stepped l time a own named =
            let t' = wake printer fl env b t time in
            stepped t' (testing l) (
              quiet printer fl env r o low high config b laws seconds g t handles logs d
                (resting l time) (testing l) t' a own named refl refl refl (ground arith)
                (ground arith) (λ n c. c))

        pub attempt-Stepped :
            (l : Loop) (size : ℕ) (status : String) (time : ℕ)
            → IsTransfer config
            → laws.Abs t.backend (record { handles = handles; logs = logs })
            → ((q : ℕ) → owned q (attempting l size status time) + g q ≡ times (handles q))
            → Good handles d (attempting l size status time)
            → Stepped t handles logs d
                (attempting l size status time)
                (attempt_write printer fl env b t l size status time)
        unfolding attempt_write
        attempt-Stepped l size status time v a own ((p, eh, en), (ge, le), timed) =
            let t₁ = wake printer fl env b t time in
            let (s', latency, eq, a') =
              write_lem t.backend handles logs p d size l.device (omega (arith, ge, v.min_ge))
                (omega (arith, le, v.max_le)) eh a en in
            let x : Transfer = record { size = size; latency = latency } in
            let t' : Tester printer b = record t₁ { backend = s' } in
            let p' = recording (count printer fl env b l latency) size status latency in
            rw eq (
              stepped t' p' (record {
                handles' = handles;
                transfers = (d, x) ∷ [];
                described = [];
                records = [];
                stands_for = a';
                owners = own;
                others = (λ q k. refl);
                good = ((p, eh, en), (ge, le), timed latency);
                weights = (λ f. omega arith);
                describe = tt;
                session = sym (session_after-none printer t.session);
                later = ground arith;
                fewer = ground arith;
                counts = (λ n c. omega (arith, c));
              }))

        pub record-Stepped :
            (l : Loop) (size : ℕ) (status : String) (latency thread : ℕ)
            → IsPaced config
            → low ≤ d
            → d < high
            → laws.Abs t.backend (record { handles = handles; logs = logs })
            → ((q : ℕ) → owned q (recording l size status latency) + g q ≡ times (handles q))
            → Good handles d (recording l size status latency)
            → Stepped t handles logs d (recording l size status latency) (
                record_transfer printer fl env b t config
                  (record {
                    device_id = d;
                    thread_id = thread;
                    phase = recording l size status latency;
                  })
                  l
                  size
                  status
                  latency)
        unfolding record_transfer
        record-Stepped l size status latency thread paced lo hi a own (named, (ge, le), timed) =
            let x : Transfer = record { size = size; latency = latency } in
            let (t', entry, e, eb, es, later, describes) =
              log_to_session_lem printer fl env b (λ l. l) t o low high d config x latency status
                thread lo hi ge le timed in
            let (us, e', wait) = stress_delay_us_lem config paced in
            let some_rate : ltb 0 config.rate_hz ≡ true =
              ground (arith, paced.burst_ge, paced.burst_le) in
            let wake_time = t'.time + us * 1000 in
            rw (e, some_rate, e')
              (stepped t' (resting l wake_time) (record {
                handles' = handles;
                transfers = [];
                described = (d, x) ∷ [];
                records = entry ∷ [];
                stands_for =
                    subst (λ s. laws.Abs s (record { handles = handles; logs = logs })) (sym eb) a;
                owners = own;
                others = (λ q k. refl);
                good = named;
                weights = (λ f. omega arith);
                describe = (describes, tt);
                session = es;
                later = later;
                fewer = ground (arith, later, wait);
                counts = (λ n c. c);
              }))
