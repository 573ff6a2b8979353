-- ===== src/Examples/Stress/Steps.antt =====
-- One step of a thread of the stress test of examples/cpp_test.cpp, whatever the others do.
use pcie_sim.Base.{
  ℕ, pos, ◌+◌, ◌*◌, ◌==◌, ◌≤◌, ◌<◌, ◌≡◌, refl, sym, inl, inr, List, [], Option, none, some, false,
  arith, Bool-cases,
}
use pcie_sim.Api.{Error}
use pcie_sim.Sim.Linux.History.{Transfer}
use pcie_sim.Sim.Linux.Calls.{View}
use pcie_sim.Library.Backend.{Backend, Laws, Opened, is_device, no_device, no_memory, fresh}
use pcie_sim.Library.Device.{checked, device_new}
use pcie_sim.Library.Device.Owners.{times, times-opened}
use pcie_sim.Library.Device.Members.{of_handle, checked-thrown}
use pcie_sim.Utils.Csv.{Printer}
use pcie_sim.Utils.Config.{Float, TransferConfig}
use pcie_sim.Utils.Config.Validity.{IsTransfer}
use pcie_sim.Examples.Tester.{Ran, ErrorInjector, Env, IsEnv, Tester, read_clock}
use pcie_sim.Examples.Records.{session_after-none}
use pcie_sim.Examples.Stress.{
  Loop, Phase, starting, testing, attempting, recording, resting, ended, Worker, open_device, start,
  stress_test_worker, is_ended,
}
use pcie_sim.Examples.Stress.Measure.{owned, IsPaced}
use pcie_sim.Examples.Stress.Progress.{Good as GoodIn, Stepped as SteppedIn, stepped, quiet}
use pcie_sim.Examples.Stress.Rounds.{rest-Stepped, attempt-Stepped, record-Stepped}
use pcie_sim.Examples.Stress.Turns.{test-Stepped}

module _ (printer : Printer) (fl : Float) (env : Env fl) (r : IsEnv fl env) where
  open printer use {double}
  open double use {whole, over}

  module _ (o : Option (ErrorInjector fl)) (low high : ℕ) (config : TransferConfig) where
    abbrev Good : (ℕ → Option ℕ) → ℕ → Phase → Type 0
    Good = GoodIn printer fl env r o low high config

    module _ (b : Backend) (laws : Laws b) (seconds : ℕ) (g : ℕ → ℕ) where
      abbrev Stepped :
          Tester printer b
          → (ℕ → Option ℕ)
          → (ℕ → List Transfer)
          → ℕ
          → Phase
          → Ran (Tester printer b × Phase)
          → Type 0
      Stepped = SteppedIn printer fl env r o low high config b laws seconds g

      module _ (t : Tester printer b) (handles : ℕ → Option ℕ) (logs : ℕ → List Transfer)
          (d : ℕ) where
        open-Stepped :
            (s₀ s : b.State) (e : Error) (h : Option ℕ) (view' : View)
            → d < 8
            → ((q : ℕ) → g q ≡ times (handles q))
            → Opened (laws.Full s₀) (record { handles = handles; logs = logs }) (pos d) e h view'
            → laws.Abs s view'
            → Stepped t handles logs d starting (
                open_device printer fl env b
                  (record t { backend = s })
                  seconds
                  (checked e (of_handle h)))
        open-Stepped s₀ s e _ _ m own (no_device _ _ ne out) a = absurd (out (is_device d m))
        open-Stepped s₀ s e _ _ m own (no_memory _ _ ne full) a =
            rw (checked-thrown e (of_handle none) ne) (
              stepped (record t { backend = s }) ended
                (quiet printer fl env r o low high config b laws seconds g t handles logs d starting
                  ended (record t { backend = s }) a (λ q. omega (arith, own q)) tt refl refl refl
                  (omega arith) (omega arith) (λ n c. tt)))
        open-Stepped s₀ s _ _ view' m own (fresh n p k free) a =
            let t' = read_clock printer fl env b (record t { backend = s }) in
            let l : Loop = record {
              device = of_handle (some p);
              end_time = t'.time + seconds * 1000000000;
              transfer_count = 0;
              total_latency = 0;
            } in
            let opened : (q : ℕ)
                → times (view'.handles q) ≡ times (handles q) + owned q (testing l) =
              λ q. times-opened (record { handles = handles; logs = logs }) p n q free in
            stepped t' (testing l) (record {
              handles' = view'.handles;
              transfers = [];
              described = [];
              records = [];
              stands_for = a;
              owners = (λ q. omega (arith, own q, opened q));
              others = (λ q some_of_it. elim (Bool-cases (q == p)) [
                | inl same ↦ absurd (ground (arith, own q, some_of_it, same, free))
                | inr apart ↦ rw apart refl
              ]);
              good = (p, refl, ground arith);
              weights = (λ f. refl);
              describe = tt;
              session = sym (session_after-none printer t.session);
              later = omega arith;
              fewer = omega arith;
              counts = (λ n c. omega (arith, c));
            })

        start-Stepped :
            d < 8
            → laws.Abs t.backend (record { handles = handles; logs = logs })
            → ((q : ℕ) → g q ≡ times (handles q))
            → Stepped t handles logs d starting (start printer fl env b t d seconds)
        unfolding start device_new
        start-Stepped m a own =
            let (s, e, h, view', eq, opened, a') =
              laws.opens_lem t.backend (record { handles = handles; logs = logs }) (pos d) a in
            rw eq (open-Stepped t.backend s e h view' m own opened a')

        -- A thread that has not ended steps.
        pub stress_test_worker-Stepped :
            (w : Worker)
            → IsTransfer config
            → IsPaced config
            → w.device_id ≡ d
            → low ≤ d
            → d < high
            → d < 8
            → is_ended w.phase ≡ false
            → laws.Abs t.backend (record { handles = handles; logs = logs })
            → ((q : ℕ) → owned q w.phase + g q ≡ times (handles q))
            → Good handles d w.phase
            → Stepped t handles logs d w.phase
                (stress_test_worker printer fl env b t seconds config o w)
        unfolding stress_test_worker
        stress_test_worker-Stepped w v paced same lo hi m on a own good =
            by_phase w.device_id w.thread_id w.phase same on own good
          where
            by_phase :
                (id thread : ℕ) (p : Phase)
                → id ≡ d
                → is_ended p ≡ false
                → ((q : ℕ) → owned q p + g q ≡ times (handles q))
                → Good handles d p
                → Stepped t handles logs d p (
                    stress_test_worker printer fl env b t seconds config o
                      (record { device_id = id; thread_id = thread; phase = p }))
            by_phase id thread starting e on own good =
                rw e (start-Stepped m a (λ q. omega (arith, own q)))
            by_phase id thread (testing l) e on own good =
                test-Stepped printer fl env r o low high config b laws seconds g t handles logs d l
                  v a own good
            by_phase id thread (attempting l size status time) e on own good =
                attempt-Stepped printer fl env r o low high config b laws seconds g t handles logs d
                  l size status time v a own good
            by_phase id thread (recording l size status latency) e on own good = rw e (
                record-Stepped printer fl env r o low high config b laws seconds g t handles logs d
                  l size status latency thread paced lo hi a own good)
            by_phase id thread (resting l time) e on own good =
                rest-Stepped printer fl env r o low high config b laws seconds g t handles logs d l
                  time a own good
            by_phase id thread ended e on own good = absurd (cc on)
