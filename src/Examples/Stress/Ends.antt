-- ===== src/Examples/Stress/Ends.antt =====
-- The stress test of examples/cpp_test.cpp, on a backend that keeps its promises.
use native.Mathlib.Nat.{mod-lt}
use Prim.Native.Nat.{zero, suc, ◌%◌}
use pcie_sim.Base.{
  false, ℕ, ◌+◌, ◌≤◌, ◌<◌, ◌≡◌, refl, sym, ◌∙◌, fun_ext, subst, inl, inr, List, [], ◌∷◌, Option,
  arith, Bool-cases, Option-cases, ◌==◌, bit_and,
}
use pcie_sim.Sim.Linux.History.{Transfer}
use pcie_sim.Sim.Linux.Calls.{View}
use pcie_sim.Library.Backend.{Backend, Laws}
use pcie_sim.Library.Device.Owners.{times, times-none}
use pcie_sim.Utils.Csv.{Printer, TransferRecord}
use pcie_sim.Utils.Config.{Float, TransferConfig, TestConfig}
use pcie_sim.Utils.Config.Validity.{IsValid}
use pcie_sim.Utils.Options.Convert.{enable_stress}
use pcie_sim.Examples.Tester.{
  no_average, Ran, ran, faulted, and_then, ErrorInjector, Env, IsEnv, Tester,
}
use pcie_sim.Examples.Records.{session_after, session_after-none, AllDescribe, logs_after}
use pcie_sim.Examples.Pattern.{make_injector}
use pcie_sim.Examples.Stress.{starting, Worker}
use pcie_sim.Examples.Stress.Scheduler.{
  round_robin, start_workers, stress_steps, run_workers, run_stress_tests,
}
use pcie_sim.Examples.Stress.Measure.{weigh, IsPaced}
use pcie_sim.Examples.Stress.Starving.{AllCount, no_attempts, Starves}
use pcie_sim.Examples.Stress.Together.{steps_of, owned_by, pending_of, AllGood}
use pcie_sim.Examples.Stress.Workers.{Ended, starving, ending, run_workers-Ended}

round_robin_lem :
    (i devices : ℕ) → 1 ≤ devices → (d : ℕ) × (round_robin i devices ≡ ran d) × (d < devices)
round_robin_lem i zero l = absurd (omega (arith, l))
round_robin_lem i (suc n) l = (i % suc n, refl, mod-lt i (omega arith))

-- The handles that were open are open, and no others.
same_handles :
    (handles handles' : ℕ → Option ℕ)
    → ((q : ℕ) → times (handles q) ≡ times (handles' q))
    → ((q : ℕ) → 1 ≤ times (handles q) → handles' q ≡ handles q)
    → handles' ≡ handles
same_handles handles handles' e same = fun_ext (λ q. elim (Option-cases (handles q)) [
  | inl free ↦
      let free' : times (handles' q) ≡ 0 = sym (e q) ∙ rw free refl in
      times-none (handles' q) free' ∙ sym free
  | inr (d, open_) ↦ same q (rw open_ (omega arith))
])

module _ (printer : Printer) (fl : Float) (env : Env fl) (r : IsEnv fl env) where
  module _ (o : Option (ErrorInjector fl)) (config : TransferConfig) (devices : ℕ) where
    -- The threads that are started: each has one of the devices, and owns nothing yet.
    pub data Started (seconds now threads : ℕ) : Ran (List Worker) → Type 0 where
      started :
          (ws : List Worker)
          → ((handles : ℕ → Option ℕ) → AllGood printer fl env r o 0 devices config handles ws)
          → ((q : ℕ) → owned_by q ws ≡ 0)
          → ((f : ℕ × Transfer → ℕ) → pending_of f ws ≡ 0)
          → steps_of seconds now ws ≡ stress_steps threads seconds
          → AllCount (no_attempts ws) ws
          → Started seconds now threads (ran ws)

    start_workers-Started :
        (more i seconds now : ℕ)
        → 1 ≤ devices
        → devices ≤ 8
        → Started seconds now more (start_workers devices i more)
    unfolding start_workers
    start_workers-Started zero i seconds now l u =
        started [] (λ handles. tt) (λ q. refl) (λ f. refl) (omega arith) tt
    start_workers-Started (suc more) i seconds now l u =
        let (d, e, m) = round_robin_lem i devices l in
        rw e (
          one_more d m (start_workers devices (i + 1) more)
            (start_workers-Started more (i + 1) seconds now l u))
      where
        one_more :
            (d : ℕ)
            → d < devices
            → (s : Ran (List Worker)) → Started seconds now more s
            → Started seconds now (suc more) (
                and_then s
                  (λ ws. ran (record { device_id = d; thread_id = i; phase = starting } ∷ ws)))
        one_more d m _ (started ws good own pend steps counts) =
            started _ (λ handles. ((tt, omega arith, m, omega (arith, m, u)), good handles))
              (λ q. omega (arith, own q)) (λ f. omega (arith, pend f)) (omega (arith, steps))
              (refl, counts)

  module _ (b : Backend) (laws : Laws b) where
    -- The test ended: the handles that are open are those that were, and the log has a record for
    -- each transfer that a device has counted, or a thread had no transfer to average, after steps
    -- from the threads that are started.
    pub data Stressed (flags threads seconds : ℕ) (o : Option (ErrorInjector fl)) (devices : ℕ)
        (config : TransferConfig) (t : Tester printer b) (view : View)
        : Ran (Tester printer b) → Type 0 where
      starved :
          (ws : List Worker)
          → ((bit_and flags enable_stress == 0) ≡ false)
          → start_workers devices 0 threads ≡ ran ws
          → Starves printer fl env b seconds config o t ws (no_attempts ws)
          → Stressed flags threads seconds o devices config t view (faulted no_average)
      stressed :
          (t' : Tester printer b) (xs ys : List (ℕ × Transfer)) (rs : List (TransferRecord printer))
          → laws.Abs t'.backend (record view { logs = logs_after xs view.logs })
          → ((f : ℕ × Transfer → ℕ) → weigh f xs ≡ weigh f ys)
          → AllDescribe printer fl (λ l. l) o 0 devices config ys rs
          → t'.session ≡ session_after printer t.session rs
          → Stressed flags threads seconds o devices config t view (ran t')

    Ended-Stressed :
        (flags threads : ℕ) (o : Option (ErrorInjector fl)) (devices : ℕ) (config : TransferConfig)
        (seconds : ℕ) (t : Tester printer b) (view : View) (ws : List Worker)
        (s : Ran (Tester printer b))
        → ((bit_and flags enable_stress == 0) ≡ false)
        → start_workers devices 0 threads ≡ ran ws
        → ((f : ℕ × Transfer → ℕ) → pending_of f ws ≡ 0)
        → Ended printer fl env r o 0 devices config b laws seconds
            (Starves printer fl env b seconds config o t ws (no_attempts ws))
            (λ q. times (view.handles q))
            t
            view.handles
            view.logs
            ws
            s
        → Stressed flags threads seconds o devices config t view s
    Ended-Stressed flags threads o devices config seconds t view ws _ on e pend (starving x) =
        starved ws on e x
    Ended-Stressed flags threads o devices config seconds t view ws _ on e pend
          (ending t' handles' xs ys rs a own same w ds es) =
        stressed t' xs ys rs
          (subst
            (λ hs. laws.Abs t'.backend (record { handles = hs; logs = logs_after xs view.logs }))
            (same_handles view.handles handles' own same) a)
          (λ f. omega (arith, w f, pend f)) ds es

    all_run :
        (t : Tester printer b) (view : View) (config : TestConfig fl)
        → IsValid fl config
        → IsPaced config.transfer
        → laws.Abs t.backend view
        → ((bit_and config.flags enable_stress == 0) ≡ false)
        → (s : Ran (List Worker)) → start_workers config.num_devices 0 config.stress.num_threads ≡ s
        → Started
            (make_injector fl config)
            config.transfer
            config.num_devices
            config.stress.duration_seconds
            t.time
            config.stress.num_threads
            s
        → Stressed config.flags config.stress.num_threads config.stress.duration_seconds
            (make_injector fl config)
            config.num_devices
            config.transfer
            t
            view
            (and_then s (λ workers.
              run_workers printer fl env b
                (stress_steps config.stress.num_threads config.stress.duration_seconds)
                t
                config.stress.duration_seconds
                config.transfer
                (make_injector fl config)
                workers))
    all_run t view config v paced a on _ e (started ws good own pend steps counts) =
        let seconds = config.stress.duration_seconds in
        let o = make_injector fl config in
        Ended-Stressed config.flags config.stress.num_threads o config.num_devices config.transfer
          seconds t view ws _ on e pend
          (run_workers-Ended printer fl env r o 0 config.num_devices config.transfer b laws seconds
            v.transfers paced (stress_steps config.stress.num_threads seconds)
            (λ q. times (view.handles q)) t view.handles view.logs ws (no_attempts ws) counts
            (omega (arith, steps)) a (λ q. omega (arith, own q)) (good view.handles))

    -- On a backend that keeps its promises, with a random source that keeps to the bounds of a size,
    -- for a configuration that passes validation and that has at least one transfer in a burst and
    -- at least as many in a second: whatever the order in which the threads run, the stress test
    -- ends within 40000 steps for each thread and second, and 2 for each thread. No device is used
    -- by a thread that has not opened it or has closed it, and every handle that was opened is
    -- closed. The session's log, where there is one, has a record for each transfer that a device
    -- has counted, with its size and latency and a device that the configuration has, and no other
    -- record. The one fault that may happen is the division by the number of transfers. It happens
    -- only where the configuration asks for a stress test, and after steps of the started threads
    -- that leave one whose time is over when it reads the clock and which has made no attempt at a
    -- transfer, or a multiple of 2 ^ 32, which its counter cannot tell from none.
    pub run_stress_tests-Stressed :
        (t : Tester printer b) (view : View) (config : TestConfig fl)
        → IsValid fl config
        → IsPaced config.transfer
        → laws.Abs t.backend view
        → Stressed config.flags config.stress.num_threads config.stress.duration_seconds
            (make_injector fl config)
            config.num_devices
            config.transfer
            t
            view
            (run_stress_tests printer fl env b t config)
    unfolding run_stress_tests
    run_stress_tests-Stressed t view config v paced a =
        elim (Bool-cases (bit_and config.flags enable_stress == 0)) [
          | inl off ↦
              rw off
                (stressed t [] [] [] a (λ f. refl) tt (sym (session_after-none printer t.session)))
          | inr on ↦
              rw (on, run_stress_tests)
                (all_run t view config v paced a on
                  (start_workers config.num_devices 0 config.stress.num_threads) refl
                  (start_workers-Started (make_injector fl config) config.transfer
                    config.num_devices config.stress.num_threads 0 config.stress.duration_seconds
                    t.time v.devices_ge v.devices_le))
        ]
