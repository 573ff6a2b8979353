-- ===== src/Examples/Program/Passed.antt =====
-- What the tests of main() of examples/cpp_test.cpp leave, for a configuration that passes.
use Prim.Native.String.{String}
use pcie_sim.Base.{
  ℕ, ◌+◌, ◌≡◌, ◌⊎◌, refl, sym, ◌∙◌, ap, subst, true, false, inl, inr, List, [], ◌++◌, Option, none,
  some, Bool-cases, ◌==◌, bit_and,
}
use pcie_sim.Sim.Linux.History.{Transfer}
use pcie_sim.Sim.Linux.Calls.{View}
use pcie_sim.Library.Backend.{Backend, Laws}
use pcie_sim.Utils.Csv.{
  Printer, TransferRecord, CsvLogger, session_new, logger_new, write_header, log_session_start,
}
use pcie_sim.Utils.Csv.Session.{
  session, session_logs, session_logs-some, session_logs-none, log_each,
}
use pcie_sim.Utils.Config.{Float, TestConfig}
use pcie_sim.Utils.Config.Validity.{IsValid}
use pcie_sim.Utils.Options.Convert.{enable_stress, enable_logging}
use pcie_sim.Examples.Tester.{
  undefined, faulted, ran, no_average, Ran, and_then, IsEnv, Tester, read_clock,
}
use pcie_sim.Examples.Records.{
  session_after, session_after-append, AllDescribe, logs_after, logs_after-append,
}
use pcie_sim.Examples.Pattern.{with_overhead, make_injector, run_pattern_tests}
use pcie_sim.Examples.Pattern.Suite.{EachTested, Suite, suite, run_pattern_tests-Suite}
use pcie_sim.Examples.Stress.Scheduler.{start_workers, run_stress_tests}
use pcie_sim.Examples.Stress.Measure.{weigh, IsPaced}
use pcie_sim.Examples.Stress.Ends.{Stressed, starved, stressed, run_stress_tests-Stressed}
use pcie_sim.Examples.Stress.{Worker}
use pcie_sim.Examples.Stress.Starving.{no_attempts, Starves}
use pcie_sim.Examples.Program.{
  print_log, Exit, exits, crashes, Surroundings, config_summary, log_filename, open_session,
  close_session, finish, run_tests,
}

module _ (printer : Printer) (fl : Float) (outer : Surroundings fl) (b : Backend) where
  open printer use {offset_ns}
  open outer use {env, stoi, opens}

  module _ (laws : Laws b) where
    -- The log of a session with records, under the name that the program chooses at a time, or none
    -- if none is asked for.
    pub data IsLog (config : TestConfig fl) (rs : List (TransferRecord printer))
        : Option (List String) → Type 0 where
      no_log : ((bit_and config.flags enable_logging == 0) ≡ true) → IsLog config rs none
      log_of :
          (at start end : ℕ)
          → ((bit_and config.flags enable_logging == 0) ≡ false)
          → opens (log_filename printer fl outer b config at) ≡ true
          → IsLog config rs (
              session printer
                (log_filename printer fl outer b config at)
                (config_summary printer fl outer b config)
                start
                true
                rs
                end)

    -- The tests of a configuration passed: each device was tested, and the log is that of a session
    -- with the records of the transfers by pattern and then those of the stress test.
    pub data Passed (config : TestConfig fl) (view : View) : Exit b → Type 0 where
      crashed :
          (t : Tester printer b) (ws : List Worker) (xs : List (ℕ × Transfer))
          → ((bit_and config.flags enable_stress == 0) ≡ false)
          → laws.Abs t.backend (record view { logs = logs_after xs view.logs })
          → EachTested b laws config.transfer 0 config.num_devices xs
          → start_workers config.num_devices 0 config.stress.num_threads ≡ ran ws
          → Starves printer fl env b config.stress.duration_seconds config.transfer
              (make_injector fl config)
              t
              ws
              (no_attempts ws)
          → Passed config view (crashes no_average)
      unopened :
          (at : ℕ)
          → ((bit_and config.flags enable_logging == 0) ≡ false)
          → opens (log_filename printer fl outer b config at) ≡ false
          → Passed config view (crashes undefined)
      passed :
          (s : b.State) (xs ys zs : List (ℕ × Transfer)) (rs rs' : List (TransferRecord printer))
          (log : Option (List String))
          → EachTested b laws config.transfer 0 config.num_devices xs
          → laws.Abs s (record view { logs = logs_after (xs ++ ys) view.logs })
          → AllDescribe printer fl with_overhead
              (make_injector fl config)
              0
              config.num_devices
              config.transfer
              xs
              rs
          → ((f : ℕ × Transfer → ℕ) → weigh f ys ≡ weigh f zs)
          → AllDescribe printer fl
              (λ l. l)
              (make_injector fl config)
              0
              config.num_devices
              config.transfer
              zs
              rs'
          → IsLog config (rs ++ rs') log
          → Passed config view (exits 0 s log)

    -- The session that the program starts with.
    abbrev Begun : TestConfig fl → Tester printer b → Type 0
    Begun config t =
        ((t.session ≡ none) × ((bit_and config.flags enable_logging == 0) ≡ true))
        ⊎ ((at : ℕ) × (now : ℕ) × (t.session
              ≡ some (
                  session_new printer (log_filename printer fl outer b config at)
                    (config_summary printer fl outer b config) now
                    (opens (log_filename printer fl outer b config at))))
            × ((bit_and config.flags enable_logging == 0) ≡ false))

    open_session-Begun :
        (t : Tester printer b) (config : TestConfig fl)
        → t.session ≡ none
        → (t' : Tester printer b) × (open_session printer fl outer b t config ≡ t')
          × (t'.backend ≡ t.backend)
          × Begun config t'
    unfolding open_session
    open_session-Begun t config e = elim (Bool-cases (bit_and config.flags enable_logging == 0)) [
      | inl off ↦ (t, rw off refl, refl, inl (e, off))
      | inr on ↦
          let named = read_clock printer fl env b t in
          let at = named.time + offset_ns in
          let name = log_filename printer fl outer b config at in
          let t' = read_clock printer fl env b named in
          let new =
            session_new printer name (config_summary printer fl outer b config) t'.time
              (opens name) in
          let begun : Tester printer b = record t' { session = some new } in
          (begun, rw on refl, refl, inr (at, t'.time, refl, on))
    ]

    -- The end of the program after records.
    data Reported (config : TestConfig fl) (rs : List (TransferRecord printer))
        (t : Tester printer b) : Ran (Tester printer b) → Type 0 where
      reported : IsLog config rs (close_session printer fl outer b t) → Reported config rs t (ran t)
      unreported :
          (at : ℕ)
          → ((bit_and config.flags enable_logging == 0) ≡ false)
          → opens (log_filename printer fl outer b config at) ≡ false
          → Reported config rs t (faulted undefined)

    -- The logger of a session that has started.
    abbrev started_logger : String → String → ℕ → CsvLogger printer
    started_logger summary name now =
        log_session_start printer
          (write_header printer (record {
            file = some [];
            filename = name;
            header_written = false;
            record_count = 0;
            session_start = now;
          }))
          summary

    print_log-Reported :
        (t t' : Tester printer b) (config : TestConfig fl) (rs : List (TransferRecord printer))
        → Begun config t
        → t'.session ≡ session_after printer t.session rs
        → Reported config rs t' (print_log printer fl outer b t')
    unfolding print_log session_new logger_new
    print_log-Reported t t' config rs (inl (e, off)) es =
        let none_left : t'.session ≡ none = rw (es, e) refl in
        let ends : print_log printer fl outer b t' ≡ ran t' = rw none_left refl in
        rw ends (reported (rw none_left (no_log off)))
    print_log-Reported t t' config rs (inr (at, now, e, on)) es =
        let name = log_filename printer fl outer b config at in
        let summary = config_summary printer fl outer b config in
        elim (Bool-cases (opens name)) [
          | inl can ↦
              let left : t'.session
                  ≡ some (session_logs printer (session_new printer name summary now true) rs) =
                es ∙ rw (e, can) refl in
              let kept : t'.session
                  ≡ some (record {
                    logger = some (log_each printer (started_logger summary name now) rs);
                    session_config = summary;
                  }) =
                left
                ∙ ap some
                    (session_logs-some printer rs (started_logger summary name now) summary) in
              let ends : print_log printer fl outer b t' ≡ ran t' = rw kept refl in
              rw ends
                (reported (rw left (log_of at now (read_clock printer fl env b t').time on can)))
          | inr cannot ↦
              let gone : t'.session ≡ some (record { logger = none; session_config = summary }) =
                es ∙ rw (e, cannot) (ap some (session_logs-none printer rs summary)) in
              let ends : print_log printer fl outer b t' ≡ faulted undefined = rw gone refl in
              rw ends (unreported at on cannot)
        ]

    module _ (r : IsEnv fl env) (config : TestConfig fl) (v : IsValid fl config) where
      module _ (paced : IsPaced config.transfer) (view : View) where
        stress-Passed :
            (t t₁ : Tester printer b) (xs : List (ℕ × Transfer))
            (rs : List (TransferRecord printer)) (result : Ran (Tester printer b))
            → Begun config t
            → EachTested b laws config.transfer 0 config.num_devices xs
            → AllDescribe printer fl with_overhead
                (make_injector fl config)
                0
                config.num_devices
                config.transfer
                xs
                rs
            → t₁.session ≡ session_after printer t.session rs
            → laws.Abs t₁.backend (record view { logs = logs_after xs view.logs })
            → Stressed printer fl env r b laws config.flags config.stress.num_threads
                config.stress.duration_seconds
                (make_injector fl config)
                config.num_devices
                config.transfer
                t₁
                (record view { logs = logs_after xs view.logs })
                result
            → Passed config view
                (finish printer fl outer b (and_then result (print_log printer fl outer b)))
        stress-Passed t t₁ xs rs _ begun each ds e before (starved ws on started starves) =
            crashed t₁ ws xs on before each started starves
        stress-Passed t t₁ xs rs _ begun each ds e before (stressed t₂ ys zs rs' a weights ds' e') =
            let es : t₂.session ≡ session_after printer t.session (rs ++ rs') =
              e'
              ∙ ap (λ s. session_after printer s rs') e
              ∙ sym (session_after-append printer t.session rs rs') in
            after_report (print_log printer fl outer b t₂)
              (print_log-Reported t t₂ config (rs ++ rs') begun es)
          where
            after_report :
                (result : Ran (Tester printer b))
                → Reported config (rs ++ rs') t₂ result
                → Passed config view (finish printer fl outer b result)
            after_report _ (unreported at on cannot) = unopened at on cannot
            after_report _ (reported log) =
                passed t₂.backend xs ys zs rs rs' _ each
                  (subst (λ logs. laws.Abs t₂.backend (record view { logs = logs }))
                    (sym (logs_after-append xs ys view.logs)) a)
                  ds weights ds' log

        pattern-Passed :
            (t : Tester printer b) (result : Ran (Tester printer b))
            → Begun config t
            → Suite printer fl env r b laws
                (make_injector fl config)
                0
                config.num_devices
                config.transfer
                t
                view
                result
            → Passed config view (
                finish printer fl outer b (
                  and_then result (λ t'.
                    and_then
                      (run_stress_tests printer fl env b t' config)
                      (print_log printer fl outer b))))
        pattern-Passed t _ begun (suite t₁ xs rs a ds each e) =
            stress-Passed t t₁ xs rs (run_stress_tests printer fl env b t₁ config) begun each ds e a
              (run_stress_tests-Stressed printer fl env r b laws t₁
                (record view { logs = logs_after xs view.logs }) config v paced a)

        pub run_tests-Passed :
            (t : Tester printer b)
            → t.session ≡ none
            → laws.Abs t.backend view
            → Passed config view (run_tests printer fl outer b t config)
        unfolding run_tests
        run_tests-Passed t e a =
            let (t', e', eb, begun) = open_session-Begun t config e in
            rw e' (
              pattern-Passed t' (run_pattern_tests printer fl env b t' config) begun (
                run_pattern_tests-Suite printer fl env r b laws t' view config v
                  (subst (λ s. laws.Abs s view) (sym eb) a)))
