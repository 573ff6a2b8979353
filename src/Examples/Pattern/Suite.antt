-- ===== src/Examples/Pattern/Suite.antt =====
-- The tests by transfer pattern of examples/cpp_test.cpp, on a backend that keeps its promises.
use Prim.Native.Nat.{zero, suc}
use pcie_sim.Base.{
  ℕ, ◌+◌, ◌≤◌, ◌<◌, ◌≡◌, ◌⊎◌, refl, sym, ◌∙◌, ap, subst, inl, inr, List, [], ◌++◌, Option, arith,
  length, dec_lt,
}
use pcie_sim.Sim.Linux.History.{Transfer}
use pcie_sim.Sim.Linux.Calls.{View}
use pcie_sim.Library.Backend.{Backend, Laws}
use pcie_sim.Utils.Csv.{Printer, TransferRecord}
use pcie_sim.Utils.Config.{Float, TransferConfig, TestConfig}
use pcie_sim.Utils.Config.Validity.{IsTransfer, IsValid}
use pcie_sim.Examples.Tester.{Ran, ran, and_then, ErrorInjector, Env, IsEnv, Tester}
use pcie_sim.Examples.Records.{
  session_after-none, session_after-append, logged, logs_after, logs_after-append, session_after,
  AllDescribe, AllDescribe-append, AllDescribe-wider, made_on, made_on-append, made_on-alone,
  made_on-outside,
}
use pcie_sim.Examples.Pattern.{
  with_overhead, make_injector, pattern_based_transfer_test, pattern_tests_from, run_pattern_tests,
}
use pcie_sim.Examples.Pattern.Tested.{planned, TestedBy, pattern_based_transfer_test-TestedBy}

-- Each device in a range was tested: it has made the transfers that the pattern asks for, or none
-- where there was no memory for its handle.
abbrev pub EachTested :
    (b : Backend) → Laws b → TransferConfig → ℕ → ℕ → List (ℕ × Transfer) → Type 0
EachTested b laws config low high xs =
    (d : ℕ)
    → low ≤ d
    → d < high
    → (made_on d xs ≡ planned config) ⊎ ((made_on d xs ≡ 0) × ((s : b.State) × laws.Full s))

module _ (printer : Printer) (fl : Float) (env : Env fl) (r : IsEnv fl env) where
  module _ (b : Backend) (laws : Laws b) (o : Option (ErrorInjector fl)) where
    -- A row of tests of the devices in a range ended, each with its records in the log, and with no
    -- other transfer counted or logged.
    pub data Suite (low high : ℕ) (config : TransferConfig) (t : Tester printer b) (view : View)
        : Ran (Tester printer b) → Type 0 where
      suite :
          (t' : Tester printer b) (xs : List (ℕ × Transfer)) (rs : List (TransferRecord printer))
          → laws.Abs t'.backend (record view { logs = logs_after xs view.logs })
          → AllDescribe printer fl with_overhead o low high config xs rs
          → EachTested b laws config low high xs
          → t'.session ≡ session_after printer t.session rs
          → Suite low high config t view (ran t')

    module _ (config : TransferConfig) (v : IsTransfer config) where
      -- A test of the first device, and then the others.
      Suite-after :
          (low high : ℕ) (t t' : Tester printer b) (view : View) (xs : List (ℕ × Transfer))
          (rs : List (TransferRecord printer)) (r : Ran (Tester printer b))
          → low < high
          → AllDescribe printer fl with_overhead o low (low + 1) config xs rs
          → (length rs ≡ planned config) ⊎ ((length rs ≡ 0) × ((s : b.State) × laws.Full s))
          → t'.session ≡ session_after printer t.session rs
          → Suite (low + 1) high config t' (record view { logs = logs_after xs view.logs }) r
          → Suite low high config t view r
      Suite-after low high t t' view xs rs _ l ds n es (suite t'' ys rs' a ds' each es') =
          suite t'' (xs ++ ys) (rs ++ rs')
            (subst (λ logs. laws.Abs t''.backend (record view { logs = logs }))
              (sym (logs_after-append xs ys view.logs)) a)
            (AllDescribe-append printer fl with_overhead o low high config xs ys rs rs'
              (AllDescribe-wider printer fl with_overhead o low (low + 1) low high config
                (omega arith) (omega (arith, l)) xs rs ds)
              (AllDescribe-wider printer fl with_overhead o (low + 1) high low high config
                (omega arith) (omega arith) ys rs' ds'))
            each_tested
            (es'
              ∙ ap (λ s. session_after printer s rs') es
              ∙ sym (session_after-append printer t.session rs rs'))
        where
          first_tested :
              (made_on low (xs ++ ys) ≡ planned config)
              ⊎ ((made_on low (xs ++ ys) ≡ 0) × ((s : b.State) × laws.Full s))
          first_tested =
              let total = made_on-append low xs ys in
              let mine =
                made_on-alone printer fl with_overhead o low (low + 1) config low xs rs refl refl
                  ds in
              let others =
                made_on-outside printer fl with_overhead o (low + 1) high config low ys rs'
                  (inl (omega arith)) ds' in
              elim n [
                | inl all ↦ inl (omega (arith, total, mine, others, all))
                | inr (nothing, full) ↦ inr (omega (arith, total, mine, others, nothing), full)
              ]

          each_tested : EachTested b laws config low high (xs ++ ys)
          each_tested d ge lt = elim (dec_lt low d) [
            | yes more ↦
                let total = made_on-append d xs ys in
                let others =
                  made_on-outside printer fl with_overhead o low (low + 1) config d xs rs
                    (inr (omega (arith, more))) ds in
                elim (each d (omega (arith, more)) lt) [
                  | inl all ↦ inl (omega (arith, total, others, all))
                  | inr (nothing, full) ↦ inr (omega (arith, total, others, nothing), full)
                ]
            | no not_more ↦
                let same : low ≡ d = omega (arith, ge, not_more) in
                subst
                  (λ d.
                    (made_on d (xs ++ ys) ≡ planned config)
                    ⊎ ((made_on d (xs ++ ys) ≡ 0) × ((s : b.State) × laws.Full s)))
                  same first_tested
          ]

      Suite-then :
          (low high : ℕ) (t : Tester printer b) (view : View) (result : Ran (Tester printer b))
          (next : Tester printer b → Ran (Tester printer b))
          → low < high
          → TestedBy printer fl env r b laws o low (low + 1) config v t view result
          → ((t' : Tester printer b) (logs : ℕ → List Transfer)
              → laws.Abs t'.backend (record view { logs = logs })
              → Suite (low + 1) high config t' (record view { logs = logs }) (next t'))
          → Suite low high config t view (and_then result next)
      Suite-then low high t view _ next l (inl (logged t' xs rs a ds e es)) k =
          Suite-after low high t t' view xs rs (next t') l ds (inl e) es
            (k t' (logs_after xs view.logs) a)
      Suite-then low high t view _ next l (inr (logged t' xs rs a ds e es, full)) k =
          Suite-after low high t t' view xs rs (next t') l ds (inr (e, full)) es
            (k t' (logs_after xs view.logs) a)

      pattern_tests_from-Suite :
          (more low high : ℕ) (t : Tester printer b) (view : View)
          → low + more ≡ high
          → high ≤ 8
          → laws.Abs t.backend view
          → Suite low high config t view (pattern_tests_from printer fl env b t config o low more)
      unfolding pattern_tests_from
      pattern_tests_from-Suite zero low high t view e m a =
          suite t [] [] a tt (λ d ge lt. absurd (omega (arith, ge, lt, e)))
            (sym (session_after-none printer t.session))
      pattern_tests_from-Suite (suc more) low high t view e m a =
          Suite-then low high t view (pattern_based_transfer_test printer fl env b t low config o) _
            (omega (arith, e))
            (pattern_based_transfer_test-TestedBy printer fl env r b laws o low (low + 1) config v t
              view low (omega arith) (omega arith) (omega (arith, e, m)) a)
            (λ t' logs a'.
              pattern_tests_from-Suite more (low + 1) high t' (record view { logs = logs })
                (omega (arith, e)) m a')

  pub run_pattern_tests-Suite :
      (b : Backend) (laws : Laws b) (t : Tester printer b) (view : View) (config : TestConfig fl)
      → IsValid fl config
      → laws.Abs t.backend view
      → Suite b laws
          (make_injector fl config)
          0
          config.num_devices
          config.transfer
          t
          view
          (run_pattern_tests printer fl env b t config)
  unfolding run_pattern_tests
  run_pattern_tests-Suite b laws t view config v a =
      pattern_tests_from-Suite b laws (make_injector fl config) config.transfer v.transfers
        config.num_devices 0 config.num_devices t view (omega arith) (omega (arith, v.devices_le)) a
