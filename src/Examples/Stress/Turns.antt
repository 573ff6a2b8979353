-- ===== src/Examples/Stress/Turns.antt =====
-- The test of the loop of the stress test of examples/cpp_test.cpp: another round, or the end.
use pcie_sim.Base.{
  ℕ, ◌+◌, ◌*◌, ◌==◌, ◌≤◌, ◌<◌, ◌≡◌, refl, sym, ◌∙◌, inl, inr, List, [], Option, none, some, arith,
  subst, Bool-cases, ltb,
}
use pcie_sim.Sim.Linux.History.{Transfer}
use pcie_sim.Sim.Linux.Calls.{name_at}
use pcie_sim.Library.Backend.{Backend, Laws}
use pcie_sim.Library.Device.{Device, device_drop}
use pcie_sim.Library.Device.Owners.{owns, times, times-closed}
use pcie_sim.Library.Device.Members.{of_handle}
use pcie_sim.Utils.Csv.{Printer}
use pcie_sim.Utils.Config.{Float, TransferConfig}
use pcie_sim.Utils.Config.Validity.{IsTransfer}
use pcie_sim.Examples.Tester.{
  Ran, ran, and_then, defined, get_error_type, error_delay_ms, ErrorInjector, Env, IsEnv, Tester,
  read_clock, ask,
}
use pcie_sim.Examples.Logging.{choose_injector_lem}
use pcie_sim.Examples.Records.{session_after-none, plain, injected}
use pcie_sim.Examples.Stress.{
  Loop, Phase, testing, attempting, ended, average_ns, begin_round, test,
}
use pcie_sim.Examples.Stress.Measure.{owned, average_ns_lem}
use pcie_sim.Examples.Stress.Progress.{
  Named as NamedIn, Sized as SizedIn, Progress as ProgressIn, Stepped as SteppedIn, idle, stepped,
  quiet,
}

module _ (printer : Printer) (fl : Float) (env : Env fl) (r : IsEnv fl env) where
  open printer use {double}
  open double use {whole, over}

  module _ (o : Option (ErrorInjector fl)) (low high : ℕ) (config : TransferConfig) where
    abbrev Named : (ℕ → Option ℕ) → ℕ → Loop → Type 0
    Named = NamedIn printer fl env r o low high config

    abbrev Sized : ℕ → Type 0
    Sized = SizedIn printer fl env r o low high config

    module _ (b : Backend) (laws : Laws b) (seconds : ℕ) (g : ℕ → ℕ) where
      abbrev Stepped :
          Tester printer b
          → (ℕ → Option ℕ)
          → (ℕ → List Transfer)
          → ℕ
          → Phase
          → Ran (Tester printer b × Phase)
          → Type 0
      Stepped = SteppedIn printer fl env r o low high config b laws seconds g

      abbrev Progress :
          Tester printer b
          → (ℕ → Option ℕ)
          → (ℕ → List Transfer)
          → ℕ
          → Phase
          → Tester printer b
          → Phase
          → Type 0
      Progress = ProgressIn printer fl env r o low high config b laws seconds g

      drop_lem :
          (s : b.State) (handles : ℕ → Option ℕ) (logs : ℕ → List Transfer) (p d : ℕ)
          (device : Device)
          → device.handle ≡ some p
          → laws.Abs s (record { handles = handles; logs = logs })
          → handles p ≡ some d
          → (s' : b.State) × (device_drop b s device ≡ some s')
            × laws.Abs s' (record { handles = name_at p none handles; logs = logs })
      unfolding device_drop
      drop_lem s handles logs p d device eh a en =
          let (s', eq, a') =
            laws.closes_lem s (record { handles = handles; logs = logs }) p d a en in
          (s', rw (eh, eq) refl, a')

      module _ (t : Tester printer b) (handles : ℕ → Option ℕ) (logs : ℕ → List Transfer)
          (d : ℕ) where
        -- The device of a thread that ends is closed.
        end-Progress :
            (l : Loop) (t₁ : Tester printer b) (s : b.State) (p : ℕ)
            → l.device.handle ≡ some p
            → handles p ≡ some d
            → ((q : ℕ) → owned q (testing l) + g q ≡ times (handles q))
            → laws.Abs s (record { handles = name_at p none handles; logs = logs })
            → t₁.session ≡ t.session
            → t.time ≤ t₁.time
            → Progress t handles logs d (testing l) (record t₁ { backend = s }) ended
        end-Progress l t₁ s p eh en own a es later =
            let self : (q : ℕ) → owned q (testing l) ≡ owns q (of_handle (some p)) =
              λ q. rw eh refl in
            let closed =
              λ (q : ℕ). times-closed (record { handles = handles; logs = logs }) p d q en in
            record {
              handles' = name_at p none handles;
              transfers = [];
              described = [];
              records = [];
              stands_for = a;
              owners = (λ q. omega (arith, own q, self q, closed q));
              others = (λ q k. elim (Bool-cases (q == p)) [
                | inl same ↦ absurd (ground (arith, own q, self q, closed q, k, same, en))
                | inr apart ↦ rw apart refl
              ]);
              good = tt;
              weights = (λ f. refl);
              describe = tt;
              session = es ∙ sym (session_after-none printer t.session);
              later = later;
              fewer = omega arith;
              counts = (λ n c. tt);
            }

        begin-Progress :
            (l : Loop) (t₂ : Tester printer b) (size : ℕ) (o' : Option (ErrorInjector fl))
            → ((q : ℕ) → owned q (testing l) + g q ≡ times (handles q))
            → Named handles d l
            → Sized size
            → laws.Abs t₂.backend (record { handles = handles; logs = logs })
            → t₂.session ≡ t.session
            → t.time ≤ t₂.time
            → t.time < l.end_time
            → ((i : ErrorInjector fl) → o' ≡ some i → o ≡ some i)
            → Progress t handles logs d (testing l) t₂ (begin_round printer fl env b t₂ l size o')
        begin-Progress l t₂ size none own named sized a es later more only =
            quiet printer fl env r o low high config b laws seconds g t handles logs d (testing l)
              (attempting l size "SUCCESS" t₂.time) t₂ a own (named, sized, λ latency. plain) refl
              refl es later (omega (arith, later, more)) (λ n c. c)
        begin-Progress l t₂ size (some i) own named sized a es later more only =
            quiet printer fl env r o low high config b laws seconds g t handles logs d (testing l)
              (attempting l size (get_error_type fl i) (t₂.time + error_delay_ms fl i * 1000000)) t₂
              a own (named, sized, λ latency. injected i (only i refl)) refl refl es later
              (omega (arith, later, more)) (λ n c. c)

        average-Stepped :
            (l : Loop) (t₁ : Tester printer b)
            → laws.Abs t₁.backend (record { handles = handles; logs = logs })
            → ((q : ℕ) → owned q (testing l) + g q ≡ times (handles q))
            → Named handles d l
            → t₁.session ≡ t.session
            → t.time ≤ t₁.time
            → l.end_time ≤ (read_clock printer fl env b t).time
            → Stepped t handles logs d (testing l) (
                and_then (average_ns l) (λ average.
                  and_then
                    (defined (device_drop b t₁.backend l.device))
                    (λ s. ran (record t₁ { backend = s }, ended))))
        average-Stepped l t₁ a own (p, eh, en) es later over = elim (average_ns_lem l) [
          | inl (none_made, zero_count) ↦ rw none_made (idle (l, refl, zero_count, over))
          | inr (ns, e) ↦
              let (s, eq, a') = drop_lem t₁.backend handles logs p d l.device eh a en in
              rw (e, eq)
                (stepped (record t₁ { backend = s }) ended
                  (end-Progress l t₁ s p eh en own a' es later))
        ]

        pub test-Stepped :
            (l : Loop)
            → IsTransfer config
            → laws.Abs t.backend (record { handles = handles; logs = logs })
            → ((q : ℕ) → owned q (testing l) + g q ≡ times (handles q))
            → Named handles d l
            → Stepped t handles logs d (testing l) (test printer fl env b t config o l)
        unfolding test
        test-Stepped l v a own named =
            let t₁ = read_clock printer fl env b t in
            elim (Bool-cases (ltb t₁.time l.end_time)) [
              | inl more ↦
                  let (t₂, o', e, eb, es, later, only) =
                    choose_injector_lem printer fl env b (ask printer fl env b t₁) o in
                  let size = env.draw t₁.asked config.min_size config.max_size in
                  let ge = r.draw_ge t₁.asked config.min_size config.max_size v.ordered in
                  let le = r.draw_le t₁.asked config.min_size config.max_size v.ordered in
                  rw (more, e)
                    (stepped t₂ (begin_round printer fl env b t₂ l size o') (
                      begin-Progress l t₂ size o' own named (ge, le)
                        (subst (λ s. laws.Abs s (record { handles = handles; logs = logs }))
                          (sym eb) a)
                        es (omega (arith, later)) (ground (arith, more)) only))
              | inr over ↦
                  rw over
                    (average-Stepped l t₁ a own named refl (omega arith) (ground (arith, over)))
            ]
