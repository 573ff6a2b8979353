-- ===== src/Examples/Stress/Advance.antt =====
-- A step of one of the threads of the stress test of examples/cpp_test.cpp, beside the others.
use Prim.Native.Nat.{zero, suc}
use pcie_sim.Base.{
  false, ℕ, ◌+◌, ◌≤◌, ◌<◌, ◌≡◌, refl, inl, inr, List, [], ◌∷◌, Option, arith, Bool-cases,
}
use pcie_sim.Sim.Linux.History.{Transfer}
use pcie_sim.Library.Backend.{Backend, Laws}
use pcie_sim.Library.Device.Owners.{times}
use pcie_sim.Utils.Csv.{Printer, TransferRecord}
use pcie_sim.Utils.Config.{Float, TransferConfig}
use pcie_sim.Utils.Config.Validity.{IsTransfer}
use pcie_sim.Examples.Tester.{
  no_average, Ran, ran, faulted, and_then, ErrorInjector, Env, IsEnv, Tester,
}
use pcie_sim.Examples.Records.{session_after, AllDescribe, logs_after}
use pcie_sim.Examples.Stress.{Phase, Worker, is_ended, with_phase, stress_test_worker}
use pcie_sim.Examples.Stress.Scheduler.{unfinished_workers, step_worker}
use pcie_sim.Examples.Stress.Measure.{steps_left_mono, weigh, IsPaced, owned}
use pcie_sim.Examples.Stress.Progress.{Stepped, idle, stepped}
use pcie_sim.Examples.Stress.Steps.{stress_test_worker-Stepped}
use pcie_sim.Examples.Stress.Starving.{
  AllCount, counted, AnyIdle, idle_first, idle_later, counted_first, counted_ended, counted_later,
}
use pcie_sim.Examples.Stress.Together.{
  steps_of, steps_of_mono, owned_by, pending_of, AllGood as AllGoodIn, Good-kept, AllGood-kept,
}

module _ (printer : Printer) (fl : Float) (env : Env fl) (r : IsEnv fl env) where
  module _ (o : Option (ErrorInjector fl)) (low high : ℕ) (config : TransferConfig) where
    abbrev AllGood : (ℕ → Option ℕ) → List Worker → Type 0
    AllGood = AllGoodIn printer fl env r o low high config

    module _ (b : Backend) (laws : Laws b) (seconds : ℕ) where
      -- A step of one of several threads, beside others that own so much.
      pub record Advance (g : ℕ → ℕ) (t : Tester printer b) (handles : ℕ → Option ℕ)
          (logs : ℕ → List Transfer) (ws : List Worker) (t' : Tester printer b) (ws' : List Worker)
          : Type 0 where
        pub handles' : ℕ → Option ℕ
        pub transfers : List (ℕ × Transfer)
        pub described : List (ℕ × Transfer)
        pub records : List (TransferRecord printer)
        pub stands_for :
            laws.Abs t'.backend (record { handles = handles'; logs = logs_after transfers logs })
        pub owners : (q : ℕ) → owned_by q ws' + g q ≡ times (handles' q)
        pub others : (q : ℕ) → 1 ≤ g q → handles' q ≡ handles q
        pub good : AllGood handles' ws'
        pub weights :
            (f : ℕ × Transfer → ℕ)
            → weigh f transfers + pending_of f ws ≡ weigh f described + pending_of f ws'
        pub describe : AllDescribe printer fl (λ l. l) o low high config described records
        pub session : t'.session ≡ session_after printer t.session records
        pub later : t.time ≤ t'.time
        pub fewer : steps_of seconds t'.time ws' < steps_of seconds t.time ws

      pub data Advanced (g : ℕ → ℕ) (t : Tester printer b) (handles : ℕ → Option ℕ)
          (logs : ℕ → List Transfer) (ws : List Worker) (k : ℕ)
          : Ran (Tester printer b × List Worker) → Type 0 where
        starved :
            ((ns : List ℕ) → AllCount ns ws → AnyIdle printer fl env b t ns ws)
            → Advanced g t handles logs ws k (faulted no_average)
        advanced :
            (t' : Tester printer b) (ws' : List Worker)
            → Advance g t handles logs ws t' ws'
            → ((ns : List ℕ) → AllCount ns ws → AllCount (counted ns ws k) ws')
            → Advanced g t handles logs ws k (ran (t', ws'))

      module _ (v : IsTransfer config) (paced : IsPaced config) (t : Tester printer b)
          (handles : ℕ → Option ℕ) (logs : ℕ → List Transfer) where
        -- The first thread steps.
        first :
            (w : Worker) (ws : List Worker) (g g' : ℕ → ℕ) (s : Ran (Tester printer b × Phase))
            → ((q : ℕ) → g' q ≡ owned_by q ws + g q)
            → is_ended w.phase ≡ false
            → AllGood handles (w ∷ ws)
            → Stepped printer fl env r o low high config b laws seconds g' t handles logs
                w.device_id w.phase s
            → Advanced g t handles logs
                (w ∷ ws)
                0
                (and_then s (λ (t', p). ran (t', with_phase w p ∷ ws)))
        first w ws g g' _ e on goods (idle i) =
            starved (λ ns c. idle_first printer fl env b t w ws ns i c)
        first w ws g g' _ e on ((good, lo, hi, m), goods) (stepped t' p' a) =
            advanced t' (with_phase w p' ∷ ws)
              (record {
                handles' = a.handles';
                transfers = a.transfers;
                described = a.described;
                records = a.records;
                stands_for = a.stands_for;
                owners = (λ q. omega (arith, a.owners q, e q));
                others = (λ q l. a.others q (omega (arith, l, e q)));
                good = (
                  (a.good, lo, hi, m),
                  AllGood-kept printer fl env r o low high config handles a.handles' ws
                      (λ q l. a.others q (omega (arith, l, e q))) goods,
                );
                weights = (λ f. omega (arith, a.weights f));
                describe = a.describe;
                session = a.session;
                later = a.later;
                fewer = omega (arith, a.fewer, steps_of_mono seconds t.time t'.time ws a.later);
              })
              (λ ns c. counted_first printer fl env b w p' ws ns on a.counts c)

        -- Another thread steps.
        rest :
            (w : Worker) (ws : List Worker) (k k' : ℕ) (g g' : ℕ → ℕ)
            (s : Ran (Tester printer b × List Worker))
            → ((ns : List ℕ) (ws' : List Worker)
                → ((ns : List ℕ) → AllCount ns ws → AllCount (counted ns ws k) ws')
                → AllCount ns (w ∷ ws)
                → AllCount (counted ns (w ∷ ws) k') (w ∷ ws'))
            → ((q : ℕ) → g' q ≡ owned q w.phase + g q)
            → AllGood handles (w ∷ ws)
            → Advanced g' t handles logs ws k s
            → Advanced g t handles logs (w ∷ ws) k' (and_then s (λ (t', ws'). ran (t', w ∷ ws')))
        rest w ws k k' g g' _ counts e goods (starved i) =
            starved (λ ns c. idle_later printer fl env b t w ws ns i c)
        rest w ws k k' g g' _ counts e ((good, lo, hi, m), goods) (advanced t' ws' a h) =
            advanced t' (w ∷ ws')
              (record {
                handles' = a.handles';
                transfers = a.transfers;
                described = a.described;
                records = a.records;
                stands_for = a.stands_for;
                owners = (λ q. omega (arith, a.owners q, e q));
                others = (λ q l. a.others q (omega (arith, l, e q)));
                good = (
                  (
                    Good-kept printer fl env r o low high config handles a.handles' w.device_id
                        w.phase (λ q l. a.others q (omega (arith, l, e q))) good,
                    lo,
                    hi,
                    m,
                  ),
                  a.good,
                );
                weights = (λ f. omega (arith, a.weights f));
                describe = a.describe;
                session = a.session;
                later = a.later;
                fewer =
                    omega (arith, a.fewer, steps_left_mono seconds t.time t'.time w.phase a.later);
              })
              (λ ns c. counts ns ws' h c)

        pub step_worker-Advanced :
            (ws : List Worker) (n : ℕ) (g : ℕ → ℕ)
            → n < unfinished_workers ws
            → laws.Abs t.backend (record { handles = handles; logs = logs })
            → ((q : ℕ) → owned_by q ws + g q ≡ times (handles q))
            → AllGood handles ws
            → Advanced g t handles logs ws n (step_worker printer fl env b t seconds config o ws n)
        unfolding step_worker
        step_worker-Advanced [] n g l a own goods = absurd (omega (arith, l))
        step_worker-Advanced (w ∷ ws) zero g l a own goods = elim (Bool-cases (is_ended w.phase)) [
          | inl over ↦
              let g' = λ (q : ℕ). owned q w.phase + g q in
              rw (over, step_worker)
                (rest w ws 0 0 g g' (step_worker printer fl env b t seconds config o ws 0)
                  (λ ns ws' h c. counted_ended printer fl env b w ws ws' ns 0 over h c) (λ q. refl)
                  goods
                  (step_worker-Advanced ws 0 g' (ground (arith, l, over)) a
                    (λ q. omega (arith, own q)) goods.1))
          | inr on ↦
              let g' = λ (q : ℕ). owned_by q ws + g q in
              let (good, lo, hi, m) = goods.0 in
              rw (on, step_worker)
                (first w ws g g' (stress_test_worker printer fl env b t seconds config o w)
                  (λ q. refl) on goods
                  (stress_test_worker-Stepped printer fl env r o low high config b laws seconds g' t
                    handles logs w.device_id w v paced refl lo hi m on a (λ q. omega (arith, own q))
                    good))
        ]
        step_worker-Advanced (w ∷ ws) (suc n) g l a own goods =
            let g' = λ (q : ℕ). owned q w.phase + g q in
            elim (Bool-cases (is_ended w.phase)) [
              | inl over ↦
                  rw (over, step_worker)
                    (rest w ws (suc n) (suc n) g g'
                      (step_worker printer fl env b t seconds config o ws (suc n))
                      (λ ns ws' h c. counted_ended printer fl env b w ws ws' ns (suc n) over h c)
                      (λ q. refl) goods
                      (step_worker-Advanced ws (suc n) g' (ground (arith, l, over)) a
                        (λ q. omega (arith, own q)) goods.1))
              | inr on ↦
                  rw (on, step_worker)
                    (rest w ws n (suc n) g g' (step_worker printer fl env b t seconds config o ws n)
                      (λ ns ws' h c. counted_later printer fl env b w ws ws' ns n on h c)
                      (λ q. refl) goods
                      (step_worker-Advanced ws n g' (ground (arith, l, on)) a
                        (λ q. omega (arith, own q)) goods.1))
            ]
