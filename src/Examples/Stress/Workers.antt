-- ===== src/Examples/Stress/Workers.antt =====
-- The threads of the stress test of examples/cpp_test.cpp together, in any order of their steps.
use native.Mathlib.Nat.{mod-lt}
use Prim.Native.Nat.{zero, suc}
use pcie_sim.Base.{
  ℕ, ◌+◌, ◌≤◌, ◌≡◌, refl, sym, ◌∙◌, ap, inl, inr, List, [], ◌++◌, Option, arith, subst, Bool-cases,
  ◌==◌,
}
use pcie_sim.Sim.Linux.History.{Transfer}
use pcie_sim.Library.Backend.{Backend, Laws}
use pcie_sim.Library.Device.Owners.{times}
use pcie_sim.Utils.Csv.{Printer, TransferRecord}
use pcie_sim.Utils.Config.{Float, TransferConfig}
use pcie_sim.Utils.Config.Validity.{IsTransfer}
use pcie_sim.Examples.Tester.{
  no_average, Ran, ran, faulted, and_then, ErrorInjector, Env, IsEnv, Tester, ask,
}
use pcie_sim.Examples.Records.{
  session_after, session_after-none, session_after-append, AllDescribe, AllDescribe-append,
  logs_after, logs_after-append,
}
use pcie_sim.Examples.Stress.{Worker}
use pcie_sim.Examples.Stress.Scheduler.{unfinished_workers, step_worker, next_turn, run_workers}
use pcie_sim.Examples.Stress.Measure.{weigh, weigh-append, IsPaced}
use pcie_sim.Examples.Stress.Together.{
  steps_of, owned_by, pending_of, unfinished-le, all_ended, AllGood as AllGoodIn,
}
use pcie_sim.Examples.Stress.Starving.{AllCount, counted, Starves, now, after_step}
use pcie_sim.Examples.Stress.Advance.{
  Advance as AdvanceIn, Advanced as AdvancedIn, starved, advanced, step_worker-Advanced,
}

module _ (printer : Printer) (fl : Float) (env : Env fl) (r : IsEnv fl env) where
  module _ (o : Option (ErrorInjector fl)) (low high : ℕ) (config : TransferConfig) where
    abbrev AllGood : (ℕ → Option ℕ) → List Worker → Type 0
    AllGood = AllGoodIn printer fl env r o low high config

    module _ (b : Backend) (laws : Laws b) (seconds : ℕ) where
      abbrev Advance :
          (ℕ → ℕ)
          → Tester printer b
          → (ℕ → Option ℕ)
          → (ℕ → List Transfer)
          → List Worker
          → Tester printer b
          → List Worker
          → Type 0
      Advance = AdvanceIn printer fl env r o low high config b laws seconds

      abbrev Advanced :
          (ℕ → ℕ)
          → Tester printer b
          → (ℕ → Option ℕ)
          → (ℕ → List Transfer)
          → List Worker
          → ℕ
          → Ran (Tester printer b × List Worker)
          → Type 0
      Advanced = AdvancedIn printer fl env r o low high config b laws seconds

      -- All threads have ended, or one had no transfer whose latency it could average.
      pub data Ended (E : Type 0) (g : ℕ → ℕ) (t : Tester printer b) (handles : ℕ → Option ℕ)
          (logs : ℕ → List Transfer) (ws : List Worker) : Ran (Tester printer b) → Type 0 where
        starving : E → Ended E g t handles logs ws (faulted no_average)
        ending :
            (t' : Tester printer b) (handles' : ℕ → Option ℕ) (xs ys : List (ℕ × Transfer))
            (rs : List (TransferRecord printer))
            → laws.Abs t'.backend (record { handles = handles'; logs = logs_after xs logs })
            → ((q : ℕ) → g q ≡ times (handles' q))
            → ((q : ℕ) → 1 ≤ g q → handles' q ≡ handles q)
            → ((f : ℕ × Transfer → ℕ) → weigh f xs + pending_of f ws ≡ weigh f ys)
            → AllDescribe printer fl (λ l. l) o low high config ys rs
            → t'.session ≡ session_after printer t.session rs
            → Ended E g t handles logs ws (ran t')

      Ended-after :
          (E : Type 0) (g : ℕ → ℕ) (t t' : Tester printer b) (handles : ℕ → Option ℕ)
          (logs : ℕ → List Transfer) (ws ws' : List Worker) (a : Advance g t handles logs ws t' ws')
          (s : Ran (Tester printer b))
          → Ended E g t' a.handles' (logs_after a.transfers logs) ws' s
          → Ended E g t handles logs ws s
      Ended-after E g t t' handles logs ws ws' a _ (starving x) = starving x
      Ended-after E g t t' handles logs ws ws' a _
            (ending t'' handles'' xs ys rs a' own same w ds es) =
          ending t'' handles'' (a.transfers ++ xs) (a.described ++ ys) (a.records ++ rs)
            (subst (λ logs'. laws.Abs t''.backend (record { handles = handles''; logs = logs' }))
              (sym (logs_after-append a.transfers xs logs)) a')
            own (λ q l. same q l ∙ a.others q l)
            (λ f. omega (
              arith,
              weigh-append f a.transfers xs,
              weigh-append f a.described ys,
              w f,
              a.weights f,
            ))
            (AllDescribe-append printer fl (λ l. l) o low high config a.described ys a.records rs
              a.describe ds)
            (es
              ∙ ap (λ s. session_after printer s rs) a.session
              ∙ sym (session_after-append printer t.session a.records rs))

      stop :
          (E : Type 0) (g : ℕ → ℕ) (t : Tester printer b) (handles : ℕ → Option ℕ)
          (logs : ℕ → List Transfer) (ws : List Worker)
          → unfinished_workers ws ≡ 0
          → laws.Abs t.backend (record { handles = handles; logs = logs })
          → ((q : ℕ) → owned_by q ws + g q ≡ times (handles q))
          → Ended E g t handles logs ws (ran t)
      stop E g t handles logs ws e a own =
          let (none_owned, none_pending) = all_ended ws e in
          ending t handles [] [] [] a (λ q. omega (arith, own q, none_owned q)) (λ q l. refl)
            (λ f. omega (arith, none_pending f)) tt (sym (session_after-none printer t.session))

      -- Only the session counts, of the state before.
      restart :
          (E : Type 0) (g : ℕ → ℕ) (t t' : Tester printer b) (handles : ℕ → Option ℕ)
          (logs : ℕ → List Transfer) (ws : List Worker) (s : Ran (Tester printer b))
          → t'.session ≡ t.session
          → Ended E g t' handles logs ws s
          → Ended E g t handles logs ws s
      restart E g t t' handles logs ws _ e (starving x) = starving x
      restart E g t t' handles logs ws _ e (ending t'' handles'' xs ys rs a own same w ds es) =
          ending t'' handles'' xs ys rs a own same w ds
            (es ∙ ap (λ s. session_after printer s rs) e)

      abbrev Starved : Tester printer b → List Worker → List ℕ → Type 0
      Starved = Starves printer fl env b seconds config o

      starved_before :
          (E E' : Type 0) (g : ℕ → ℕ) (t : Tester printer b) (handles : ℕ → Option ℕ)
          (logs : ℕ → List Transfer) (ws : List Worker) (s : Ran (Tester printer b))
          → (E → E')
          → Ended E g t handles logs ws s
          → Ended E' g t handles logs ws s
      starved_before E E' g t handles logs ws _ k (starving x) = starving (k x)
      starved_before E E' g t handles logs ws _ k (ending t' handles' xs ys rs a own same w ds es) =
          ending t' handles' xs ys rs a own same w ds es

      module _ (v : IsTransfer config) (paced : IsPaced config) where
        go_on :
            (steps : ℕ) (g : ℕ → ℕ) (t₀ : Tester printer b) (handles : ℕ → Option ℕ)
            (logs : ℕ → List Transfer) (ws : List Worker) (ns : List ℕ) (k : ℕ)
            (s : Ran (Tester printer b × List Worker))
            (next : Tester printer b × List Worker → Ran (Tester printer b))
            → step_worker printer fl env b (ask printer fl env b t₀) seconds config o ws k ≡ s
            → AllCount ns ws
            → steps_of seconds t₀.time ws ≤ suc steps
            → Advanced g (ask printer fl env b t₀) handles logs ws k s
            → ((t' : Tester printer b) (ws' : List Worker) (ns' : List ℕ) (handles' : ℕ → Option ℕ)
                  (logs' : ℕ → List Transfer)
                → AllCount ns' ws'
                → steps_of seconds t'.time ws' ≤ steps
                → laws.Abs t'.backend (record { handles = handles'; logs = logs' })
                → ((q : ℕ) → owned_by q ws' + g q ≡ times (handles' q))
                → AllGood handles' ws'
                → Ended (Starved t' ws' ns') g t' handles' logs' ws' (next (t', ws')))
            → Ended (Starved t₀ ws ns) g (ask printer fl env b t₀) handles logs ws (and_then s next)
        go_on steps g t₀ handles logs ws ns n _ next e c l (starved i) k =
            starving (now t₀ ws ns n e (i ns c))
        go_on steps g t₀ handles logs ws ns n _ next e c l (advanced t' ws' a h) k =
            Ended-after (Starved t₀ ws ns) g (ask printer fl env b t₀) t' handles logs ws ws' a
              (next (t', ws'))
              (starved_before (Starved t' ws' (counted ns ws n)) (Starved t₀ ws ns) g t' a.handles'
                (logs_after a.transfers logs) ws' (next (t', ws'))
                (λ x. after_step t₀ t' ws ws' ns n e x)
                (k t' ws' (counted ns ws n) a.handles' (logs_after a.transfers logs) (h ns c)
                  (omega (arith, l, a.fewer)) a.stands_for a.owners a.good))

        pub run_workers-Ended :
            (steps : ℕ) (g : ℕ → ℕ) (t : Tester printer b) (handles : ℕ → Option ℕ)
            (logs : ℕ → List Transfer) (ws : List Worker) (ns : List ℕ)
            → AllCount ns ws
            → steps_of seconds t.time ws ≤ steps
            → laws.Abs t.backend (record { handles = handles; logs = logs })
            → ((q : ℕ) → owned_by q ws + g q ≡ times (handles q))
            → AllGood handles ws
            → Ended
                (Starves printer fl env b seconds config o t ws ns)
                g
                t
                handles
                logs
                ws
                (run_workers printer fl env b steps t seconds config o ws)
        unfolding run_workers
        run_workers-Ended zero g t handles logs ws ns c l a own goods =
            let e : unfinished_workers ws ≡ 0 = omega (arith, l, unfinished-le seconds t.time ws) in
            rw e (stop (Starved t ws ns) g t handles logs ws e a own)
        run_workers-Ended (suc steps) g t handles logs ws ns c l a own goods =
            elim (Bool-cases (unfinished_workers ws == 0)) [
              | inl over ↦
                  rw (over, run_workers)
                    (stop (Starved t ws ns) g t handles logs ws (ground (arith, over)) a own)
              | inr on ↦
                  let n = next_turn (env.turn t.asked) (unfinished_workers ws) in
                  let asked = ask printer fl env b t in
                  rw (on, run_workers)
                    (restart (Starved t ws ns) g t asked handles logs ws _ refl (
                      go_on steps g t handles logs ws ns n
                        (step_worker printer fl env b asked seconds config o ws n) _ refl c l
                        (step_worker-Advanced printer fl env r o low high config b laws seconds v
                          paced asked handles logs ws n g
                          (mod-lt (env.turn t.asked) (ground (arith, on))) a own goods)
                        (λ t' ws' ns' handles' logs' c'.
                          run_workers-Ended steps g t' handles' logs' ws' ns' c')))
            ]
