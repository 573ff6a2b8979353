-- ===== src/Examples/Stress/Starving.antt =====
-- When a thread of the stress test of examples/cpp_test.cpp divides by its number of transfers, 0.
use Prim.Native.Nat.{zero, suc, ◌%◌, ◌^◌}
use pcie_sim.Base.{ℕ, ◌≡◌, ◌⊎◌, subst, sym, ◌∙◌, inl, inr, true, false, List, [], ◌∷◌, Option}
use pcie_sim.Library.Backend.{Backend}
use pcie_sim.Utils.Csv.{Printer}
use pcie_sim.Utils.Config.{Float, TransferConfig}
use pcie_sim.Examples.Tester.{no_average, ran, faulted, ErrorInjector, Env, Tester, ask}
use pcie_sim.Examples.Stress.{Worker, is_ended, with_phase, Phase}
use pcie_sim.Examples.Stress.Scheduler.{step_worker}
use pcie_sim.Examples.Stress.Measure.{Counts, attempts_after, IsIdle}

-- Each thread has made so many attempts.
abbrev pub AllCount : List ℕ → List Worker → Type 0
AllCount [] [] = Unit {0}
AllCount [] (w ∷ ws) = ⊥
AllCount (n ∷ ns) [] = ⊥
AllCount (n ∷ ns) (w ∷ ws) = Counts n w.phase × AllCount ns ws

-- Threads that have not begun.
abbrev pub no_attempts : List Worker → List ℕ
no_attempts [] = []
no_attempts (w ∷ ws) = 0 ∷ no_attempts ws

-- The attempts after a step of the unfinished thread with a number.
abbrev pub counted : List ℕ → List Worker → ℕ → List ℕ
counted [] ws k = []
counted (n ∷ ns) [] k = n ∷ ns
counted (n ∷ ns) (w ∷ ws) k = elim (is_ended w.phase) [
  | true ↦ n ∷ counted ns ws k
  | false ↦ elim k [ zero ↦ attempts_after w.phase n ∷ ns | suc m ↦ n ∷ counted ns ws m ]
]

module _ (printer : Printer) (fl : Float) (env : Env fl) (b : Backend) where
  -- A thread whose time is over has made no attempt, or a multiple of 2 ^ 32.
  abbrev pub AnyIdle : Tester printer b → List ℕ → List Worker → Type 0
  AnyIdle t [] ws = ⊥
  AnyIdle t (n ∷ ns) [] = ⊥
  AnyIdle t (n ∷ ns) (w ∷ ws) =
      (IsIdle printer fl env b t w.phase × (n % 2 ^ 32 ≡ 0)) ⊎ AnyIdle t ns ws

  pub idle_first :
      (t : Tester printer b) (w : Worker) (ws : List Worker) (ns : List ℕ)
      → IsIdle printer fl env b t w.phase
      → AllCount ns (w ∷ ws)
      → AnyIdle t ns (w ∷ ws)
  idle_first t w ws [] i c = absurd c
  idle_first t w ws (n ∷ ns) (l, e, z, over) (c, more) =
      inl ((l, e, z, over), sym (subst (λ p. Counts n p) e c) ∙ z)

  pub idle_later :
      (t : Tester printer b) (w : Worker) (ws : List Worker) (ns : List ℕ)
      → ((ns : List ℕ) → AllCount ns ws → AnyIdle t ns ws)
      → AllCount ns (w ∷ ws)
      → AnyIdle t ns (w ∷ ws)
  idle_later t w ws [] k c = absurd c
  idle_later t w ws (n ∷ ns) k (c, more) = inr (k ns more)

  pub counted_first :
      (w : Worker) (p : Phase) (ws : List Worker) (ns : List ℕ)
      → is_ended w.phase ≡ false
      → ((n : ℕ) → Counts n w.phase → Counts (attempts_after w.phase n) p)
      → AllCount ns (w ∷ ws)
      → AllCount (counted ns (w ∷ ws) 0) (with_phase w p ∷ ws)
  counted_first w p ws [] e k c = absurd c
  counted_first w p ws (n ∷ ns) e k (c, more) = rw (e, AllCount) (k n c, more)

  pub counted_ended :
      (w : Worker) (ws ws' : List Worker) (ns : List ℕ) (m : ℕ)
      → is_ended w.phase ≡ true
      → ((ns : List ℕ) → AllCount ns ws → AllCount (counted ns ws m) ws')
      → AllCount ns (w ∷ ws)
      → AllCount (counted ns (w ∷ ws) m) (w ∷ ws')
  counted_ended w ws ws' [] m e k c = absurd c
  counted_ended w ws ws' (n ∷ ns) m e k (c, more) = rw (e, AllCount) (c, k ns more)

  pub counted_later :
      (w : Worker) (ws ws' : List Worker) (ns : List ℕ) (m : ℕ)
      → is_ended w.phase ≡ false
      → ((ns : List ℕ) → AllCount ns ws → AllCount (counted ns ws m) ws')
      → AllCount ns (w ∷ ws)
      → AllCount (counted ns (w ∷ ws) (suc m)) (w ∷ ws')
  counted_later w ws ws' [] m e k c = absurd c
  counted_later w ws ws' (n ∷ ns) m e k (c, more) = rw (e, AllCount) (c, k ns more)

  module _ (seconds : ℕ) (config : TransferConfig) (o : Option (ErrorInjector fl)) where
    -- Steps of the program, from threads with so many attempts, that end with the division by 0 of a
    -- thread whose time is over and that has made no attempt, modulo 2 ^ 32.
    pub data Starves : Tester printer b → List Worker → List ℕ → Type 0 where
      now :
          (t : Tester printer b) (ws : List Worker) (ns : List ℕ) (k : ℕ)
          → step_worker printer fl env b (ask printer fl env b t) seconds config o ws k
            ≡ faulted no_average
          → AnyIdle (ask printer fl env b t) ns ws
          → Starves t ws ns
      after_step :
          (t t' : Tester printer b) (ws ws' : List Worker) (ns : List ℕ) (k : ℕ)
          → step_worker printer fl env b (ask printer fl env b t) seconds config o ws k
            ≡ ran (t', ws')
          → Starves t' ws' (counted ns ws k)
          → Starves t ws ns
