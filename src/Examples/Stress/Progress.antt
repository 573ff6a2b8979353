-- ===== src/Examples/Stress/Progress.antt =====
-- What a step of a thread of the stress test of examples/cpp_test.cpp leaves, beside the others.
use Prim.Native.String.{String}
use pcie_sim.Base.{ℕ, ◌+◌, ◌≤◌, ◌<◌, ◌≡◌, refl, sym, ◌∙◌, List, [], Option, some}
use pcie_sim.Sim.Linux.History.{Transfer}
use pcie_sim.Library.Backend.{Backend, Laws}
use pcie_sim.Library.Device.Owners.{times}
use pcie_sim.Utils.Csv.{Printer, TransferRecord}
use pcie_sim.Utils.Config.{Float, TransferConfig}
use pcie_sim.Examples.Tester.{no_average, Ran, ran, faulted, ErrorInjector, Env, IsEnv, Tester}
use pcie_sim.Examples.Records.{session_after, session_after-none, Timed, AllDescribe, logs_after}
use pcie_sim.Examples.Stress.{Loop, Phase, starting, testing, attempting, recording, resting, ended}
use pcie_sim.Examples.Stress.Measure.{
  steps_left, weigh, owned, pending, Counts, attempts_after, IsIdle,
}

module _ (printer : Printer) (fl : Float) (env : Env fl) (r : IsEnv fl env) where
  open printer use {double}
  open double use {whole, over}

  module _ (o : Option (ErrorInjector fl)) (low high : ℕ) (config : TransferConfig) where
    abbrev pub Latency : ℕ → String → ℕ → Type 0
    Latency latency status counted =
        Timed printer fl (λ l. l) o latency status (over (whole counted) (whole 1000))

    abbrev pub Sized : ℕ → Type 0
    Sized size = (config.min_size ≤ size) × (size ≤ config.max_size)

    -- The device is open under the handle.
    abbrev pub Named : (ℕ → Option ℕ) → ℕ → Loop → Type 0
    Named handles d l = (p : ℕ) × (l.device.handle ≡ some p) × (handles p ≡ some d)

    -- What holds where a thread stands.
    abbrev pub Good : (ℕ → Option ℕ) → ℕ → Phase → Type 0
    Good handles d starting = Unit {0}
    Good handles d (testing l) = Named handles d l
    Good handles d (attempting l size status time) =
        Named handles d l × Sized size × ((latency : ℕ) → Latency latency status latency)
    Good handles d (recording l size status latency) =
        Named handles d l × Sized size × Latency latency status latency
    Good handles d (resting l time) = Named handles d l
    Good handles d ended = Unit {0}

    module _ (b : Backend) (laws : Laws b) (seconds : ℕ) (g : ℕ → ℕ) where
      -- A step of a thread, beside others that own so much.
      pub record Progress (t : Tester printer b) (handles : ℕ → Option ℕ) (logs : ℕ → List Transfer)
          (d : ℕ) (p : Phase) (t' : Tester printer b) (p' : Phase) : Type 0 where
        pub handles' : ℕ → Option ℕ
        pub transfers : List (ℕ × Transfer)
        pub described : List (ℕ × Transfer)
        pub records : List (TransferRecord printer)
        pub stands_for :
            laws.Abs t'.backend (record { handles = handles'; logs = logs_after transfers logs })
        pub owners : (q : ℕ) → owned q p' + g q ≡ times (handles' q)
        pub others : (q : ℕ) → 1 ≤ g q → handles' q ≡ handles q
        pub good : Good handles' d p'
        pub weights :
            (f : ℕ × Transfer → ℕ)
            → weigh f transfers + weigh f (pending d p) ≡ weigh f described + weigh f (pending d p')
        pub describe : AllDescribe printer fl (λ l. l) o low high config described records
        pub session : t'.session ≡ session_after printer t.session records
        pub later : t.time ≤ t'.time
        pub fewer : steps_left seconds t'.time p' < steps_left seconds t.time p
        pub counts : (n : ℕ) → Counts n p → Counts (attempts_after p n) p'

      -- A thread steps, or it has no transfer whose latency it could average.
      pub data Stepped (t : Tester printer b) (handles : ℕ → Option ℕ) (logs : ℕ → List Transfer)
          (d : ℕ) (p : Phase) : Ran (Tester printer b × Phase) → Type 0 where
        idle : IsIdle printer fl env b t p → Stepped t handles logs d p (faulted no_average)
        stepped :
            (t' : Tester printer b) (p' : Phase)
            → Progress t handles logs d p t' p'
            → Stepped t handles logs d p (ran (t', p'))

      module _ (t : Tester printer b) (handles : ℕ → Option ℕ) (logs : ℕ → List Transfer)
          (d : ℕ) where
        -- A step that changes neither the library nor the log.
        pub quiet :
            (p p' : Phase) (t' : Tester printer b)
            → laws.Abs t'.backend (record { handles = handles; logs = logs })
            → ((q : ℕ) → owned q p' + g q ≡ times (handles q))
            → Good handles d p'
            → pending d p ≡ []
            → pending d p' ≡ []
            → t'.session ≡ t.session
            → t.time ≤ t'.time
            → steps_left seconds t'.time p' < steps_left seconds t.time p
            → ((n : ℕ) → Counts n p → Counts (attempts_after p n) p')
            → Progress t handles logs d p t' p'
        quiet p p' t' a own good e e' es later fewer counts = record {
          handles' = handles;
          transfers = [];
          described = [];
          records = [];
          stands_for = a;
          owners = own;
          others = (λ q l. refl);
          good = good;
          weights = (λ f. rw (e, e') refl);
          describe = tt;
          session = es ∙ sym (session_after-none printer t.session);
          later = later;
          fewer = fewer;
          counts = counts;
        }
