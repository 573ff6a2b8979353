-- ===== src/Examples/Logging.antt =====
-- The error injector of examples/cpp_test.cpp, and its calls of the session's log.
use Prim.Native.String.{String}
use pcie_sim.Base.{
  ℕ, ◌≤◌, ◌<◌, ◌≡◌, refl, inl, inr, [], ◌∷◌, Option, none, some, arith, Bool-cases, Option-cases,
}
use pcie_sim.Sim.Linux.History.{Transfer}
use pcie_sim.Library.Backend.{Backend}
use pcie_sim.Utils.Csv.{Printer, TransferRecord, session_log}
use pcie_sim.Utils.Csv.Session.{session_logs}
use pcie_sim.Utils.Config.{Float, TransferConfig}
use pcie_sim.Examples.Tester.{
  ErrorInjector, Env, Tester, read_clock, ask, should_inject_error, choose_injector, entry_at,
  log_to_session,
}
use pcie_sim.Examples.Records.{session_after, Timed, Describes}

module _ (printer : Printer) (fl : Float) (env : Env fl) (b : Backend) where
  open printer use {double}
  open double use {whole, over}

  -- An injector that injects is the one that there is, and nothing else changes.
  pub choose_injector_lem :
      (t : Tester printer b) (o : Option (ErrorInjector fl))
      → (t' : Tester printer b) × (o' : Option (ErrorInjector fl)) × (choose_injector printer fl env
            b t o
          ≡ (t', o'))
        × (t'.backend ≡ t.backend)
        × (t'.session ≡ t.session)
        × (t.time ≤ t'.time)
        × ((i : ErrorInjector fl) → o' ≡ some i → o ≡ some i)
  unfolding choose_injector
  choose_injector_lem t none = (t, none, refl, refl, refl, omega arith, λ i e. e)
  choose_injector_lem t (some i) = elim (Bool-cases (should_inject_error printer fl env b t i)) [
    | inl e ↦ (ask printer fl env b t, some i, rw e refl, refl, refl, omega arith, λ j e'. e')
    | inr e ↦
        (ask printer fl env b t, none, rw e refl, refl, refl, omega arith, λ j e'. absurd (cc e'))
  ]

  -- A log entry of a transfer changes the session alone.
  pub log_to_session_lem :
      (overhead : ℕ → ℕ) (t : Tester printer b) (o : Option (ErrorInjector fl))
      (low high device_id : ℕ) (config : TransferConfig) (x : Transfer) (latency_ns : ℕ)
      (status : String) (thread_id : ℕ)
      → low ≤ device_id
      → device_id < high
      → config.min_size ≤ x.size
      → x.size ≤ config.max_size
      → Timed printer fl overhead o x.latency status (over (whole latency_ns) (whole 1000))
      → (t' : Tester printer b) × (r : TransferRecord printer) × (log_to_session printer fl env b t
            device_id x.size latency_ns status thread_id
          ≡ t')
        × (t'.backend ≡ t.backend)
        × (t'.session ≡ session_after printer t.session (r ∷ []))
        × (t.time ≤ t'.time)
        × Describes printer fl overhead o low high config (device_id, x) r
  unfolding log_to_session session_logs
  log_to_session_lem overhead t o low high device_id config x latency_ns status thread_id l u l' u'
        timed =
      let describe : (now : ℕ)
          → Describes printer fl overhead o low high config (device_id, x)
              (entry_at printer fl env b now device_id x.size latency_ns status thread_id) =
        λ now. record {
          device = refl;
          device_ge = l;
          device_lt = u;
          size = refl;
          size_ge = l';
          size_le = u';
          to_device = refl;
          timed = timed;
        } in
      elim (Option-cases t.session) [
        | inl e ↦ (
          t,
          entry_at printer fl env b 0 device_id x.size latency_ns status thread_id,
          rw e refl,
          refl,
          rw e refl,
          omega arith,
          describe 0,
        )
        | inr (s, e) ↦
            let t' = read_clock printer fl env b t in
            let entry =
              entry_at printer fl env b t'.time device_id x.size latency_ns status thread_id in
            let logging : Tester printer b = record t' {
              session = some (session_log printer s entry);
            } in
            (logging, entry, rw e refl, refl, rw e refl, omega arith, describe t'.time)
      ]
