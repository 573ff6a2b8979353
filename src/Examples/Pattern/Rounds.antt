-- ===== src/Examples/Pattern/Rounds.antt =====
-- One transfer of a test of examples/cpp_test.cpp, and a loop of them.
use Prim.Native.Nat.{zero, suc, ◌%◌, ◌^◌}
use pcie_sim.Base.{
  ℕ, ◌+◌, ◌*◌, ◌≤◌, ◌<◌, ◌≡◌, ◌≢◌, refl, sym, ◌∙◌, inl, inr, [], ◌∷◌, Option, none, some, ltb,
  arith, u64, Bool-cases, subst, ap, if◌then◌else◌,
}
use pcie_sim.Api.{to_device}
use pcie_sim.Sim.Linux.History.{Transfer}
use pcie_sim.Sim.Linux.Calls.{View, log_at}
use pcie_sim.Library.Backend.{Backend, Laws}
use pcie_sim.Library.Device.{transfer, write}
use pcie_sim.Library.Device.Members.{of_handle}
use pcie_sim.Utils.Csv.{Printer}
use pcie_sim.Utils.Config.{Float, TransferConfig}
use pcie_sim.Utils.Config.Validity.{IsTransfer}
use pcie_sim.Examples.Tester.{
  ran, ErrorInjector, Env, IsEnv, get_error_type, Tester, Attempt, read_clock, sleep_for, ask,
  simulate_error_delay,
}
use pcie_sim.Examples.Logging.{choose_injector_lem, log_to_session_lem}
use pcie_sim.Examples.Records.{
  session_after, session_after-none, Timed, plain, injected, Logged, logged, Logged-then, Logged-eq,
}
use pcie_sim.Examples.Pattern.{
  with_overhead, finish_attempt, attempt, transfer_round, transfer_rounds,
}

module _ (printer : Printer) (fl : Float) (env : Env fl) (b : Backend) where
  open printer use {double}
  open double use {whole, over}

  module _ (laws : Laws b) where
    -- An attempt with an open device succeeds, and the device measures it.
    pub attempt_lem :
        (t : Tester printer b) (view : View) (p d size : ℕ) (o o' : Option (ErrorInjector fl))
        → laws.Abs t.backend view
        → view.handles p ≡ some d
        → u64 (size * 1) ≡ size
        → size ≢ 0
        → ((i : ErrorInjector fl) → o' ≡ some i → o ≡ some i)
        → (a : Attempt printer b) × (latency : ℕ) × (attempt printer fl env b t
              (of_handle (some p))
              size
              o'
            ≡ ran a)
          × laws.Abs a.tester.backend (record view {
            logs = log_at d (record { size = size; latency = latency } ∷ view.logs d) view.logs;
          })
          × (a.tester.session ≡ t.session)
          × Timed printer fl with_overhead o latency a.status
              (over (whole a.latency_ns) (whole 1000))
    unfolding attempt write transfer finish_attempt simulate_error_delay
    attempt_lem t view p d size o none a h e ne only =
        let (s', latency, eq, a') = laws.transfers_lem t.backend view p d size to_device a h ne in
        let started = read_clock printer fl env b t in
        let at : Attempt printer b = record {
          tester = (record started { backend = s' });
          status = "SUCCESS";
          latency_ns = latency;
        } in
        (at, latency, rw (e, eq) refl, a', refl, plain)
    attempt_lem t view p d size o (some i) a h e ne only =
        let (s', latency, eq, a') = laws.transfers_lem t.backend view p d size to_device a h ne in
        let delayed = simulate_error_delay printer fl env b (read_clock printer fl env b t) i in
        let at : Attempt printer b = record {
          tester = (record delayed { backend = s' });
          status = get_error_type fl i;
          latency_ns = with_overhead latency;
        } in
        (at, latency, rw (e, eq) refl, a', refl, injected i (only i refl))

    module _ (r : IsEnv fl env) where
      round_size :
          (config : TransferConfig) (n : ℕ)
          → IsTransfer config
          → let size = env.draw n config.min_size config.max_size in
            (u64 (size * 1) ≡ size)
            × (size ≢ 0)
            × (config.min_size ≤ size)
            × (size ≤ config.max_size)
      round_size config n v =
          let l = r.draw_ge n config.min_size config.max_size v.ordered in
          let u = r.draw_le n config.min_size config.max_size v.ordered in
          (omega (arith, u, v.max_le), (λ e. absurd (omega (arith, e, l, v.min_ge))), l, u)

      -- The pause after a transfer changes the time alone.
      pause_lem :
          (t : Tester printer b) (delay_us : ℕ)
          → (t' : Tester printer b) × ((if ltb 0 delay_us
                then sleep_for printer fl env b t delay_us
                else t)
              ≡ t')
            × (t'.backend ≡ t.backend)
            × (t'.session ≡ t.session)
      pause_lem t delay_us = elim (Bool-cases (ltb 0 delay_us)) [
        | inl e ↦ (sleep_for printer fl env b t delay_us, rw e refl, refl, refl)
        | inr e ↦ (t, rw e refl, refl, refl)
      ]

      transfer_round-Logged :
          (t : Tester printer b) (view : View) (p d low high : ℕ) (config : TransferConfig)
          (o : Option (ErrorInjector fl)) (delay_us : ℕ)
          → low ≤ d
          → d < high
          → IsTransfer config
          → laws.Abs t.backend view
          → view.handles p ≡ some d
          → Logged printer fl with_overhead o low high config b laws t view 1
              (transfer_round printer fl env b t (of_handle (some p)) d config o delay_us)
      unfolding transfer_round
      transfer_round-Logged t view p d low high config o delay_us l u v a h =
          let (e, ne, ge, le) = round_size config t.asked v in
          let (t₁, o', e₁, b₁, s₁, later₁, only) =
            choose_injector_lem printer fl env b (ask printer fl env b t) o in
          let (at, latency, e₂, a₂, s₂, timed) =
            attempt_lem t₁ view p d (env.draw t.asked config.min_size config.max_size) o o'
              (subst (λ s. laws.Abs s view) (sym b₁) a) h e ne only in
          let x : Transfer = record {
            size = env.draw t.asked config.min_size config.max_size;
            latency = latency;
          } in
          let view' : View = record view { logs = log_at d (x ∷ view.logs d) view.logs } in
          let (t₃, entry, e₃, b₃, s₃, later₃, describes) =
            log_to_session_lem printer fl env b with_overhead at.tester o low high d config x
              at.latency_ns at.status (env.thread_hash % 2 ^ 32) l u ge le timed in
          let (t₄, e₄, b₄, s₄) = pause_lem t₃ delay_us in
          rw (e₁, e₂, e₃, e₄)
            (logged t₄ ((d, x) ∷ []) (entry ∷ []) (subst (λ s. laws.Abs s view') (sym (b₄ ∙ b₃)) a₂)
              (describes, tt) refl
              (s₄ ∙ s₃ ∙ ap (λ s. session_after printer s (entry ∷ [])) (s₂ ∙ s₁)))

      pub transfer_rounds-Logged :
          (more : ℕ) (t : Tester printer b) (view : View) (p d low high : ℕ)
          (config : TransferConfig) (o : Option (ErrorInjector fl)) (delay_us : ℕ)
          → low ≤ d
          → d < high
          → IsTransfer config
          → laws.Abs t.backend view
          → view.handles p ≡ some d
          → Logged printer fl with_overhead o low high config b laws t view more
              (transfer_rounds printer fl env b t (of_handle (some p)) d config o delay_us more)
      unfolding transfer_rounds
      transfer_rounds-Logged zero t view p d low high config o delay_us l u v a h =
          logged t [] [] a tt refl (sym (session_after-none printer t.session))
      transfer_rounds-Logged (suc more) t view p d low high config o delay_us l u v a h =
          Logged-eq printer fl with_overhead o low high config b laws t view (1 + more) (suc more) _
            (omega arith)
            (Logged-then printer fl with_overhead o low high config b laws t view 1 more _ _
              (transfer_round-Logged t view p d low high config o delay_us l u v a h)
              (λ t' logs a'.
                transfer_rounds-Logged more t' (record view { logs = logs }) p d low high config o
                  delay_us l u v a' h))
