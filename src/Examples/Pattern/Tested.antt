-- ===== src/Examples/Pattern/Tested.antt =====
-- The test of one device by transfer pattern of examples/cpp_test.cpp.
use Prim.Native.Nat.{zero, suc, ◌%◌, ◌^◌}
use pcie_sim.Base.{
  ℕ, pos, ◌*◌, ◌≤◌, ◌<◌, ◌≡◌, ◌⊎◌, refl, sym, subst, inl, inr, [], Option, none, some, arith,
}
use pcie_sim.Api.{Error}
use pcie_sim.Sim.Linux.Calls.{View, name_at}
use pcie_sim.Library.Backend.{Backend, Laws, Opened, is_device, no_device, no_memory, fresh}
use pcie_sim.Library.Device.{checked, device_new, device_drop, get_statistics}
use pcie_sim.Library.Device.Members.{of_handle, checked-thrown}
use pcie_sim.Utils.Csv.{Printer}
use pcie_sim.Utils.Config.{Float, Pattern, small_fast, large_burst, mixed, custom, TransferConfig}
use pcie_sim.Utils.Config.Validity.{IsTransfer}
use pcie_sim.Examples.Tester.{Ran, ran, and_then, defined, ErrorInjector, Env, IsEnv, Tester}
use pcie_sim.Examples.Records.{
  reclosed, session_after-none, Logged, logged, Logged-close, Logged-start,
}
use pcie_sim.Examples.Pattern.{
  with_overhead, period_us, transfer_plan, drop, with_new, test_device, pattern_based_transfer_test,
}
use pcie_sim.Examples.Pattern.Rounds.{transfer_rounds-Logged}

-- How many transfers a pattern asks for.
abbrev pub planned : TransferConfig → ℕ
planned config = elim config.pattern [
  | small_fast ↦ 100
  | large_burst ↦ config.burst_count
  | mixed ↦ 50
  | custom ↦ 50
  | Pattern.other n ↦ 0
]

period_us_lem : (rate : ℕ) → 1 ≤ rate → (us : ℕ) × (period_us rate ≡ ran us)
period_us_lem zero l = absurd (omega (arith, l))
period_us_lem (suc n) l = (_, refl)

transfer_plan_lem :
    (config : TransferConfig)
    → 1 ≤ config.rate_hz
    → (us : ℕ) × (transfer_plan config ≡ ran (planned config, us))
unfolding transfer_plan
transfer_plan_lem config l =
    let (us, e) = period_us_lem config.rate_hz l in by_pattern us e config.pattern refl
  where
    by_pattern :
        (us : ℕ)
        → period_us config.rate_hz ≡ ran us
        → (p : Pattern) → config.pattern ≡ p
        → (us : ℕ) × (transfer_plan config ≡ ran (planned config, us))
    by_pattern us e small_fast q = (us, rw (q, e) refl)
    by_pattern us e large_burst q = (config.burst_interval_ms * 1000 % 2 ^ 32, rw q refl)
    by_pattern us e mixed q = (us, rw (q, e) refl)
    by_pattern us e custom q = (us, rw (q, e) refl)
    by_pattern us e (Pattern.other n) q = (0, rw q refl)

module _ (printer : Printer) (fl : Float) (env : Env fl) (r : IsEnv fl env) where
  module _ (b : Backend) (laws : Laws b) (o : Option (ErrorInjector fl)) (low high : ℕ) where
    module _ (config : TransferConfig) (v : IsTransfer config) where
      abbrev LoggedBy : Tester printer b → View → ℕ → Ran (Tester printer b) → Type 0
      LoggedBy = Logged printer fl with_overhead o low high config b laws

      -- The end of a test: the statistics are read, and the device is destroyed.
      end_lem :
          (t : Tester printer b) (view : View) (p d : ℕ)
          → view.handles p ≡ none
          → laws.Abs t.backend (record view { handles = name_at p (some d) view.handles })
          → (s : b.State) × (and_then
                (defined (get_statistics b t.backend (of_handle (some p))))
                (λ (s, stats).
                  drop printer fl env b (record t { backend = s }) (of_handle (some p)))
              ≡ ran (record t { backend = s }))
            × laws.Abs s view
      unfolding get_statistics device_drop
      end_lem t view p d free a =
          let opened : View = record view { handles = name_at p (some d) view.handles } in
          let h : opened.handles p ≡ some d = ground arith in
          let (s₁, e₁, a₁) = laws.gets_stats_lem t.backend opened p d a h in
          let (s₂, e₂, a₂) = laws.closes_lem s₁ opened p d a₁ h in
          (
            s₂,
            rw (e₁, e₂) refl,
            subst (λ hs. laws.Abs s₂ (record view { handles = hs }))
                (reclosed p d view.handles free) a₂,
          )

      test_device-Logged :
          (t : Tester printer b) (view : View) (p d : ℕ)
          → low ≤ d
          → d < high
          → view.handles p ≡ none
          → laws.Abs t.backend (record view { handles = name_at p (some d) view.handles })
          → LoggedBy t view
              (planned config)
              (test_device printer fl env b t (of_handle (some p)) d config o)
      unfolding test_device
      test_device-Logged t view p d l u free a =
          let (us, e) = transfer_plan_lem config v.rate_ge in
          rw e (
            Logged-close printer fl with_overhead o low high config b laws t view
              (name_at p (some d) view.handles) (planned config) _ _
              (transfer_rounds-Logged printer fl env b laws r (planned config) t
                (record view { handles = name_at p (some d) view.handles }) p d low high config o us
                l u v a (ground arith))
              (λ t' logs a'. end_lem t' (record view { logs = logs }) p d free a'))

      -- A test of one device: its transfers, or none where there is no memory for it.
      abbrev pub TestedBy : Tester printer b → View → Ran (Tester printer b) → Type 0
      TestedBy t view r =
          LoggedBy t view (planned config) r ⊎ (LoggedBy t view 0 r × ((s : b.State) × laws.Full s))

      with_new-TestedBy :
          (t : Tester printer b) (s₀ s : b.State) (view : View) (d : ℕ) (e : Error) (h : Option ℕ)
          (view' : View)
          → low ≤ d
          → d < high
          → d < 8
          → Opened (laws.Full s₀) view (pos d) e h view'
          → laws.Abs s view'
          → TestedBy t view (
              with_new printer fl env b
                (record t { backend = s })
                (checked e (of_handle h))
                d
                config
                o)
      with_new-TestedBy t s₀ s view d e _ _ l u m (no_device _ _ ne out) a =
          absurd (out (is_device d m))
      with_new-TestedBy t s₀ s view d e _ _ l u m (no_memory _ _ ne full) a =
          rw (checked-thrown e (of_handle none) ne) (
            inr (
              logged (record t { backend = s }) [] [] a tt refl
                  (sym (session_after-none printer t.session)),
              (s₀, full),
            ))
      with_new-TestedBy t s₀ s view _ _ _ view' l u m (fresh n p k free) a =
          let t' : Tester printer b = record t { backend = s } in
          inl (
            Logged-start printer fl with_overhead o low high config b laws t' t view
              (planned config) _ refl (test_device-Logged t' view p n l u free a))

      pub pattern_based_transfer_test-TestedBy :
          (t : Tester printer b) (view : View) (d : ℕ)
          → low ≤ d
          → d < high
          → d < 8
          → laws.Abs t.backend view
          → TestedBy t view (pattern_based_transfer_test printer fl env b t d config o)
      unfolding pattern_based_transfer_test device_new
      pattern_based_transfer_test-TestedBy t view d l u m a =
          let (s, e, h, view', eq, opened, a') = laws.opens_lem t.backend view (pos d) a in
          rw eq (with_new-TestedBy t t.backend s view d e h view' l u m opened a')
