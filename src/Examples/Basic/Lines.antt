-- ===== src/Examples/Basic/Lines.antt =====
-- What examples/basic_test.c prints and leaves, on a backend that keeps its promises.
use Prim.Native.String.{String}
use pcie_sim.Base.{
  Double, ℕ, ℤ, pos, ◌≡◌, ◌≢◌, ◌⊎◌, refl, sym, ap, subst, inl, inr, true, List, [], ◌∷◌, ◌++◌,
  Option, none, some, ◌>>=◌, arith, length, ltb,
}
use pcie_sim.Api.{Error, Stats, success, from_device}
use pcie_sim.Sim.Linux.History.{Transfer, stats_of}
use pcie_sim.Sim.Linux.Calls.{View, name_at, log_at}
use pcie_sim.Library.Backend.{Backend, Laws, Opened, IsDevice, no_device, no_memory, fresh}
use pcie_sim.Examples.Records.{logs_after, logs_after-append, reclosed}
use pcie_sim.Examples.Basic.{
  Line, failed_to_open, read_back, statistics, throughput, average_throughput, chosen_device,
  write_loop, read_test, print_statistics, test_device, with_handle, basic_test,
}
use pcie_sim.Examples.Basic.Writes.{
  sent, counted, transfer_lines, Written, written, write_loop-Written,
}

module _ (double : Double) where
  module _ (b : Backend) (laws : Laws b) where
    -- How the program ends: it could not open the device, or it has tested it.
    pub data Tested (view : View) (id : ℤ)
        : Option (b.State × ℕ × List (Line double)) → Type 0 where
      not_opened :
          (s : b.State) (e : Error)
          → e ≢ success
          → (¬ IsDevice id) ⊎ ((s : b.State) × laws.Full s)
          → laws.Abs s view
          → Tested view id (some (s, 1, failed_to_open e ∷ []))
      was_tested :
          (d : ℕ) (s : b.State) (ls : List ℕ) (l : ℕ) (stats : Stats)
          → pos d ≡ id
          → length ls ≡ 10
          → stats.total_transfers ≡ 11
          → stats.total_bytes ≡ 41984
          → stats.total_errors ≡ 0
          → laws.Abs s (record view {
            logs =
                logs_after
                  (sent d ls ++ ((d, record { size = 1024; latency = l }) ∷ []))
                  (log_at d [] view.logs);
          })
          → Tested view id (
              some (
                s,
                0,
                transfer_lines double 0 ls
                    ++ (read_back 4096 l
                        ∷ statistics stats
                        ∷ throughput (average_throughput double stats)
                        ∷ []),
              ))

    -- Statistics with transfers have a throughput.
    printed :
        (s s' : b.State) (p : ℕ) (stats : Stats)
        → (b.gets_stats s (some p) true ≡ some (s', success, some stats))
        → stats.total_transfers ≡ 11
        → print_statistics double b s p
          ≡ some (s', statistics stats ∷ throughput (average_throughput double stats) ∷ [])
    unfolding print_statistics
    printed s s' p stats e n =
        let some_of_them : ltb 0 stats.total_transfers ≡ true = ground (arith, n) in
        rw (e, some_of_them) refl

    -- The read, the statistics and the end, after the writes.
    end-Tested :
        (view : View) (p d : ℕ) (r : Option (b.State × List (Line double)))
        → view.handles p ≡ none
        → Written double b laws
            (record { handles = name_at p (some d) view.handles; logs = log_at d [] view.logs })
            d
            0
            10
            r
        → Tested view (pos d) (
            r >>= (λ (s₂, lines). read_test double b s₂ p >>= (λ (s₃, line).
              print_statistics double b s₃ p >>= (λ (s₄, lines').
                b.closes s₄ (some p) >>= (λ (s₅, e₅). some (s₅, 0, lines ++ (line ∷ lines')))))))
    unfolding read_test
    end-Tested view p d _ free (written s₂ ls n a₂) =
        let logs₂ = logs_after (sent d ls) (log_at d [] view.logs) in
        let view₂ : View = record { handles = name_at p (some d) view.handles; logs = logs₂ } in
        let h : view₂.handles p ≡ some d = ground arith in
        let (s₃, l, e₃, a₃) =
          laws.transfers_lem s₂ view₂ p d 1024 from_device a₂ h (λ e. absurd (omega (arith, e))) in
        let entry : Transfer = record { size = 1024; latency = l } in
        let view₃ : View = record view₂ { logs = log_at d (entry ∷ logs₂ d) logs₂ } in
        let (s₄, e₄, a₄) = laws.gets_stats_lem s₃ view₃ p d a₃ h in
        let (s₅, e₅, a₅) = laws.closes_lem s₄ view₃ p d a₄ h in
        let stats : Stats = stats_of (view₃.logs d) in
        let same : view₃.logs d ≡ entry ∷ logs₂ d = ground arith in
        let (t, bytes, errors) =
          subst
            (λ (s : Stats).
              (s.total_transfers ≡ 11) × (s.total_bytes ≡ 41984) × (s.total_errors ≡ 0))
            (ap stats_of (sym same)) (counted d l ls view.logs n) in
        rw (e₃, printed s₃ s₄ p stats e₄ t, e₅)
          (was_tested d s₅ ls l stats refl n t bytes errors (
            after (sent d ls) d entry (log_at d [] view.logs) s₅ (
              subst (λ hs. laws.Abs s₅ (record { handles = hs; logs = view₃.logs }))
                (reclosed p d view.handles free) a₅)))
      where
        after :
            (xs : List (ℕ × Transfer)) (d : ℕ) (x : Transfer) (logs : ℕ → List Transfer)
            (s : b.State)
            → laws.Abs s
                (record view { logs = log_at d (x ∷ logs_after xs logs d) (logs_after xs logs) })
            → laws.Abs s (record view { logs = logs_after (xs ++ ((d, x) ∷ [])) logs })
        after xs d x logs s =
            subst (λ ls. laws.Abs s (record view { logs = ls }))
              (sym (logs_after-append xs ((d, x) ∷ []) logs))

    test_device-Tested :
        (s : b.State) (view : View) (p d : ℕ)
        → view.handles p ≡ none
        → laws.Abs s (record view { handles = name_at p (some d) view.handles })
        → Tested view (pos d) (test_device double b s p)
    unfolding test_device
    test_device-Tested s view p d free a =
        let opened : View = record view { handles = name_at p (some d) view.handles } in
        let h : opened.handles p ≡ some d = ground arith in
        let (s₁, e₁, a₁) = laws.resets_stats_lem s opened p d a h in
        rw e₁ (
          end-Tested view p d (write_loop double b 10 0 s₁ p) free (
            write_loop-Written double b laws 10 0 s₁
              (record opened { logs = log_at d [] view.logs }) p d a₁ h))

    refused_lem :
        (s : b.State) (view : View) (id : ℤ) (e : Error) (h : Option ℕ)
        → e ≢ success
        → (¬ IsDevice id) ⊎ ((s : b.State) × laws.Full s)
        → laws.Abs s view
        → Tested view id (with_handle double b s e h)
    refused_lem s view id success h ne out a = absurd (ne refl)
    refused_lem s view id Error.error_device h ne out a = not_opened s _ ne out a
    refused_lem s view id Error.error_param h ne out a = not_opened s _ ne out a
    refused_lem s view id Error.error_memory h ne out a = not_opened s _ ne out a
    refused_lem s view id Error.error_timeout h ne out a = not_opened s _ ne out a
    refused_lem s view id Error.error_system h ne out a = not_opened s _ ne out a
    refused_lem s view id (Error.other n) h ne out a = not_opened s _ ne out a

    with_handle-Tested :
        (s₀ s : b.State) (view : View) (id : ℤ) (e : Error) (h : Option ℕ) (view' : View)
        → Opened (laws.Full s₀) view id e h view'
        → laws.Abs s view'
        → Tested view id (with_handle double b s e h)
    with_handle-Tested s₀ s view id e _ _ (no_device _ _ ne out) a =
        refused_lem s view id e none ne (inl out) a
    with_handle-Tested s₀ s view id e _ _ (no_memory _ _ ne full) a =
        refused_lem s view id e none ne (inr (s₀, full)) a
    with_handle-Tested s₀ s view _ _ _ view' (fresh n p k free) a =
        test_device-Tested s view p n free a

    -- On a backend that keeps its promises, whatever the arguments are, the program ends. If there
    -- is no such device, or no memory for the handle, it prints the error and returns 1. Otherwise
    -- it returns 0 with the device closed again: it has printed ten transfers of 4096 bytes and a
    -- read of 4096 bytes, though 1024 bytes are read, and the device counts these eleven transfers
    -- and 41984 bytes, no errors, and nothing from before.
    pub basic_test-Tested :
        (atoi : String → ℤ) (s : b.State) (view : View) (args : List String)
        → laws.Abs s view
        → Tested view (chosen_device double atoi args) (basic_test double b atoi s args)
    unfolding basic_test
    basic_test-Tested atoi s view args a =
        let id = chosen_device double atoi args in
        let (s', e, h, view', eq, opened, a') = laws.opens_lem s view id a in
        rw eq (with_handle-Tested s s' view id e h view' opened a')
