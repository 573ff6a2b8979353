-- ===== src/Examples/Records.antt =====
-- What the tests of examples/cpp_test.cpp leave: the transfers that the devices count, and the
-- records of the session's log.
use Prim.Native.String.{String}
use pcie_sim.Base.{
  fun_ext, inl, inr, ◌⊎◌, true, false, if◌then◌else◌, ◌==◌, Bool-cases, arith, ℕ, ◌+◌, ◌≤◌, ◌<◌,
  ◌≡◌, refl, sym, ◌∙◌, ap, ap₂, subst, List, [], ◌∷◌, ◌++◌, Option, none, some, length,
  length-append,
}
use pcie_sim.Sim.Linux.History.{Transfer}
use pcie_sim.Sim.Linux.Calls.{View, log_at, name_at}
use pcie_sim.Library.Backend.{Backend, Laws}
use pcie_sim.Utils.Csv.{Printer, TransferRecord, SessionLogger}
use pcie_sim.Utils.Csv.Session.{session_logs}
use pcie_sim.Utils.Config.{Float, TransferConfig}
use pcie_sim.Examples.Tester.{Ran, ran, and_then, ErrorInjector, get_error_type, Tester}

-- The logs of the devices after transfers, each with the number of its device.
abbrev pub logs_after : List (ℕ × Transfer) → (ℕ → List Transfer) → ℕ → List Transfer
logs_after [] logs = logs
logs_after ((d, x) ∷ xs) logs = logs_after xs (log_at d (x ∷ logs d) logs)

pub logs_after-append :
    (xs ys : List (ℕ × Transfer)) (logs : ℕ → List Transfer)
    → logs_after (xs ++ ys) logs ≡ logs_after ys (logs_after xs logs)
logs_after-append [] ys logs = refl
logs_after-append ((d, x) ∷ xs) ys logs = logs_after-append xs ys (log_at d (x ∷ logs d) logs)

-- How many of the transfers were made on a device.
abbrev pub made_on : ℕ → List (ℕ × Transfer) → ℕ
made_on d [] = 0
made_on d ((n, x) ∷ xs) = (if n == d then 1 else 0) + made_on d xs

pub made_on-append :
    (d : ℕ) (xs ys : List (ℕ × Transfer)) → made_on d (xs ++ ys) ≡ made_on d xs + made_on d ys
made_on-append d [] ys = omega arith
made_on-append d ((n, x) ∷ xs) ys = omega (arith, made_on-append d xs ys)

-- A handle that was not open is opened and closed.
pub reclosed :
    (p d : ℕ) (handles : ℕ → Option ℕ)
    → handles p ≡ none
    → name_at p none (name_at p (some d) handles) ≡ handles
reclosed p d handles free = fun_ext (λ q. elim (Bool-cases (q == p)) [
  | inl same ↦ ground (arith, same, free)
  | inr apart ↦ ground (arith, apart)
])

module _ (printer : Printer) where
  -- The session, if there is one, after records.
  abbrev pub session_after :
      Option (SessionLogger printer)
      → List (TransferRecord printer)
      → Option (SessionLogger printer)
  session_after none rs = none
  session_after (some s) rs = some (session_logs printer s rs)

  pub session_logs-append :
      (rs rs' : List (TransferRecord printer)) (s : SessionLogger printer)
      → session_logs printer s (rs ++ rs') ≡ session_logs printer (session_logs printer s rs) rs'
  unfolding session_logs
  session_logs-append [] rs' s = refl
  session_logs-append (r ∷ rs) rs' s = session_logs-append rs rs' _

  pub session_after-append :
      (o : Option (SessionLogger printer)) (rs rs' : List (TransferRecord printer))
      → session_after o (rs ++ rs') ≡ session_after (session_after o rs) rs'
  session_after-append none rs rs' = refl
  session_after-append (some s) rs rs' = ap some (session_logs-append rs rs' s)

  pub session_after-none : (o : Option (SessionLogger printer)) → session_after o [] ≡ o
  unfolding session_logs
  session_after-none none = refl
  session_after-none (some s) = refl

  module _ (fl : Float) (overhead : ℕ → ℕ) (injector : Option (ErrorInjector fl)) where
    open printer use {double}
    open double use {D, whole, over}

    -- The status and the microseconds of a record, for what the device measured: an injected error
    -- has its own name, and may add to the latency.
    pub data Timed (latency : ℕ) : String → D → Type 0 where
      plain : Timed latency "SUCCESS" (over (whole latency) (whole 1000))
      injected :
          (i : ErrorInjector fl)
          → injector ≡ some i
          → Timed latency (get_error_type fl i) (over (whole (overhead latency)) (whole 1000))

    module _ (low high : ℕ) (config : TransferConfig) where
      -- A record describes a transfer on a device in a range, of a size that the configuration
      -- allows.
      pub record Describes (x : ℕ × Transfer) (r : TransferRecord printer) : Type 0 where
        pub device : r.device_id ≡ x.0
        pub device_ge : low ≤ x.0
        pub device_lt : x.0 < high
        pub size : r.transfer_size ≡ x.1.size
        pub size_ge : config.min_size ≤ x.1.size
        pub size_le : x.1.size ≤ config.max_size
        pub to_device : r.direction ≡ "TO_DEVICE"
        pub timed : Timed x.1.latency r.error_status r.latency_us

      -- One record for each transfer, in order.
      abbrev pub AllDescribe : List (ℕ × Transfer) → List (TransferRecord printer) → Type 0
      AllDescribe [] [] = Unit {0}
      AllDescribe [] (r ∷ rs) = ⊥
      AllDescribe (x ∷ xs) [] = ⊥
      AllDescribe (x ∷ xs) (r ∷ rs) = Describes x r × AllDescribe xs rs

      pub AllDescribe-append :
          (xs xs' : List (ℕ × Transfer)) (rs rs' : List (TransferRecord printer))
          → AllDescribe xs rs
          → AllDescribe xs' rs'
          → AllDescribe (xs ++ xs') (rs ++ rs')
      AllDescribe-append [] xs' [] rs' a a' = a'
      AllDescribe-append [] xs' (r ∷ rs) rs' a a' = absurd a
      AllDescribe-append (x ∷ xs) xs' [] rs' a a' = absurd a
      AllDescribe-append (x ∷ xs) xs' (r ∷ rs) rs' a a' =
          (a.0, AllDescribe-append xs xs' rs rs' a.1 a')

      -- Records of one device alone, and of others than a device.
      pub made_on-alone :
          (d : ℕ) (xs : List (ℕ × Transfer)) (rs : List (TransferRecord printer))
          → low ≡ d
          → high ≡ d + 1
          → AllDescribe xs rs
          → made_on d xs ≡ length rs
      made_on-alone d [] [] l h a = refl
      made_on-alone d [] (r ∷ rs) l h a = absurd a
      made_on-alone d (x ∷ xs) [] l h a = absurd a
      made_on-alone d ((n, x) ∷ xs) (r ∷ rs) l h (a, more) =
          let same : (n == d) ≡ true = ground (arith, a.device_ge, a.device_lt, l, h) in
          rw same (omega (arith, made_on-alone d xs rs l h more))

      pub made_on-outside :
          (d : ℕ) (xs : List (ℕ × Transfer)) (rs : List (TransferRecord printer))
          → (d < low) ⊎ (high ≤ d)
          → AllDescribe xs rs
          → made_on d xs ≡ 0
      made_on-outside d [] [] l a = refl
      made_on-outside d [] (r ∷ rs) l a = absurd a
      made_on-outside d (x ∷ xs) [] l a = absurd a
      made_on-outside d ((n, x) ∷ xs) (r ∷ rs) l (a, more) =
          let apart : (n == d) ≡ false = ground (arith, a.device_ge, a.device_lt, l) in
          rw apart (omega (arith, made_on-outside d xs rs l more))

      module _ (b : Backend) (laws : Laws b) where
        -- A test ended, after so many transfers: nothing else was counted by a device or written to
        -- the log, and the handles that are open are those that were.
        pub data Logged (t : Tester printer b) (view : View) (n : ℕ)
            : Ran (Tester printer b) → Type 0 where
          logged :
              (t' : Tester printer b) (xs : List (ℕ × Transfer))
              (rs : List (TransferRecord printer))
              → laws.Abs t'.backend (record view { logs = logs_after xs view.logs })
              → AllDescribe xs rs
              → length rs ≡ n
              → t'.session ≡ session_after t.session rs
              → Logged t view n (ran t')

        -- A test that follows others.
        pub Logged-after :
            (t t' : Tester printer b) (view : View) (n n' : ℕ) (xs : List (ℕ × Transfer))
            (rs : List (TransferRecord printer)) (r : Ran (Tester printer b))
            → AllDescribe xs rs
            → length rs ≡ n
            → t'.session ≡ session_after t.session rs
            → Logged t' (record view { logs = logs_after xs view.logs }) n' r
            → Logged t view (n + n') r
        Logged-after t t' view n n' xs rs _ ds e es (logged t'' xs' rs' a' ds' e' es') =
            logged t'' (xs ++ xs') (rs ++ rs')
              (subst (λ logs. laws.Abs t''.backend (record view { logs = logs }))
                (sym (logs_after-append xs xs' view.logs)) a')
              (AllDescribe-append xs xs' rs rs' ds ds')
              (length-append rs rs' ∙ ap₂ (λ i j. i + j) e e')
              (es' ∙ ap (λ o. session_after o rs') es ∙ sym (session_after-append t.session rs rs'))

        pub Logged-then :
            (t : Tester printer b) (view : View) (n n' : ℕ) (r : Ran (Tester printer b))
            (next : Tester printer b → Ran (Tester printer b))
            → Logged t view n r
            → ((t' : Tester printer b) (logs : ℕ → List Transfer)
                → laws.Abs t'.backend (record view { logs = logs })
                → Logged t' (record view { logs = logs }) n' (next t'))
            → Logged t view (n + n') (and_then r next)
        Logged-then t view n n' _ next (logged t' xs rs a ds e es) k =
            Logged-after t t' view n n' xs rs (next t') ds e es (k t' (logs_after xs view.logs) a)

        pub Logged-eq :
            (t : Tester printer b) (view : View) (n n' : ℕ) (r : Ran (Tester printer b))
            → n ≡ n'
            → Logged t view n r
            → Logged t view n' r
        Logged-eq t view n n' r e = subst (λ k. Logged t view k r) e

        -- What comes after a test may use and close handles that the test had open.
        pub Logged-close :
            (t : Tester printer b) (view : View) (handles : ℕ → Option ℕ) (n : ℕ)
            (r : Ran (Tester printer b)) (next : Tester printer b → Ran (Tester printer b))
            → Logged t (record view { handles = handles }) n r
            → ((t' : Tester printer b) (logs : ℕ → List Transfer)
                → laws.Abs t'.backend (record { handles = handles; logs = logs })
                → (s : b.State) × (next t' ≡ ran (record t' { backend = s }))
                  × laws.Abs s (record view { logs = logs }))
            → Logged t view n (and_then r next)
        Logged-close t view handles n _ next (logged t' xs rs a ds e es) k =
            let (s, eq, a') = k t' (logs_after xs view.logs) a in
            rw eq (logged (record t' { backend = s }) xs rs a' ds e es)

        -- Only the session counts, of the state before.
        pub Logged-start :
            (t t₀ : Tester printer b) (view : View) (n : ℕ) (r : Ran (Tester printer b))
            → t.session ≡ t₀.session
            → Logged t view n r
            → Logged t₀ view n r
        Logged-start t t₀ view n _ e (logged t' xs rs a ds l es) =
            logged t' xs rs a ds l (es ∙ ap (λ o. session_after o rs) e)

-- A wider range of devices.
pub AllDescribe-wider :
    (printer : Printer) (fl : Float) (overhead : ℕ → ℕ) (o : Option (ErrorInjector fl))
    (low high low' high' : ℕ) (config : TransferConfig)
    → low' ≤ low
    → high ≤ high'
    → (xs : List (ℕ × Transfer)) (rs : List (TransferRecord printer))
    → AllDescribe printer fl overhead o low high config xs rs
    → AllDescribe printer fl overhead o low' high' config xs rs
AllDescribe-wider printer fl overhead o low high low' high' config l h [] [] a = tt
AllDescribe-wider printer fl overhead o low high low' high' config l h [] (r ∷ rs) a = a
AllDescribe-wider printer fl overhead o low high low' high' config l h (x ∷ xs) [] a = a
AllDescribe-wider printer fl overhead o low high low' high' config l h (x ∷ xs) (r ∷ rs) (a, more) =
    (
      record {
        device = a.device;
        device_ge = omega (arith, a.device_ge, l);
        device_lt = omega (arith, a.device_lt, h);
        size = a.size;
        size_ge = a.size_ge;
        size_le = a.size_le;
        to_device = a.to_device;
        timed = a.timed;
      },
      AllDescribe-wider printer fl overhead o low high low' high' config l h xs rs more,
    )
