-- ===== src/Sim/Linux/Refine.antt =====
-- The backend of sim/linux_sim.c implements the view of handles and logs.
use pcie_sim.Base.{
  ℕ, ℤ, pos, negsuc, ◌≡◌, inl, inr, refl, Bool, true, false, not, ◌||◌, List, [], ◌∷◌, Option, none,
  some, ◌>>=◌, arith, get_or, replicate, ◌==◌, leb, Bool-cases, zero, suc,
}
use pcie_sim.Api.{zero_stats}
use pcie_sim.Sim.Linux.{
  Timespec, Clock, Sim, sim_init, elapsed, record_transfer, open_linux, close_linux, transfer_linux,
  get_stats_linux, reset_stats_linux,
}
use pcie_sim.Sim.Linux.Calls.{
  Call, Reply, View, step, view_step, backend_run, view_run, start, unused, nothing_open, opens,
  closes, transfers, gets_stats, resets_stats,
}
use pcie_sim.Sim.Linux.Represents.{
  Represents, dead, blank, dev_at, Represents-at, Represents-sim_init,
}
use pcie_sim.Sim.Linux.Leads.{device_there, Leads-cases, put-Leads, opened_Represents}

-- Both fault, or both give the same reply and the states still correspond.
abbrev pub Match : Option (Sim × Reply) → Option (View × Reply) → Type 0
Match none none = Unit
Match none (some w) = ⊥
Match (some w) none = ⊥
Match (some (sim, r)) (some (view, r')) = Represents sim view × (r ≡ r')

module _ (print_name : ℤ → List ℕ) (sim : Sim) (view : View) (r : Represents sim view) where
  closes_Match :
      (handle : Option ℕ)
      → Match (step print_name sim (closes handle)) (view_step view (closes handle))
  unfolding step view_step close_linux
  closes_Match none = (r, refl)
  closes_Match (some p) = elim (Leads-cases sim view p r) [
    | inl (gone, closed) ↦ rw (gone, closed) tt
    | inr l ↦ rw (l.at_heap, l.at_view) (Represents-at sim view p none none r dead, refl)
  ]

  gets_stats_Match :
      (handle : Option ℕ) (given : Bool)
      → Match
          (step print_name sim (gets_stats handle given))
          (view_step view (gets_stats handle given))
  unfolding step view_step get_stats_linux
  gets_stats_Match none given = (r, refl)
  gets_stats_Match (some p) false = (r, refl)
  gets_stats_Match (some p) true = elim (Leads-cases sim view p r) [
    | inl (gone, closed) ↦ rw (gone, closed) tt
    | inr l ↦
        rw (l.at_heap, l.at_view, l.checked, l.reached)
          (r, rw (Represents.stats_eq r l.n l.in_range) refl)
  ]

  resets_stats_Match :
      (handle : Option ℕ)
      → Match (step print_name sim (resets_stats handle)) (view_step view (resets_stats handle))
  unfolding step view_step reset_stats_linux
  resets_stats_Match none = (r, refl)
  resets_stats_Match (some p) = elim (Leads-cases sim view p r) [
    | inl (gone, closed) ↦ rw (gone, closed) tt
    | inr l ↦
        rw (l.at_heap, l.at_view, l.checked, l.reached)
          (put-Leads sim view p r l zero_stats [] refl, refl)
  ]

  transfers_Match :
      (handle : Option ℕ) (buffer_given : Bool) (size direction : ℕ) (latency_given : Bool)
      (clock : Clock)
      → Match
          (step print_name sim (transfers handle buffer_given size direction latency_given clock))
          (view_step view (transfers handle buffer_given size direction latency_given clock))
  unfolding step view_step transfer_linux
  transfers_Match none buffer_given size direction latency_given clock = (r, refl)
  transfers_Match (some p) buffer_given size direction latency_given clock =
      elim (Bool-cases (not buffer_given || size == 0)) [
        | inl bad ↦ rw bad (r, refl)
        | inr good ↦ rw good (elim (Leads-cases sim view p r) [
          | inl (gone, closed) ↦ rw (gone, closed) tt
          | inr l ↦
              rw (l.at_heap, l.at_view, l.checked, l.reached)
                (
                  put-Leads sim view p r l
                      (record_transfer (dev_at sim l.n).stats size (elapsed clock))
                      (record { size = size; latency = elapsed clock } ∷ view.logs l.n)
                      (rw (Represents.stats_eq r l.n l.in_range) refl),
                  refl,
                )
        ])
      ]

  opens_Match :
      (id : ℤ) (given : Bool) (malloced : Option ℕ) (now : Timespec)
      → Match
          (step print_name sim (opens id given malloced now))
          (view_step view (opens id given malloced now))
  unfolding step view_step open_linux
  opens_Match id false malloced now = (r, refl)
  opens_Match (negsuc k) true malloced now = (r, refl)
  opens_Match (pos m) true none now = elim (Bool-cases (leb 8 m)) [
    | inl large ↦ rw large (r, refl)
    | inr ok ↦ rw ok ((Represents-sim_init sim view r).0, refl)
  ]
  opens_Match (pos m) true (some p) now =
      let (r', on) = Represents-sim_init sim view r in
      elim (Bool-cases (leb 8 m)) [
        | inl large ↦ rw large (r, refl)
        | inr ok ↦
            rw (ok, device_there (sim_init sim) view m (ground arith) r')
              (opened_Represents print_name (sim_init sim) view m p now (ground arith) on r', refl)
      ]

-- Every call faults on the backend exactly when it does on the view, which is when it uses a handle
-- that is not open; otherwise it gives the same reply and leads to corresponding states.
pub backend_step_refines :
    (print_name : ℤ → List ℕ) (sim : Sim) (view : View) (call : Call)
    → Represents sim view
    → Match (step print_name sim call) (view_step view call)
backend_step_refines print_name sim view (opens id given malloced now) r =
    opens_Match print_name sim view r id given malloced now
backend_step_refines print_name sim view (closes handle) r =
    closes_Match print_name sim view r handle
backend_step_refines print_name sim view
      (transfers handle buffer_given size direction latency_given clock) r =
    transfers_Match print_name sim view r handle buffer_given size direction latency_given clock
backend_step_refines print_name sim view (gets_stats handle given) r =
    gets_stats_Match print_name sim view r handle given
backend_step_refines print_name sim view (resets_stats handle) r =
    resets_stats_Match print_name sim view r handle

run_one :
    (print_name : ℤ → List ℕ) (calls : List Call)
    → ((sim : Sim) (view : View)
        → Represents sim view
        → backend_run print_name sim calls ≡ view_run view calls)
    → (o : Option (Sim × Reply)) (o' : Option (View × Reply)) → Match o o'
    → (o >>= (λ (sim', reply).
        backend_run print_name sim' calls >>= (λ replies. some (reply ∷ replies))))
      ≡ (o' >>= (λ (view', reply). view_run view' calls >>= (λ replies. some (reply ∷ replies))))
run_one print_name calls ih none none m = refl
run_one print_name calls ih none (some w) m = absurd m
run_one print_name calls ih (some w) none m = absurd m
run_one print_name calls ih (some (sim', reply)) (some (view', reply')) (r', e) =
    rw (e, ih sim' view' r') refl

run_Match :
    (print_name : ℤ → List ℕ) (calls : List Call) (sim : Sim) (view : View)
    → Represents sim view
    → backend_run print_name sim calls ≡ view_run view calls
unfolding backend_run view_run
run_Match print_name [] sim view r = refl
run_Match print_name (call ∷ calls) sim view r =
    run_one print_name calls (run_Match print_name calls) (step print_name sim call)
      (view_step view call) (backend_step_refines print_name sim view call r)

all_unused :
    (k n : ℕ)
    → ((get_or (replicate k unused) n blank).stats ≡ zero_stats)
      × ((get_or (replicate k unused) n blank).active ≡ false)
all_unused zero n = (refl, refl)
all_unused (suc k) zero = (refl, refl)
all_unused (suc k) (suc n) = all_unused k n

pub start-Represents : Represents start nothing_open
start-Represents = record {
  eight = refl;
  stats_eq = (λ n l. (all_unused 8 n).0);
  idle = (λ n l e. refl);
  unopened = (λ n l e. (all_unused 8 n).1);
  cells = (λ p. dead);
}

-- Any calls of the backend from the program's start give the replies that the view gives from
-- nothing open, and fault if and only if they do there, which is on a handle that is not open.
pub backend_run_refines :
    (print_name : ℤ → List ℕ) (calls : List Call)
    → backend_run print_name start calls ≡ view_run nothing_open calls
backend_run_refines print_name calls =
    run_Match print_name calls start nothing_open start-Represents
