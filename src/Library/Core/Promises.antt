-- ===== src/Library/Core/Promises.antt =====
-- lib/core.c over sim/linux_sim.c keeps what the interface promises.
use pcie_sim.Base.{
  ℕ, ℤ, pos, negsuc, ◌≡◌, ◌≢◌, ◌≤◌, refl, ◌⊎◌, inl, inr, true, false, List, [], ◌∷◌, Option, none,
  some, ◌==◌, leb, arith, ◌+◌, Bool-cases, Option-cases, Has, subst,
}
use pcie_sim.Api.{Error, success, error_param, error_memory}
use pcie_sim.Sim.Linux.{
  Clock, elapsed, delay, transfer_latency, open_linux, close_linux, transfer_linux, get_stats_linux,
  reset_stats_linux,
}
use pcie_sim.Sim.Linux.History.{stats_of}
use pcie_sim.Sim.Linux.Calls.{
  View, Call, Reply, name_at, log_at, step, view_step, opens, closes, transfers, gets_stats,
  resets_stats, opened, done, transferred, stats,
}
use pcie_sim.Sim.Linux.Represents.{Represents}
use pcie_sim.Sim.Linux.Refine.{Match, backend_step_refines}
use pcie_sim.Library.Backend.{Laws, Opened, IsDevice, is_device, no_device, no_memory, fresh}
use pcie_sim.Library.Core.{
  Host, IsHost, World, allocated, freed, pcie_sim_open, pcie_sim_close, pcie_sim_transfer,
  pcie_sim_get_stats, pcie_sim_reset_stats, linux_core,
}
use pcie_sim.Library.Core.Replies.{done_matched, opened_matched, stats_matched, transferred_matched}

not_negative : {k : ℕ} → ¬ IsDevice (negsuc k)
not_negative d = elim d [ ]

not_large : (m : ℕ) → 8 ≤ m → ¬ IsDevice (pos m)
not_large m l (is_device n k) = omega (arith, l, k)

Has-freed : (p q : ℕ) (blocks : List ℕ) → q ≢ p → Has q blocks → Has q (freed (some p) blocks)
Has-freed p q [] ne h = absurd h
Has-freed p q (x ∷ blocks) ne (inl e) =
    let kept : (x == p) ≡ false = ground (arith, e) in rw kept (inl e)
Has-freed p q (x ∷ blocks) ne (inr h) = elim (Bool-cases (x == p)) [
  | inl gone ↦ rw gone (Has-freed p q blocks ne h)
  | inr kept ↦ rw kept (inr (Has-freed p q blocks ne h))
]

-- What is open was given by malloc and not freed.
abbrev pub Listed : View → List ℕ → Type 0
Listed view blocks = (q n : ℕ) → view.handles q ≡ some n → Has q blocks

Listed-closed :
    (view : View) (blocks : List ℕ) (p : ℕ)
    → Listed view blocks
    → Listed (record view { handles = name_at p none view.handles }) (freed (some p) blocks)
Listed-closed view blocks p l q n e = elim (Bool-cases (q == p)) [
  | inl same ↦ absurd (ground (arith, same, e))
  | inr apart ↦ Has-freed p q blocks (ground (arith, apart)) (l q n (ground (arith, apart, e)))
]

Listed-opened :
    (view : View) (blocks : List ℕ) (p m : ℕ)
    → Listed view blocks
    → Listed (record view { handles = name_at p (some m) view.handles }) (p ∷ blocks)
Listed-opened view blocks p m l q n e = elim (Bool-cases (q == p)) [
  | inl same ↦ inl (ground (arith, same))
  | inr apart ↦ inr (l q n (ground (arith, apart, e)))
]

-- A state stands for a view.
abbrev pub Stands : World → View → Type 0
Stands w view = Represents w.sim view × Listed view w.blocks

module _ (host : Host) (w : World) (view : View) (a : Represents w.sim view)
    (listed : Listed view w.blocks) where
  matches :
      (call : Call) (out : Option (View × Reply))
      → view_step view call ≡ out
      → Match (step host.print_name w.sim call) out
  matches call out e =
      subst (Match (step host.print_name w.sim call)) e
        (backend_step_refines host.print_name w.sim view call a)

  pub closed :
      (p d : ℕ)
      → view.handles p ≡ some d
      → (w' : World) × (pcie_sim_close host w (some p) ≡ some (w', success))
        × Stands w' (record view { handles = name_at p none view.handles })
  unfolding step view_step pcie_sim_close
  closed p d h =
      let view' : View = record view { handles = name_at p none view.handles } in
      let (sim', e, r) =
        done_matched (close_linux w.sim (some p)) view' success
          (matches (closes (some p)) (some (view', done success)) (rw h refl)) in
      (
        record w { sim = sim'; blocks = freed (some p) w.blocks },
        rw e refl,
        (r, Listed-closed view w.blocks p listed),
      )

  pub reset :
      (p d : ℕ)
      → view.handles p ≡ some d
      → (w' : World) × (pcie_sim_reset_stats host w (some p) ≡ some (w', success))
        × Stands w' (record view { logs = log_at d [] view.logs })
  unfolding step view_step pcie_sim_reset_stats
  reset p d h =
      let view' : View = record view { logs = log_at d [] view.logs } in
      let (sim', e, r) =
        done_matched (reset_stats_linux w.sim (some p)) view' success
          (matches (resets_stats (some p)) (some (view', done success)) (rw h refl)) in
      (record w { sim = sim' }, rw e refl, (r, listed))

  pub got_stats :
      (p d : ℕ)
      → view.handles p ≡ some d
      → (w' : World) × (pcie_sim_get_stats host w (some p) true
          ≡ some (w', success, some (stats_of (view.logs d))))
        × Stands w' view
  unfolding step view_step pcie_sim_get_stats
  got_stats p d h =
      let (e, r) =
        stats_matched w.sim (get_stats_linux w.sim (some p) true) view success
          (some (stats_of (view.logs d)))
          (matches (gets_stats (some p) true)
            (some (view, stats success (some (stats_of (view.logs d))))) (rw h refl)) in
      (w, rw e refl, (r, listed))

  pub moved :
      (p d size direction : ℕ)
      → view.handles p ≡ some d
      → size ≢ 0
      → (w' : World) × (latency : ℕ) × (pcie_sim_transfer host w (some p) true size direction true
          ≡ some (w', success, some latency))
        × Stands w' (record view {
          logs = log_at d (record { size = size; latency = latency } ∷ view.logs d) view.logs;
        })
  unfolding step view_step pcie_sim_transfer
  moved p d size direction h ne =
      let clock : Clock = record {
        before = host.clock w.asked;
        after = host.clock (w.asked + 1);
      } in
      let view' : View = record view {
        logs = log_at d (record { size = size; latency = elapsed clock } ∷ view.logs d) view.logs;
      } in
      let some_size : (size == 0) ≡ false = ground arith in
      let wait = delay (transfer_latency size direction) in
      let (sim', asked', e, r) =
        transferred_matched (transfer_linux w.sim (some p) true size direction true clock) view'
          success wait (some (elapsed clock))
          (matches (transfers (some p) true size direction true clock)
            (some (view', transferred success wait (some (elapsed clock))))
            (rw (some_size, h) refl)) in
      (record w { sim = sim'; asked = w.asked + 2 }, elapsed clock, rw e refl, (r, listed))

  opened_as :
      (id : ℤ) (e : Error) (h : Option ℕ) (view' : View)
      → view_step view (opens id true (host.malloc w.blocks w.asked) (host.clock w.asked))
        ≡ some (view', opened e h)
      → Listed view' (allocated h w.blocks)
      → (w' : World) × (pcie_sim_open host w id true ≡ some (w', e, h)) × Stands w' view'
  unfolding step pcie_sim_open
  opened_as id e h view' eq l =
      let malloced = host.malloc w.blocks w.asked in
      let now = host.clock w.asked in
      let (sim', e', r) =
        opened_matched (open_linux host.print_name w.sim id true malloced now) view' e h
          (matches (opens id true malloced now) (some (view', opened e h)) eq) in
      (
        record { sim = sim'; asked = w.asked + 1; blocks = allocated h w.blocks },
        rw e' refl,
        (r, l),
      )

  fresh_handle :
      (p : ℕ) → IsHost host → host.malloc w.blocks w.asked ≡ some p → view.handles p ≡ none
  fresh_handle p i e = elim (Option-cases (view.handles p)) [
    | inl free ↦ free
    | inr (n, there) ↦ absurd (i.malloc_fresh w.blocks w.asked p e (listed p n there))
  ]

  pub pcie_sim_open-Opened :
      IsHost host
      → (id : ℤ)
      → (w' : World) × (e : Error) × (h : Option ℕ) × (view' : View) × (pcie_sim_open host w id true
          ≡ some (w', e, h))
        × Opened (host.malloc w.blocks w.asked ≡ none) view id e h view'
        × Stands w' view'
  unfolding view_step
  pcie_sim_open-Opened i (negsuc k) =
      let (w', eq, r) = opened_as (negsuc k) error_param none view refl listed in
      (
        w',
        error_param,
        none,
        view,
        eq,
        no_device (negsuc k) error_param (λ e. cc e) not_negative,
        r,
      )
  pcie_sim_open-Opened i (pos m) = elim (Bool-cases (leb 8 m)) [
    | inl large ↦
        let (w', eq, r) = opened_as (pos m) error_param none view (rw large refl) listed in
        (
          w',
          error_param,
          none,
          view,
          eq,
          no_device (pos m) error_param (λ e. cc e) (not_large m (ground (arith, large))),
          r,
        )
    | inr small ↦ elim (Option-cases (host.malloc w.blocks w.asked)) [
      | inl full ↦
          let (w', eq, r) =
            opened_as (pos m) error_memory none view (rw (small, full) refl) listed in
          (w', error_memory, none, view, eq, no_memory (pos m) error_memory (λ e. cc e) full, r)
      | inr (p, got) ↦
          let view' : View = record view { handles = name_at p (some m) view.handles } in
          let (w', eq, r) =
            opened_as (pos m) success (some p) view' (rw (small, got) refl)
              (Listed-opened view w.blocks p m listed) in
          (w', success, some p, view', eq, fresh m p (ground arith) (fresh_handle p i got), r)
    ]
  ]

  pub not_moved :
      (h : Option ℕ) (size direction : ℕ)
      → (h ≡ none) ⊎ (size ≡ 0)
      → (w' : World) × (e : Error) × (pcie_sim_transfer host w h true size direction true
          ≡ some (w', e, none))
        × (e ≢ success)
        × Stands w' view
  unfolding pcie_sim_transfer transfer_linux
  not_moved h size direction (inl e) =
      (record w { asked = w.asked + 2 }, error_param, rw e refl, (λ q. cc q), (a, listed))
  not_moved none size direction (inr e) =
      (record w { asked = w.asked + 2 }, error_param, refl, (λ q. cc q), (a, listed))
  not_moved (some p) size direction (inr e) =
      (record w { asked = w.asked + 2 }, error_param, rw e refl, (λ q. cc q), (a, listed))

-- The Linux build of lib/core.c keeps the promises of the interface, if malloc never gives the
-- address of a block that lives.
unfoldable pub linux_laws : (host : Host) → IsHost host → Laws (linux_core host)
unfolding pcie_sim_get_stats get_stats_linux pcie_sim_reset_stats reset_stats_linux
linux_laws host i = record {
  Abs = Stands;
  Full = (λ w. host.malloc w.blocks w.asked ≡ none);
  opens_lem = (λ w view id a. pcie_sim_open-Opened host w view a.0 a.1 i id);
  closes_lem = (λ w view p d a h. closed host w view a.0 a.1 p d h);
  transfers_lem =
      (λ w view p d size direction a h ne. moved host w view a.0 a.1 p d size direction h ne);
  gets_stats_lem = (λ w view p d a h. got_stats host w view a.0 a.1 p d h);
  resets_stats_lem = (λ w view p d a h. reset host w view a.0 a.1 p d h);
  no_transfers_lem =
      (λ w view h size direction a bad. not_moved host w view a.0 a.1 h size direction bad);
  no_gets_stats_lem = (λ w view a. (w, error_param, refl, (λ e. cc e), a));
  no_resets_stats_lem = (λ w view a. (w, error_param, refl, (λ e. cc e), a));
}
