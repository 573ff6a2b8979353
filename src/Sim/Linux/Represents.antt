-- ===== src/Sim/Linux/Represents.antt =====
-- When the globals and the heap of sim/linux_sim.c stand for a view, and that the updates the code
-- makes on them are the updates of the view.
use pcie_sim.Base.{
  ℕ, pos, ◌<◌, ◌≡◌, ◌≢◌, refl, sym, ◌∙◌, ap, subst, true, false, List, [], ◌∷◌, map, Option, none,
  some, arith, length, get_or, get_or-set_self, get_or-set_ne, length-set, ◌==◌, zero, suc, ◌⊎◌,
  ℕ_discrete, Bool-cases, inl, inr,
}
use pcie_sim.Api.{zero_stats}
use pcie_sim.Sim.Linux.{DeviceState, Handle, Sim, at, deactivate, sim_init, put_device}
use pcie_sim.Sim.Linux.History.{Transfer, stats_of}
use pcie_sim.Sim.Linux.Calls.{View, name_at, log_at}

-- What stands at an index out of range, where nothing is asked.
abbrev pub blank : DeviceState
blank = record {
  active = false;
  stats = zero_stats;
  start_time = (record { tv_sec = 0; tv_nsec = 0 });
  device_name = [];
}

abbrev pub dev_at : Sim → ℕ → DeviceState
dev_at sim n = get_or sim.devices n blank

-- A live handle names an active device; where no handle lives, none is open.
pub data Cell (sim : Sim) : Option Handle → Option ℕ → Type 0 where
  dead : Cell sim none none
  live :
      (h : Handle) (n : ℕ)
      → h.device_id ≡ pos n
      → n < 8
      → sim.initialized ≡ true
      → (dev_at sim n).active ≡ true
      → Cell sim (some h) (some n)

pub record Represents (sim : Sim) (view : View) : Type 0 where
  pub eight : length sim.devices ≡ 8
  pub stats_eq : (n : ℕ) → n < 8 → (dev_at sim n).stats ≡ stats_of (view.logs n)
  pub idle : (n : ℕ) → n < 8 → (dev_at sim n).active ≡ false → view.logs n ≡ []
  pub unopened : (n : ℕ) → n < 8 → sim.initialized ≡ false → (dev_at sim n).active ≡ false
  pub cells : (p : ℕ) → Cell sim (sim.heap p) (view.handles p)

Cell-mono :
    (sim sim' : Sim)
    → (sim.initialized ≡ true → sim'.initialized ≡ true)
    → ((n : ℕ) → n < 8 → (dev_at sim n).active ≡ true → (dev_at sim' n).active ≡ true)
    → (c : Option Handle) → (d : Option ℕ) → Cell sim c d
    → Cell sim' c d
Cell-mono sim sim' i a _ _ dead = dead
Cell-mono sim sim' i a _ _ (live h n e l init act) = live h n e l (i init) (a n l act)

==_refl : (m : ℕ) → (m == m) ≡ true
==_refl m = ground arith

==_ne : (n m : ℕ) → n ≢ m → (n == m) ≡ false
==_ne n m h = ground arith

-- A handle appears or goes on both sides.
pub Represents-at :
    (sim : Sim) (view : View) (p : ℕ) (c : Option Handle) (d : Option ℕ)
    → Represents sim view
    → Cell sim c d
    → Represents
        (record sim { heap = at p c sim.heap })
        (record view { handles = name_at p d view.handles })
Represents-at sim view p c d r cell = record {
  eight = r.eight;
  stats_eq = r.stats_eq;
  idle = r.idle;
  unopened = r.unopened;
  cells = (λ q. Cell-mono sim _ (λ e. e) (λ n l e. e) _ _ (one q (Bool-cases (q == p))));
}
  where
    one :
        (q : ℕ)
        → ((q == p) ≡ true) ⊎ ((q == p) ≡ false)
        → Cell sim (at p c sim.heap q) (name_at p d view.handles q)
    one q (inl e) = rw e cell
    one q (inr e) = rw e (Represents.cells r q)

-- A device changes, stays or becomes active, and its statistics are those of its new log.
pub Represents-put :
    (sim : Sim) (view : View) (m : ℕ) (dev : DeviceState) (ts : List Transfer)
    → m < 8
    → sim.initialized ≡ true
    → dev.active ≡ true
    → dev.stats ≡ stats_of ts
    → Represents sim view
    → Represents (put_device sim (pos m) dev) (record view { logs = log_at m ts view.logs })
Represents-put sim view m dev ts l init act e r = record {
  eight = length-set sim.devices m dev ∙ r.eight;
  stats_eq = (λ n k. by_index n (λ d us. d.stats ≡ stats_of us) e (Represents.stats_eq r n k));
  idle = (λ n k.
      by_index n (λ d us. d.active ≡ false → us ≡ []) (λ off. ground arith)
        (Represents.idle r n k));
  unopened = (λ n k off. ground arith);
  cells = (λ p.
      Cell-mono sim _ (λ i. i)
        (λ n k.
          by_index n (λ d us. (dev_at sim n).active ≡ true → d.active ≡ true) (λ on. act)
            (λ on. on))
        _ _ (Represents.cells r p));
}
  where
    there : dev_at (put_device sim (pos m) dev) m ≡ dev
    there = get_or-set_self sim.devices m dev blank (omega (arith, Represents.eight r))

    elsewhere : (n : ℕ) → m ≢ n → dev_at (put_device sim (pos m) dev) n ≡ dev_at sim n
    elsewhere n ne = get_or-set_ne sim.devices m n dev blank ne

    by_index :
        (n : ℕ) (P : DeviceState → List Transfer → Type 0)
        → P dev ts
        → P (dev_at sim n) (view.logs n)
        → P (dev_at (put_device sim (pos m) dev) n) (log_at m ts view.logs n)
    by_index n P here away = elim (ℕ_discrete n m) [
      | yes same ↦ rw (same, there, ==_refl m) here
      | no other ↦ rw (elsewhere n (λ e. other (sym e)), ==_ne n m other) away
    ]

get_or-map-deactivate :
    (devs : List DeviceState) (n : ℕ)
    → get_or (map deactivate devs) n blank ≡ deactivate (get_or devs n blank)
get_or-map-deactivate [] n = refl
get_or-map-deactivate (d ∷ ds) zero = refl
get_or-map-deactivate (d ∷ ds) (suc n) = get_or-map-deactivate ds n

length-map-deactivate : (devs : List DeviceState) → length (map deactivate devs) ≡ length devs
length-map-deactivate [] = refl
length-map-deactivate (d ∷ ds) = ap suc (length-map-deactivate ds)

Cell-uninitialized :
    (sim sim' : Sim)
    → sim.initialized ≡ false
    → (c : Option Handle) → (d : Option ℕ) → Cell sim c d
    → Cell sim' c d
Cell-uninitialized sim sim' off _ _ dead = dead
Cell-uninitialized sim sim' off _ _ (live h n e l init act) = absurd (ground arith)

initialized_stays : (sim : Sim) → sim.initialized ≡ true → sim_init sim ≡ sim
unfolding sim_init
initialized_stays sim on = ground arith

-- The initialization does not show.
pub Represents-sim_init :
    (sim : Sim) (view : View)
    → Represents sim view
    → Represents (sim_init sim) view × ((sim_init sim).initialized ≡ true)
unfolding sim_init
Represents-sim_init sim view r = elim (Bool-cases sim.initialized) [
  | inl on ↦
      subst (λ s. Represents s view × (s.initialized ≡ true)) (sym (initialized_stays sim on))
        (r, on)
  | inr off ↦ rw off (
    record {
      eight = length-map-deactivate sim.devices ∙ r.eight;
      stats_eq = (λ n l. rw (get_or-map-deactivate sim.devices n) (Represents.stats_eq r n l));
      idle = (λ n l e. Represents.idle r n l (Represents.unopened r n l off));
      unopened = (λ n l e. absurd (ground arith));
      cells = (λ p. Cell-uninitialized sim _ off _ _ (Represents.cells r p));
    },
    refl,
  )
]
