-- ===== src/Sim/Linux/Leads.antt =====
-- What a live handle of sim/linux_sim.c leads to, and the states that its device and a newly opened
-- one are put in.
use pcie_sim.Base.{
  ℕ, ℤ, pos, negsuc, ◌<◌, ◌≡◌, ◌⊎◌, inl, inr, refl, true, false, List, [], Option, none, some,
  arith, get_elem?, get_elem?-eq-get_or, Bool-cases, fun_ext, subst, get_or-set_self,
}
use pcie_sim.Api.{Stats}
use pcie_sim.Sim.Linux.{
  Timespec, DeviceState, Handle, Sim, at, put_device, activate, device_at, too_large,
}
use pcie_sim.Sim.Linux.History.{Transfer, stats_of}
use pcie_sim.Sim.Linux.Calls.{View, name_at, log_at}
use pcie_sim.Sim.Linux.Represents.{
  Represents, Cell, dead, live, blank, dev_at, Represents-at, Represents-put,
}

pub device_there :
    (sim : Sim) (view : View) (n : ℕ)
    → n < 8
    → Represents sim view
    → get_elem? sim.devices n ≡ some (dev_at sim n)
device_there sim view n l r =
    get_elem?-eq-get_or sim.devices n blank (omega (arith, Represents.eight r))

-- What a live handle leads to.
pub record Leads (sim : Sim) (view : View) (p : ℕ) : Type 0 where
  pub h : Handle
  pub n : ℕ
  pub at_heap : sim.heap p ≡ some h
  pub at_view : view.handles p ≡ some n
  pub names : h.device_id ≡ pos n
  pub in_range : n < 8
  pub checked : too_large h.device_id ≡ false
  pub reached : device_at sim h.device_id ≡ some (dev_at sim n)
  pub on : sim.initialized ≡ true
  pub active : (dev_at sim n).active ≡ true

Leads-of :
    (sim : Sim) (view : View) (p : ℕ)
    → Represents sim view
    → (c : Option Handle) (d : Option ℕ) → sim.heap p ≡ c
    → view.handles p ≡ d
    → Cell sim c d
    → ((c ≡ none) × (d ≡ none)) ⊎ Leads sim view p
Leads-of sim view p r _ _ ec ed dead = inl (refl, refl)
Leads-of sim view p r _ _ ec ed (live h n e l i a) = inr (record {
  h = h;
  n = n;
  at_heap = ec;
  at_view = ed;
  names = e;
  in_range = l;
  checked = rw e (ground arith);
  reached = rw e (device_there sim view n l r);
  on = i;
  active = a;
})

pub Leads-cases :
    (sim : Sim) (view : View) (p : ℕ)
    → Represents sim view
    → ((sim.heap p ≡ none) × (view.handles p ≡ none)) ⊎ Leads sim view p
Leads-cases sim view p r =
    Leads-of sim view p r (sim.heap p) (view.handles p) refl refl (Represents.cells r p)

-- New statistics for the device that a live handle names.
pub put-Leads :
    (sim : Sim) (view : View) (p : ℕ)
    → Represents sim view
    → (l : Leads sim view p) → (s : Stats) → (ts : List Transfer) → s ≡ stats_of ts
    → Represents
        (put_device sim l.h.device_id (record (dev_at sim l.n) { stats = s }))
        (record view { logs = log_at l.n ts view.logs })
put-Leads sim view p r l s ts e = rw l.names (
    Represents-put sim view l.n (record (dev_at sim l.n) { stats = s }) ts l.in_range l.on l.active
      e r)

same_log : (logs : ℕ → List Transfer) (m : ℕ) → log_at m (logs m) logs ≡ logs
same_log logs m = fun_ext (λ n. ground arith)

-- The device that is opened becomes active, and its statistics are those of its log.
activate_eq :
    (print_name : ℤ → List ℕ) (id : ℤ) (now : Timespec) (dev : DeviceState) (ts : List Transfer)
    → dev.stats ≡ stats_of ts
    → (dev.active ≡ false → ts ≡ [])
    → ((activate print_name id now dev).active ≡ true)
      × ((activate print_name id now dev).stats ≡ stats_of ts)
activate_eq print_name id now dev ts e idle = elim (Bool-cases dev.active) [
  | inl on ↦ (ground arith, ground arith)
  | inr off ↦ rw (off, idle off) (refl, refl)
]

pub opened_Represents :
    (print_name : ℤ → List ℕ) (sim : Sim) (view : View) (m p : ℕ) (now : Timespec)
    → m < 8
    → sim.initialized ≡ true
    → Represents sim view
    → Represents
        (record (put_device sim (pos m) (activate print_name (pos m) now (dev_at sim m))) {
          heap =
              at p
                (some (record { fd = negsuc 0; device_id = pos m; is_simulation = true }))
                sim.heap;
        })
        (record view { handles = name_at p (some m) view.handles })
opened_Represents print_name sim view m p now l i r =
    Represents-at (put_device sim (pos m) dev) view p
      (some (record { fd = negsuc 0; device_id = pos m; is_simulation = true })) (some m) put
      (live _ m refl l i
        (rw (get_or-set_self sim.devices m dev blank (omega (arith, Represents.eight r))) a.0))
  where
    dev : DeviceState
    dev = activate print_name (pos m) now (dev_at sim m)

    a : (dev.active ≡ true) × (dev.stats ≡ stats_of (view.logs m))
    a =
        activate_eq print_name (pos m) now (dev_at sim m) (view.logs m) (Represents.stats_eq r m l)
          (Represents.idle r m l)

    put : Represents (put_device sim (pos m) dev) view
    put =
        subst (λ logs. Represents (put_device sim (pos m) dev) (record view { logs = logs }))
          (same_log view.logs m) (Represents-put sim view m dev (view.logs m) l i a.0 a.1 r)
