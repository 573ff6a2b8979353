-- ===== src/Sim/Windows/Exclusive.antt =====
-- Opening a device of sim/windows_sim.c excludes every other opening of it until it is closed.
use pcie_sim.Base.{
  ℕ, ◌<◌, ◌≡◌, refl, List, [], ◌∷◌, pos, true, false, Option, none, some, arith, zero, suc,
  get_elem?, set, leb, ◌==◌,
}
use pcie_sim.Api.{success, error_device}
use pcie_sim.Sim.Windows.{DeviceState, Sim, at, open_impl, close_impl}

get_elem?-set_self :
    (devices : List DeviceState) (n : ℕ) (dev new : DeviceState)
    → get_elem? devices n ≡ some dev
    → get_elem? (set devices n new) n ≡ some new
get_elem?-set_self [] n dev new e = absurd (ground arith)
get_elem?-set_self (d ∷ ds) zero dev new e = refl
get_elem?-set_self (d ∷ ds) (suc n) dev new e = get_elem?-set_self ds n dev new e

-- The state after device `n`, that was `dev`, is opened with the handle at `p`, and then closed.
abbrev pub opened : Sim → ℕ → DeviceState → ℕ → Sim
opened sim n dev p = record {
  devices = set sim.devices n (record dev { active = true });
  heap = at p (some (record { fd = pos n; device_id = pos n })) sim.heap;
}

abbrev pub closed : Sim → ℕ → DeviceState → ℕ → Sim
closed sim n dev p = record {
  devices =
      set (set sim.devices n (record dev { active = true })) n (record dev { active = false });
  heap = at p none (at p (some (record { fd = pos n; device_id = pos n })) sim.heap);
}

open_inactive :
    (sim : Sim) (n : ℕ) (dev : DeviceState) (p : ℕ)
    → n < 8
    → get_elem? sim.devices n ≡ some dev
    → dev.active ≡ false
    → open_impl sim (pos n) true (some p) ≡ some (opened sim n dev p, success, some p)
unfolding open_impl
open_inactive sim n dev p l e idle =
    let ok : leb 8 n ≡ false = ground arith in rw (ok, e, idle) refl

open_active :
    (sim : Sim) (n : ℕ) (dev : DeviceState) (malloced : Option ℕ)
    → n < 8
    → get_elem? sim.devices n ≡ some dev
    → dev.active ≡ true
    → open_impl sim (pos n) true malloced ≡ some (sim, error_device, none)
unfolding open_impl
open_active sim n dev malloced l e busy =
    let ok : leb 8 n ≡ false = ground arith in rw (ok, e, busy) refl

close_opened :
    (sim : Sim) (n : ℕ) (dev : DeviceState) (p : ℕ)
    → n < 8
    → get_elem? sim.devices n ≡ some dev
    → close_impl (opened sim n dev p) (some p) ≡ some (closed sim n dev p, success)
unfolding close_impl
close_opened sim n dev p l e =
    let ok : leb 8 n ≡ false = ground arith in
    let self : (p == p) ≡ true = ground arith in
    rw (self, ok, get_elem?-set_self sim.devices n dev (record dev { active = true }) e) refl

-- Opening an inactive device gives a handle. Then any other opening of the device is refused with
-- the device error and changes nothing; closing the handle succeeds, and after that the device can
-- be opened again.
pub open-close_exclusive :
    (sim : Sim) (n : ℕ) (dev : DeviceState) (p q : ℕ)
    → n < 8
    → get_elem? sim.devices n ≡ some dev
    → dev.active ≡ false
    → (open_impl sim (pos n) true (some p) ≡ some (opened sim n dev p, success, some p))
      × (open_impl (opened sim n dev p) (pos n) true (some q)
          ≡ some (opened sim n dev p, error_device, none))
      × (close_impl (opened sim n dev p) (some p) ≡ some (closed sim n dev p, success))
      × (open_impl (closed sim n dev p) (pos n) true (some q)
          ≡ some (opened (closed sim n dev p) n (record dev { active = false }) q, success, some q))
open-close_exclusive sim n dev p q l e idle =
    let busy = get_elem?-set_self sim.devices n dev (record dev { active = true }) e in
    let free =
      get_elem?-set_self (opened sim n dev p).devices n (record dev { active = true })
        (record dev { active = false }) busy in
    (
      open_inactive sim n dev p l e idle,
      open_active (opened sim n dev p) n (record dev { active = true }) (some q) l busy refl,
      close_opened sim n dev p l e,
      open_inactive (closed sim n dev p) n (record dev { active = false }) q l free refl,
    )
