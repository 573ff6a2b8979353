-- ===== src/Library/Device/Members.antt =====
-- What the member functions of lib/device.hpp leave open, on a backend that keeps its promises.
use pcie_sim.Base.{ℕ, ◌+◌, ◌≤◌, ◌≡◌, ◌≢◌, refl, Option, none, some, arith, inl, inr, ℕ_discrete}
use pcie_sim.Api.{Error, success}
use pcie_sim.Sim.Linux.Calls.{View, name_at}
use pcie_sim.Library.Backend.{Backend, Laws}
use pcie_sim.Library.Device.{
  Result, thrown, Device, empty, checked, checked_value, device_drop, transfer, get_statistics,
  reset_statistics,
}
use pcie_sim.Library.Device.Owners.{owns, times, times-some, owns_self, times-closed}

abbrev pub of_handle : Option ℕ → Device
of_handle h = record { handle = h }

pub checked-thrown : {A : Type 0} (e : Error) (a : A) → e ≢ success → checked e a ≡ thrown e
checked-thrown success a ne = absurd (ne refl)
checked-thrown Error.error_device a ne = refl
checked-thrown Error.error_param a ne = refl
checked-thrown Error.error_memory a ne = refl
checked-thrown Error.error_timeout a ne = refl
checked-thrown Error.error_system a ne = refl
checked-thrown (Error.other n) a ne = refl

pub checked_value-thrown :
    {A : Type 0} (e : Error) (o : Option A) → e ≢ success → checked_value e o ≡ some (thrown e)
checked_value-thrown success o ne = absurd (ne refl)
checked_value-thrown Error.error_device o ne = refl
checked_value-thrown Error.error_param o ne = refl
checked_value-thrown Error.error_memory o ne = refl
checked_value-thrown Error.error_timeout o ne = refl
checked_value-thrown Error.error_system o ne = refl
checked_value-thrown (Error.other n) o ne = refl

module _ (b : Backend) (laws : Laws b) where
  -- Destroying a device that owns at most what is open.
  pub device_drop-owned :
      (s : b.State) (view : View) (h : Option ℕ)
      → laws.Abs s view
      → ((q : ℕ) → owns q (of_handle h) ≤ times (view.handles q))
      → (s' : b.State) × (view' : View) × (device_drop b s (of_handle h) ≡ some s')
        × laws.Abs s' view'
        × ((q : ℕ) → times (view'.handles q) + owns q (of_handle h) ≡ times (view.handles q))
  unfolding device_drop
  device_drop-owned s view none a l = (s, view, refl, a, λ q. omega arith)
  device_drop-owned s view (some p) a l =
      let (n, e) = times-some (view.handles p) (omega (arith, l p, owns_self p)) in
      let (s', eq, a') = laws.closes_lem s view p n a e in
      (
        s',
        record view { handles = name_at p none view.handles },
        rw eq refl,
        a',
        λ q. times-closed view p n q e,
      )

  -- What a member function of a device leaves: it returns or throws, and opens and closes nothing.
  abbrev pub Kept : {A : Type 0} → View → Option (b.State × Result A) → Type 0
  Kept view none = ⊥
  Kept view (some (s, r)) = (view' : View) × laws.Abs s view' × (view'.handles ≡ view.handles)

  opened_by :
      (view : View) (p : ℕ)
      → ((q : ℕ) → owns q (of_handle (some p)) ≤ times (view.handles q))
      → (n : ℕ) × (view.handles p ≡ some n)
  opened_by view p l = times-some (view.handles p) (omega (arith, l p, owns_self p))

  pub transfer-Kept :
      (s : b.State) (view : View) (h : Option ℕ) (size direction : ℕ)
      → laws.Abs s view
      → ((q : ℕ) → owns q (of_handle h) ≤ times (view.handles q))
      → Kept view (transfer b s (of_handle h) size direction)
  unfolding transfer
  transfer-Kept s view none size direction a l =
      let (s', e, eq, ne, a') = laws.no_transfers_lem s view none size direction a (inl refl) in
      rw (eq, checked_value-thrown e none ne) (view, a', refl)
  transfer-Kept s view (some p) size direction a l = elim (ℕ_discrete size 0) [
    | yes empty ↦
        let (s', e, eq, ne, a') =
          laws.no_transfers_lem s view (some p) size direction a (inr empty) in
        rw (eq, checked_value-thrown e none ne) (view, a', refl)
    | no ne ↦
        let (n, e) = opened_by view p l in
        let (s', latency, eq, a') = laws.transfers_lem s view p n size direction a e ne in
        rw eq (_, a', refl)
  ]

  pub get_statistics-Kept :
      (s : b.State) (view : View) (h : Option ℕ)
      → laws.Abs s view
      → ((q : ℕ) → owns q (of_handle h) ≤ times (view.handles q))
      → Kept view (get_statistics b s (of_handle h))
  unfolding get_statistics
  get_statistics-Kept s view none a l =
      let (s', e, eq, ne, a') = laws.no_gets_stats_lem s view a in
      rw (eq, checked_value-thrown e none ne) (view, a', refl)
  get_statistics-Kept s view (some p) a l =
      let (n, e) = opened_by view p l in
      let (s', eq, a') = laws.gets_stats_lem s view p n a e in rw eq (_, a', refl)

  pub reset_statistics-Kept :
      (s : b.State) (view : View) (h : Option ℕ)
      → laws.Abs s view
      → ((q : ℕ) → owns q (of_handle h) ≤ times (view.handles q))
      → Kept view (reset_statistics b s (of_handle h))
  unfolding reset_statistics
  reset_statistics-Kept s view none a l =
      let (s', e, eq, ne, a') = laws.no_resets_stats_lem s view a in rw eq (view, a', refl)
  reset_statistics-Kept s view (some p) a l =
      let (n, e) = opened_by view p l in
      let (s', eq, a') = laws.resets_stats_lem s view p n a e in rw eq (_, a', refl)
