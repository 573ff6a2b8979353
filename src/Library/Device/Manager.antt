-- ===== src/Library/Device/Manager.antt =====
-- DeviceManager::open_all_devices of lib/device.hpp: which devices it opens.
use Prim.Native.Nat.{zero, suc}
use pcie_sim.Base.{
  ℕ, ℤ, pos, ◌+◌, ◌-◌, ◌<◌, ◌≡◌, ◌⊎◌, inl, inr, refl, sym, ◌∙◌, ap, List, [], ◌∷◌, Option, none,
  some, ◌>>=◌, arith, length, min, ◌==◌, Bool-cases, dec_lt, subst,
}
use pcie_sim.Api.{Error}
use pcie_sim.Sim.Linux.Calls.{View, name_at}
use pcie_sim.Library.Backend.{
  Backend, Laws, Opened, IsDevice, is_device, no_device, no_memory, fresh,
}
use pcie_sim.Library.Device.{Device, checked, device_new, then_rest, open_from, open_all_devices}
use pcie_sim.Library.Device.Members.{of_handle, checked-thrown}

-- The devices hold open handles that name the numbers from one on.
abbrev pub Names : View → ℕ → List Device → Type 0
Names view i [] = Unit {0}
Names view i (device ∷ devices) =
    ((p : ℕ) × (device.handle ≡ some p) × (view.handles p ≡ some i)) × Names view (i + 1) devices

-- What was open stays open.
abbrev pub Extends : View → View → Type 0
Extends view view' = (p n : ℕ) → view.handles p ≡ some n → view'.handles p ≡ some n

Extends-fresh :
    (view : View) (p n : ℕ)
    → view.handles p ≡ none
    → Extends view (record view { handles = name_at p (some n) view.handles })
Extends-fresh view p n free q m e = elim (Bool-cases (q == p)) [
  | inl same ↦
      let same' : q ≡ p = ground (arith, same) in absurd (cc (sym e ∙ ap view.handles same' ∙ free))
  | inr apart ↦ rw apart e
]

name_at_self : (view : View) (p n : ℕ) → name_at p (some n) view.handles p ≡ some n
name_at_self view p n = ground arith

no_more : (i more : ℕ) → ¬ IsDevice (pos i) → 0 ≡ min (suc more) (8 - i)
no_more i more out = elim (dec_lt i 8) [
  | yes l ↦ absurd (out (is_device i l))
  | no large ↦ omega (arith, large)
]

module _ (b : Backend) (laws : Laws b) where
  -- Some devices were opened: all that were asked for and exist, or memory ran out.
  pub record AllOpened (s' : b.State) (view : View) (i more : ℕ) (devices : List Device)
      : Type 0 where
    pub view' : View
    pub stands_for : laws.Abs s' view'
    pub extends : Extends view view'
    pub names : Names view' i devices
    pub count : (length devices ≡ min more (8 - i)) ⊎ ((s : b.State) × laws.Full s)

  pub data Opening (view : View) (i more : ℕ) : Option (b.State × List Device) → Type 0 where
    opening :
        (s' : b.State) (devices : List Device)
        → AllOpened s' view i more devices
        → Opening view i more (some (s', devices))

  -- One device and then the rest.
  first_and_rest :
      (view : View) (i more p : ℕ)
      → i < 8
      → view.handles p ≡ none
      → (r : Option (b.State × List Device))
      → Opening (record view { handles = name_at p (some i) view.handles }) (i + 1) more r
      → Opening view i
          (suc more)
          (r >>= (λ (s'', devices). some (s'', record { handle = some p } ∷ devices)))
  first_and_rest view i more p l free _ (opening s'' devices w) =
      opening s'' (record { handle = some p } ∷ devices) (record {
        view' = w.view';
        stands_for = w.stands_for;
        extends = λ q n e. w.extends q n (Extends-fresh view p i free q n e);
        names = ((p, refl, w.extends p i (name_at_self view p i)), w.names);
        count = elim w.count [ inl e ↦ inl (omega (arith, e, l)) | inr full ↦ inr full ];
      })

  -- No device.
  none_opened :
      (s' : b.State) (view : View) (i more : ℕ)
      → laws.Abs s' view
      → (0 ≡ min more (8 - i)) ⊎ ((s : b.State) × laws.Full s)
      → Opening view i more (some (s', []))
  none_opened s' view i more a c =
      opening s' []
        (record { view' = view; stands_for = a; extends = λ p n e. e; names = tt; count = c })

  -- What follows the opening of one device.
  after_one :
      (s s' : b.State) (view view' : View) (i more : ℕ) (e : Error) (h : Option ℕ)
      (rest : Option (b.State × List Device)) (id : ℤ)
      → id ≡ pos i
      → Opened (laws.Full s) view id e h view'
      → laws.Abs s' view'
      → Opening view' (i + 1) more rest
      → Opening view i (suc more) (then_rest b s' (checked e (of_handle h)) rest)
  after_one s s' view _ i more e _ rest id same (no_device _ _ ne out) a w =
      rw (checked-thrown e (of_handle none) ne) (
        none_opened s' view i (suc more) a
          (inl (no_more i more (subst (λ x. ¬ IsDevice x) same out))))
  after_one s s' view _ i more e _ rest id same (no_memory _ _ ne full) a w =
      rw (checked-thrown e (of_handle none) ne) (none_opened s' view i (suc more) a (inr (s, full)))
  after_one s s' view _ i more _ _ rest _ same (fresh n p l free) a w =
      let e : n ≡ i = cc same in
      first_and_rest view i more p (subst (λ x. x < 8) e l) free rest (
        subst
          (λ x.
            Opening (record view { handles = name_at p (some x) view.handles }) (i + 1) more rest)
          e w)

  open_from-Opening :
      (more i : ℕ) (s : b.State) (view : View)
      → laws.Abs s view
      → Opening view i more (open_from b s i more)
  unfolding open_from device_new
  open_from-Opening zero i s view a = none_opened s view i zero a (inl (omega arith))
  open_from-Opening (suc more) i s view a =
      let (s', e, h, view', eq, o, a') = laws.opens_lem s view (pos i) a in
      rw eq (
        after_one s s' view view' i more e h (open_from b s' (i + 1) more) (pos i) refl o a'
          (open_from-Opening more (i + 1) s' view' a'))

  -- DeviceManager::open_all_devices(max) opens the devices 0, 1, ... in order, each with a handle of
  -- its own, and all that were asked for and exist, the least of max and 8, unless memory ran out;
  -- what was open before stays open.
  pub open_all_devices-Opening :
      (s : b.State) (view : View) (max_devices : ℕ)
      → laws.Abs s view
      → Opening view 0 max_devices (open_all_devices b s (pos max_devices))
  unfolding open_all_devices
  open_all_devices-Opening s view max_devices a = open_from-Opening max_devices 0 s view a
