-- ===== src/Library/Device/Ownership.antt =====
-- Programs that use the class of lib/device.hpp close every handle they opened once.
use pcie_sim.Base.{
  ℕ, ℤ, ◌+◌, ◌≤◌, ◌≡◌, refl, sym, ◌∙◌, List, [], ◌∷◌, Option, none, some, ◌>>=◌, get_elem?, set,
  ◌==◌, arith, inl, inr, Bool-cases, Option-cases, ap,
}
use pcie_sim.Api.{Error}
use pcie_sim.Sim.Linux.Calls.{View}
use pcie_sim.Library.Backend.{Backend, Laws, Opened, no_device, no_memory, fresh}
use pcie_sim.Library.Device.{
  Result, Device, empty, checked, move_new, device_new, move_assign, transfer, get_statistics,
  reset_statistics,
}
use pcie_sim.Library.Device.Owners.{
  owns, held, times, Owned, held-append, held-set, owns-held, get_elem?-set_ne, times-none,
  times-opened,
}
use pcie_sim.Library.Device.Scope.{
  Statement, constructs, moves_new, moves_assign, transfers, gets_statistics, resets_statistics,
  made, with_device, execute, leave, scope,
}
use pcie_sim.Library.Device.Members.{
  of_handle, checked-thrown, Kept, device_drop-owned, transfer-Kept, get_statistics-Kept,
  reset_statistics-Kept,
}

module _ (b : Backend) (laws : Laws b) where
  -- The devices are there, each handle that is open with one owner.
  OwnedBy : Option (b.State × List Device) → Type 0
  OwnedBy none = ⊥
  OwnedBy (some (s, devices)) = (view : View) × laws.Abs s view × Owned view devices

  owned :
      (s : b.State) (devices : List Device) (view : View)
      → laws.Abs s view
      → Owned view devices
      → OwnedBy (some (s, devices))
  unfolding OwnedBy
  owned s devices view a o = (view, a, o)

  -- A member function leaves the owners as they are.
  Kept-OwnedBy :
      {A : Type 0} (view : View) (devices : List Device) (r : Option (b.State × Result A))
      → Owned view devices
      → Kept b laws view r
      → OwnedBy (r >>= (λ (s', x). some (s', devices)))
  unfolding OwnedBy
  Kept-OwnedBy view devices none o k = absurd k
  Kept-OwnedBy view devices (some (s, x)) o (view', a, e) =
      (view', a, λ p. o p ∙ ap (λ f. times (f p)) (sym e))

  -- What one device of several owns is open.
  one_le_times :
      (view : View) (devices : List Device) (i : ℕ) (device : Device)
      → Owned view devices
      → get_elem? devices i ≡ some device
      → (q : ℕ) → owns q device ≤ times (view.handles q)
  one_le_times view devices i device o e q = omega (arith, o q, owns-held q devices i device e)

  made-OwnedBy :
      (s₀ s : b.State) (view view' : View) (devices : List Device) (id : ℤ) (e : Error)
      (h : Option ℕ)
      → Owned view devices
      → Opened (laws.Full s₀) view id e h view'
      → laws.Abs s view'
      → OwnedBy (some (made b s devices (checked e (of_handle h))))
  unfolding OwnedBy
  made-OwnedBy s₀ s view _ devices id e _ o (no_device _ _ ne out) a =
      rw (checked-thrown e (of_handle none) ne) (view, a, o)
  made-OwnedBy s₀ s view _ devices id e _ o (no_memory _ _ ne full) a =
      rw (checked-thrown e (of_handle none) ne) (view, a, o)
  made-OwnedBy s₀ s view view' devices _ _ _ o (fresh n p l free) a = (
    view',
    a,
    λ q.
        omega
          (arith, held-append q devices (of_handle (some p)), o q, times-opened view p n q free),
  )

  constructs-OwnedBy :
      (s : b.State) (view : View) (devices : List Device) (id : ℤ)
      → laws.Abs s view
      → Owned view devices
      → OwnedBy (execute b s devices (constructs id))
  unfolding execute device_new
  constructs-OwnedBy s view devices id a o =
      let (s', e, h, view', eq, opened, a') = laws.opens_lem s view id a in
      rw eq (made-OwnedBy s s' view view' devices id e h o opened a')

  moves_new-OwnedBy :
      (s : b.State) (view : View) (devices : List Device) (j : ℕ)
      → laws.Abs s view
      → Owned view devices
      → OwnedBy (execute b s devices (moves_new j))
  unfolding execute move_new
  moves_new-OwnedBy s view devices j a o = elim (Option-cases (get_elem? devices j)) [
    | inl e ↦ rw (e, with_device) (owned s devices view a o)
    | inr (other, e) ↦
        rw (e, with_device)
          (owned s _ view a (λ p. omega (
            arith,
            o p,
            held-set p devices j other empty e,
            held-append p (set devices j empty) (of_handle other.handle),
          )))
  ]

  moves_assign-OwnedBy :
      (s : b.State) (view : View) (devices : List Device) (i j : ℕ)
      → laws.Abs s view
      → Owned view devices
      → OwnedBy (execute b s devices (moves_assign i j))
  unfolding execute move_assign
  moves_assign-OwnedBy s view devices i j a o = elim (Option-cases (get_elem? devices i)) [
    | inl e ↦ rw (e, with_device) (owned s devices view a o)
    | inr (this, e) ↦ elim (Option-cases (get_elem? devices j)) [
      | inl e' ↦ rw (e, e', with_device) (owned s devices view a o)
      | inr (other, e') ↦ elim (Bool-cases (i == j)) [
        | inl same ↦ rw (e, e', same, with_device) (owned s devices view a o)
        | inr apart ↦
            let (s', view', eq, a', closed) =
              device_drop-owned b laws s view this.handle a
                (one_le_times view devices i this o e) in
            let there : get_elem? (set devices i other) j ≡ some other =
              get_elem?-set_ne devices i j other (ground (arith, apart)) ∙ e' in
            rw (e, e', apart, eq, with_device)
              (owned s' _ view' a' (λ p. omega (
                arith,
                o p,
                closed p,
                held-set p devices i this other e,
                held-set p (set devices i other) j other empty there,
              )))
      ]
    ]
  ]

  -- A statement on one device.
  member-OwnedBy :
      {A : Type 0} (s : b.State) (view : View) (devices : List Device) (i : ℕ)
      (f : Device → Option (b.State × Result A))
      → laws.Abs s view
      → Owned view devices
      → ((h : Option ℕ)
          → ((q : ℕ) → owns q (of_handle h) ≤ times (view.handles q))
          → Kept b laws view (f (of_handle h)))
      → OwnedBy (with_device b s devices i (λ device. f device >>= (λ (s', x). some (s', devices))))
  member-OwnedBy s view devices i f a o k = elim (Option-cases (get_elem? devices i)) [
    | inl e ↦ rw (e, with_device) (owned s devices view a o)
    | inr (device, e) ↦
        rw (e, with_device)
          (Kept-OwnedBy view devices (f device) o
            (k device.handle (one_le_times view devices i device o e)))
  ]

  execute-OwnedBy :
      (s : b.State) (view : View) (devices : List Device) (statement : Statement)
      → laws.Abs s view
      → Owned view devices
      → OwnedBy (execute b s devices statement)
  unfolding execute
  execute-OwnedBy s view devices (constructs id) a o = constructs-OwnedBy s view devices id a o
  execute-OwnedBy s view devices (moves_new j) a o = moves_new-OwnedBy s view devices j a o
  execute-OwnedBy s view devices (moves_assign i j) a o =
      moves_assign-OwnedBy s view devices i j a o
  execute-OwnedBy s view devices (transfers i size direction) a o =
      member-OwnedBy s view devices i (λ device. transfer b s device size direction) a o
        (λ h l. transfer-Kept b laws s view h size direction a l)
  execute-OwnedBy s view devices (gets_statistics i) a o =
      member-OwnedBy s view devices i (get_statistics b s) a o
        (λ h l. get_statistics-Kept b laws s view h a l)
  execute-OwnedBy s view devices (resets_statistics i) a o =
      member-OwnedBy s view devices i (reset_statistics b s) a o
        (λ h l. reset_statistics-Kept b laws s view h a l)

  leave-owned :
      (devices : List Device) (s : b.State) (view : View)
      → laws.Abs s view
      → ((p : ℕ) → held p devices ≤ times (view.handles p))
      → (s' : b.State) × (view' : View) × (leave b s devices ≡ some s')
        × laws.Abs s' view'
        × ((p : ℕ) → times (view'.handles p) + held p devices ≡ times (view.handles p))
  unfolding leave
  leave-owned [] s view a l = (s, view, refl, a, λ p. omega arith)
  leave-owned (device ∷ devices) s view a l =
      let (s₁, view₁, eq₁, a₁, c₁) = leave-owned devices s view a (λ p. omega (arith, l p)) in
      let (s₂, view₂, eq₂, a₂, c₂) =
        device_drop-owned b laws s₁ view₁ device.handle a₁ (λ p. omega (arith, l p, c₁ p)) in
      (s₂, view₂, rw (eq₁, eq₂) refl, a₂, λ p. omega (arith, c₁ p, c₂ p))

  -- The program ended, and no handle is open.
  pub data Closed : Option b.State → Type 0 where
    closed :
        (s : b.State) (view : View)
        → laws.Abs s view
        → ((p : ℕ) → view.handles p ≡ none)
        → Closed (some s)

  scope-Closed :
      (statements : List Statement) (r : Option (b.State × List Device))
      → OwnedBy r
      → Closed (r >>= (λ (s, devices). scope b s devices statements))
  unfolding scope OwnedBy
  scope-Closed statements none o = absurd o
  scope-Closed [] (some (s, devices)) (view, a, o) =
      let (s', view', eq, a', c) = leave-owned devices s view a (λ p. omega (arith, o p)) in
      rw eq (closed s' view' a' (λ p. times-none (view'.handles p) (omega (arith, o p, c p))))
  scope-Closed (statement ∷ statements) (some (s, devices)) (view, a, o) =
      scope-Closed statements (execute b s devices statement)
        (execute-OwnedBy s view devices statement a o)

  -- Whatever a program does with devices, on a backend that keeps its promises and with nothing
  -- open before, nothing undefined happens: no handle is used or closed that is not open. When the
  -- scope is left every handle that was opened is closed.
  pub scope_closes_all :
      (s : b.State) (view : View) (statements : List Statement)
      → laws.Abs s view
      → ((p : ℕ) → view.handles p ≡ none)
      → Closed (scope b s [] statements)
  unfolding OwnedBy
  scope_closes_all s view statements a n =
      scope-Closed statements (some (s, [])) (view, a, λ p. rw (n p) refl)
