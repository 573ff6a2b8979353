-- ===== src/Library/Device/Owners.antt =====
-- Who owns which handle, lib/device.hpp: counting.
use Prim.Native.Nat.{zero, suc}
use pcie_sim.Base.{
  ℕ, ◌+◌, ◌≤◌, ◌≡◌, ◌≢◌, refl, ap, Bool, true, false, List, [], ◌∷◌, ◌++◌, Option, none, some,
  get_elem?, set, ◌==◌, arith,
}
use pcie_sim.Sim.Linux.Calls.{View, name_at}
use pcie_sim.Library.Device.{Device}

abbrev pub one_if : Bool → ℕ
one_if true = 1
one_if false = 0

-- How often a device, and the devices of a list, own a handle.
abbrev pub owns : ℕ → Device → ℕ
owns p device = elim device.handle [ none ↦ 0 | some q ↦ one_if (p == q) ]

abbrev pub held : ℕ → List Device → ℕ
held p [] = 0
held p (device ∷ devices) = owns p device + held p devices

-- How often a handle is open.
abbrev pub times : Option ℕ → ℕ
times none = 0
times (some n) = 1

-- Every handle that is open has one owner, and no other handle has any.
abbrev pub Owned : View → List Device → Type 0
Owned view devices = (p : ℕ) → held p devices ≡ times (view.handles p)

pub held-append :
    (p : ℕ) (devices : List Device) (device : Device)
    → held p (devices ++ (device ∷ [])) ≡ held p devices + owns p device
held-append p [] device = omega arith
held-append p (d ∷ ds) device = omega (arith, held-append p ds device)

pub held-set :
    (p : ℕ) (devices : List Device) (i : ℕ) (device new : Device)
    → get_elem? devices i ≡ some device
    → held p (set devices i new) + owns p device ≡ held p devices + owns p new
held-set p [] i device new e = absurd (cc e)
held-set p (d ∷ ds) zero device new e = let e' : d ≡ device = cc e in rw e' (omega arith)
held-set p (d ∷ ds) (suc i) device new e = omega (arith, held-set p ds i device new e)

pub owns-held :
    (p : ℕ) (devices : List Device) (i : ℕ) (device : Device)
    → get_elem? devices i ≡ some device
    → owns p device ≤ held p devices
owns-held p [] i device e = absurd (cc e)
owns-held p (d ∷ ds) zero device e = let e' : d ≡ device = cc e in rw e' (omega arith)
owns-held p (d ∷ ds) (suc i) device e = omega (arith, owns-held p ds i device e)

pub get_elem?-set_ne :
    (devices : List Device) (i j : ℕ) (new : Device)
    → i ≢ j
    → get_elem? (set devices i new) j ≡ get_elem? devices j
get_elem?-set_ne [] i j new ne = refl
get_elem?-set_ne (d ∷ ds) zero zero new ne = absurd (ne refl)
get_elem?-set_ne (d ∷ ds) zero (suc j) new ne = refl
get_elem?-set_ne (d ∷ ds) (suc i) zero new ne = refl
get_elem?-set_ne (d ∷ ds) (suc i) (suc j) new ne = get_elem?-set_ne ds i j new (λ e. ne (ap suc e))

-- A handle that is open once is open.
pub times-some : (o : Option ℕ) → 1 ≤ times o → (n : ℕ) × (o ≡ some n)
times-some none l = absurd (omega (arith, l))
times-some (some n) l = (n, refl)

pub times-none : (o : Option ℕ) → times o ≡ 0 → o ≡ none
times-none none e = refl
times-none (some n) e = absurd (omega (arith, e))

pub owns_self : (p : ℕ) → owns p (record { handle = some p }) ≡ 1
owns_self p = ground arith

-- A handle is closed, and one is opened.
pub times-closed :
    (view : View) (p n q : ℕ)
    → view.handles p ≡ some n
    → times (name_at p none view.handles q) + owns q (record { handle = some p })
      ≡ times (view.handles q)
times-closed view p n q e = ground arith

pub times-opened :
    (view : View) (p n q : ℕ)
    → view.handles p ≡ none
    → times (name_at p (some n) view.handles q)
      ≡ times (view.handles q) + owns q (record { handle = some p })
times-opened view p n q e = ground arith
