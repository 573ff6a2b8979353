-- ===== src/Library/Core/Programs.antt =====
-- Programs that use the class of lib/device.hpp on the Linux build of lib/core.c, from the start.
use pcie_sim.Base.{
  ℕ, pos, ◌≡◌, ◌≢◌, refl, inl, inr, List, [], Option, none, some, min, length, sym, ◌∙◌,
}
use pcie_sim.Sim.Linux.Calls.{View, start, nothing_open}
use pcie_sim.Sim.Linux.Represents.{Represents}
use pcie_sim.Sim.Linux.Leads.{Leads-cases}
use pcie_sim.Sim.Linux.Refine.{start-Represents}
use pcie_sim.Library.Core.{Host, IsHost, World, linux_core}
use pcie_sim.Library.Core.Promises.{Stands, linux_laws}
use pcie_sim.Library.Device.{Device, open_all_devices}
use pcie_sim.Library.Device.Scope.{Statement, scope}
use pcie_sim.Library.Device.Ownership.{Closed, closed, scope_closes_all}
use pcie_sim.Library.Device.Manager.{Names, Opening, opening, open_all_devices-Opening}

-- When the program starts.
abbrev pub start_world : World
start_world = record { sim = start; asked = 0; blocks = [] }

pub start-Stands : Stands start_world nothing_open
start-Stands = (start-Represents, λ q n e. absurd (cc e))

-- The program ended, and nothing lives on the heap.
pub data Freed : Option World → Type 0 where
  all_freed : (w : World) → ((p : ℕ) → w.sim.heap p ≡ none) → Freed (some w)

dead_heap :
    (w : World) (view : View) (p : ℕ)
    → Represents w.sim view
    → view.handles p ≡ none
    → w.sim.heap p ≡ none
dead_heap w view p r e = elim (Leads-cases w.sim view p r) [
  | inl (gone, shut) ↦ gone
  | inr l ↦ absurd (cc (sym e ∙ l.at_view))
]

-- So many devices were opened, with live handles that name 0, 1 and so on.
pub data OpenedAll (n : ℕ) : Option (World × List Device) → Type 0 where
  opened_all :
      (w : World) (view : View) (devices : List Device)
      → Represents w.sim view
      → Names view 0 devices
      → length devices ≡ n
      → OpenedAll n (some (w, devices))

module _ (host : Host) (i : IsHost host) where
  Closed-Freed : (r : Option World) → Closed (linux_core host) (linux_laws host i) r → Freed r
  unfolding linux_laws
  Closed-Freed _ (closed w view a n) = all_freed w (λ p. dead_heap w view p a.0 (n p))

  -- On Linux, where malloc never gives the address of a block that lives, whatever a program does
  -- from its start with objects of the class Device, nothing undefined happens: no handle is used
  -- or freed that was freed before. When the program leaves their scope, no handle is left on the
  -- heap.
  pub scope_frees_all :
      (statements : List Statement) → Freed (scope (linux_core host) start_world [] statements)
  unfolding linux_laws
  scope_frees_all statements = Closed-Freed (scope (linux_core host) start_world [] statements) (
      scope_closes_all (linux_core host) (linux_laws host i) start_world nothing_open statements
        start-Stands (λ p. refl))

  Opening-OpenedAll :
      (max_devices : ℕ) (r : Option (World × List Device))
      → ((blocks : List ℕ) (n : ℕ) → host.malloc blocks n ≢ none)
      → Opening (linux_core host) (linux_laws host i) nothing_open 0 max_devices r
      → OpenedAll (min max_devices 8) r
  unfolding linux_laws
  Opening-OpenedAll max_devices _ plenty (opening w devices a) =
      opened_all w a.view' devices a.stands_for.0 a.names
        (elim a.count [ inl e ↦ e | inr (w', full) ↦ absurd (plenty w'.blocks w'.asked full) ])

  -- On Linux, where malloc never gives the address of a block that lives and never fails,
  -- open_all_devices(max) opens from the start the least of max and 8 devices: the numbers 0, 1 and
  -- so on, in order, each with a live handle.
  pub open_all_devices-OpenedAll :
      (max_devices : ℕ)
      → ((blocks : List ℕ) (n : ℕ) → host.malloc blocks n ≢ none)
      → OpenedAll
          (min max_devices 8)
          (open_all_devices (linux_core host) start_world (pos max_devices))
  unfolding linux_laws
  open_all_devices-OpenedAll max_devices plenty =
      Opening-OpenedAll max_devices
        (open_all_devices (linux_core host) start_world (pos max_devices)) plenty
        (open_all_devices-Opening (linux_core host) (linux_laws host i) start_world nothing_open
          max_devices start-Stands)
