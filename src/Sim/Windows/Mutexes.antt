-- ===== src/Sim/Windows/Mutexes.antt =====
-- Every mutex that windows_sim_init of sim/windows_sim.c creates is closed again.
use pcie_sim.Base.{
  ℕ, ◌+◌, ◌-◌, ◌≤◌, ◌≡◌, ◌≢◌, inl, inr, refl, Bool, true, false, List, [], ◌∷◌, ◌++◌, map, Option,
  none, some, ◌>>=◌, ◌==◌, arith, Option-cases, if◌then◌else◌, All, length, length-append, ◌<◌,
  is_some, dec_lt, subst, sym, ap,
}
use pcie_sim.Sim.Windows.{fresh_stats}
use pcie_sim.Sim.Windows.Startup.{
  Slot, Globals, create_mutex, close_slot, close_slots, unmutexed, initialized_slot, init_slots,
  windows_sim_init, windows_sim_cleanup,
}

abbrev one_if : Bool → ℕ
one_if true = 1
one_if false = 0

-- How often devices hold a mutex.
abbrev holds : ℕ → Option ℕ → ℕ
holds q none = 0
holds q (some m) = one_if (q == m)

abbrev pub held : ℕ → List Slot → ℕ
held q [] = 0
held q (slot ∷ slots) = holds q slot.mutex + held q slots

held-append :
    (q : ℕ) (slots : List Slot) (slot : Slot)
    → held q (slots ++ (slot ∷ [])) ≡ held q slots + holds q slot.mutex
held-append q [] slot = omega arith
held-append q (s ∷ slots) slot = omega (arith, held-append q slots slot)

-- Closing what is open.
close_slot-held :
    (mutexes : ℕ → ℕ) (o : Option ℕ)
    → ((q : ℕ) → holds q o ≤ mutexes q)
    → (mutexes' : ℕ → ℕ) × (close_slot mutexes o ≡ some mutexes')
      × ((q : ℕ) → mutexes' q + holds q o ≡ mutexes q)
close_slot-held mutexes none l = (mutexes, refl, λ q. omega arith)
close_slot-held mutexes (some m) l =
    let self : (m == m) ≡ true = ground arith in
    let there : (mutexes m == 0) ≡ false = ground (arith, l m, self) in
    ((λ q. if q == m then mutexes q - 1 else mutexes q), rw there refl, λ q. ground (arith, l q))

close_slots-held :
    (slots : List Slot) (mutexes : ℕ → ℕ)
    → ((q : ℕ) → held q slots ≤ mutexes q)
    → (mutexes' : ℕ → ℕ) × (close_slots mutexes slots ≡ some mutexes')
      × ((q : ℕ) → mutexes' q + held q slots ≡ mutexes q)
unfolding close_slots
close_slots-held [] mutexes l = (mutexes, refl, λ q. omega arith)
close_slots-held (slot ∷ slots) mutexes l =
    let (m₁, e₁, h₁) = close_slot-held mutexes slot.mutex (λ q. omega (arith, l q)) in
    let (m₂, e₂, h₂) = close_slots-held slots m₁ (λ q. omega (arith, l q, h₁ q)) in
    (m₂, rw e₁ e₂, λ q. omega (arith, h₁ q, h₂ q))

-- A device after its initialization, and after the clean-up.
pub record IsReady (slot : Slot) : Type 0 where
  pub mutex : ℕ
  pub has_mutex : slot.mutex ≡ some mutex
  pub inactive : slot.state.active ≡ false
  pub stats : slot.state.stats ≡ fresh_stats
  pub ticking : slot.state.frequency ≢ 0

abbrev pub IsDown : Slot → Type 0
IsDown slot = (slot.mutex ≡ none) × (slot.state.active ≡ false)

All-append :
    (slots : List Slot) (slot : Slot)
    → All IsReady slots
    → IsReady slot
    → All IsReady (slots ++ (slot ∷ []))
All-append [] slot a p = (p, tt)
All-append (s ∷ slots) slot a p = (a.0, All-append slots slot a.1 p)

All-IsDown : (slots : List Slot) → All IsDown (map unmutexed slots)
All-IsDown [] = tt
All-IsDown (slot ∷ slots) = ((refl, refl), All-IsDown slots)

-- What was open before is open, and nothing else.
abbrev pub SameMutexes : Globals → Globals → Type 0
SameMutexes g g' = (q : ℕ) → g'.open_mutexes q ≡ g.open_mutexes q

-- What the clean-up leaves of initialized globals.
pub data Cleaned (g : Globals) : Option Globals → Type 0 where
  cleaned :
      (g' : Globals)
      → g'.initialized ≡ false
      → g'.lock ≡ false
      → SameMutexes g g'
      → All IsDown g'.slots
      → Cleaned g (some g')

-- What the initialization leaves of globals that were not initialized.
pub data Initialized (create : ℕ → Option ℕ) (g : Globals) : Option (Globals × Bool) → Type 0 where
  ready :
      (g' : Globals)
      → ((i : ℕ) → i < length g.slots → is_some (create i) ≡ true)
      → g'.initialized ≡ true
      → g'.lock ≡ true
      → All IsReady g'.slots
      → length g'.slots ≡ length g.slots
      → Cleaned g (windows_sim_cleanup g')
      → Initialized create g (some (g', true))
  gave_up :
      (g' : Globals) (i : ℕ)
      → i < length g.slots
      → create i ≡ none
      → g'.initialized ≡ false
      → g'.lock ≡ false
      → SameMutexes g g'
      → Initialized create g (some (g', false))

module _ (create frequency : ℕ → Option ℕ)
    (positive : (i f : ℕ) → frequency i ≡ some f → f ≢ 0) where
  data Started (base : ℕ → ℕ) (n : ℕ) : Option (Bool × List Slot × (ℕ → ℕ)) → Type 0 where
    started :
        (slots : List Slot) (mutexes : ℕ → ℕ)
        → ((q : ℕ) → mutexes q ≡ base q + held q slots)
        → All IsReady slots
        → length slots ≡ n
        → ((i : ℕ) → i < n → is_some (create i) ≡ true)
        → Started base n (some (true, slots, mutexes))
    failed :
        (slots : List Slot) (mutexes : ℕ → ℕ) (i : ℕ)
        → i < n
        → create i ≡ none
        → ((q : ℕ) → mutexes q ≡ base q)
        → Started base n (some (false, slots, mutexes))

  initialized_slot-IsReady : (i m : ℕ) → IsReady (initialized_slot create frequency i m)
  initialized_slot-IsReady i m = record {
    mutex = m;
    has_mutex = refl;
    inactive = refl;
    stats = refl;
    ticking = elim (Option-cases (frequency i)) [
      | inl e ↦ rw e (λ z. omega (arith, z))
      | inr (f, e) ↦ rw e (positive i f e)
    ];
  }

  init_slots-Started :
      (base : ℕ → ℕ) (n i : ℕ) (done rest : List Slot) (mutexes : ℕ → ℕ)
      → length done + length rest ≡ n
      → length done ≡ i
      → ((j : ℕ) → j < i → is_some (create j) ≡ true)
      → ((q : ℕ) → mutexes q ≡ base q + held q done)
      → All IsReady done
      → Started base n (init_slots create frequency i done rest mutexes)
  unfolding init_slots
  init_slots-Started base n i done [] mutexes l at made h a =
      started done mutexes h a (omega (arith, l)) (λ j k. made j (omega (arith, k, l, at)))
  init_slots-Started base n i done (slot ∷ rest) mutexes l at made h a =
      elim (Option-cases (create i)) [
        | inl e ↦
            let (m', e', h') = close_slots-held done mutexes (λ q. omega (arith, h q)) in
            rw (init_slots, e, e')
              (failed (done ++ (unmutexed slot ∷ rest)) m' i (omega (arith, l, at)) e
                (λ q. omega (arith, h q, h' q)))
        | inr (m, e) ↦
            let new = initialized_slot create frequency i m in
            rw (init_slots, e)
              (init_slots-Started base n (i + 1) (done ++ (new ∷ [])) rest (create_mutex mutexes m)
                (omega (arith, l, length-append done (new ∷ [])))
                (omega (arith, at, length-append done (new ∷ [])))
                (λ j k. elim (dec_lt j i) [
                  | yes before ↦ made j before
                  | no not_before ↦
                      let same : j ≡ i = omega (arith, k, not_before) in rw (same, e) refl
                ])
                (λ q. ground (arith, h q, held-append q done new))
                (All-append done new a (initialized_slot-IsReady i m)))
      ]

  cleanup-Cleaned :
      (g : Globals) (slots : List Slot) (mutexes : ℕ → ℕ)
      → ((q : ℕ) → mutexes q ≡ g.open_mutexes q + held q slots)
      → Cleaned g (
          windows_sim_cleanup
            (record g { slots = slots; initialized = true; lock = true; open_mutexes = mutexes }))
  unfolding windows_sim_cleanup
  cleanup-Cleaned g slots mutexes h =
      let (m', e, h') = close_slots-held slots mutexes (λ q. omega (arith, h q)) in
      rw e (cleaned _ refl refl (λ q. omega (arith, h q, h' q)) (All-IsDown slots))

  from_slots : Globals → Option (Bool × List Slot × (ℕ → ℕ)) → Option (Globals × Bool)
  from_slots g r = r >>= (λ (ok, slots, mutexes).
      some (record g { slots = slots; initialized = ok; lock = ok; open_mutexes = mutexes }, ok))

  Started-Initialized :
      (g : Globals) (r : Option (Bool × List Slot × (ℕ → ℕ)))
      → Started g.open_mutexes (length g.slots) r
      → Initialized create g (from_slots g r)
  unfolding from_slots
  Started-Initialized g _ (started slots mutexes h a n made) =
      ready _ made refl refl a n (cleanup-Cleaned g slots mutexes h)
  Started-Initialized g _ (failed slots mutexes i l e h) = gave_up _ i l e refl refl h

  -- If the performance counter has a frequency: where a mutex can be created for each device,
  -- windows_sim_init initializes every device, with a mutex and a frequency to divide by, and
  -- windows_sim_cleanup then closes every mutex that it created; where it cannot for some device,
  -- windows_sim_init fails, has closed all that it created and deleted the critical section.
  pub windows_sim_init_all_or_nothing :
      (g : Globals)
      → g.initialized ≡ false
      → Initialized create g (windows_sim_init create frequency g)
  unfolding windows_sim_init from_slots
  windows_sim_init_all_or_nothing g off =
      let started' =
        Started-Initialized g (init_slots create frequency 0 [] g.slots g.open_mutexes) (
          init_slots-Started g.open_mutexes (length g.slots) 0 [] g.slots g.open_mutexes
            (omega arith) refl (λ j k. absurd (omega (arith, k))) (λ q. omega arith) tt) in
      subst (Initialized create g)
        (sym (
          ap
            (λ b.
              if b
              then some (g, true)
              else from_slots g (init_slots create frequency 0 [] g.slots g.open_mutexes))
            off))
        started'
