-- ===== src/Base/Collections.antt =====
-- Sums, and predicates on lists by recursion, which compute to tuples and sums.
use Prim.Native.Nat.{ℕ, ◌+◌, ◌≤◌}
use mathlib.Core.Path.{◌≡◌, refl, sym, subst}
use mathlib.Core.Logic.{◌⊎◌, inl, inr}
use mathlib.Core.List.{List, [], ◌∷◌}
use native.Mathlib.Omega.{arith}
use pcie_sim.Base.Tests.{ltb, if◌then◌else◌, Bool-cases}

abbrev pub sum : List ℕ → ℕ
sum [] = 0
sum (x ∷ xs) = x + sum xs

abbrev pub All {ℓ κ} : {A : Type ℓ} → (A → Type κ) → List A → Type κ
All P [] = Unit
All P (x ∷ xs) = P x × All P xs

abbrev pub Has : ℕ → List ℕ → Type 0
Has m [] = ⊥
Has m (x ∷ xs) = (m ≡ x) ⊎ Has m xs

-- `m` is in the list, and nothing in it is less.
abbrev pub IsLeast : ℕ → List ℕ → Type 0
IsLeast m xs = Has m xs × All (λ x. m ≤ x) xs

-- `m` is in the list, and nothing in it is greater.
abbrev pub IsGreatest : ℕ → List ℕ → Type 0
IsGreatest m xs = Has m xs × All (λ x. x ≤ m) xs

pub All-le_trans : (m n : ℕ) (xs : List ℕ) → m ≤ n → All (λ x. n ≤ x) xs → All (λ x. m ≤ x) xs
All-le_trans m n [] h a = tt
All-le_trans m n (x ∷ xs) h a = (omega (arith, a.0), All-le_trans m n xs h a.1)

pub All-ge_trans : (m n : ℕ) (xs : List ℕ) → n ≤ m → All (λ x. x ≤ n) xs → All (λ x. x ≤ m) xs
All-ge_trans m n [] h a = tt
All-ge_trans m n (x ∷ xs) h a = (omega (arith, a.0), All-ge_trans m n xs h a.1)

-- One element more: the least and the greatest are found by one comparison.
pub IsLeast-cons :
    (m x : ℕ) (xs : List ℕ) → IsLeast m xs → IsLeast (if ltb x m then x else m) (x ∷ xs)
IsLeast-cons m x xs h = elim (Bool-cases (ltb x m)) [
  | inl less ↦
      subst (λ b. IsLeast (if b then x else m) (x ∷ xs)) (sym less)
        (inl refl, (omega arith, All-le_trans x m xs (ground arith) h.1))
  | inr more ↦
      subst (λ b. IsLeast (if b then x else m) (x ∷ xs)) (sym more) (inr h.0, (ground arith, h.1))
]

pub IsGreatest-cons :
    (m x : ℕ) (xs : List ℕ) → IsGreatest m xs → IsGreatest (if ltb m x then x else m) (x ∷ xs)
IsGreatest-cons m x xs h = elim (Bool-cases (ltb m x)) [
  | inl more ↦
      subst (λ b. IsGreatest (if b then x else m) (x ∷ xs)) (sym more)
        (inl refl, (omega arith, All-ge_trans x m xs (ground arith) h.1))
  | inr less ↦
      subst (λ b. IsGreatest (if b then x else m) (x ∷ xs)) (sym less)
        (inr h.0, (ground arith, h.1))
]
