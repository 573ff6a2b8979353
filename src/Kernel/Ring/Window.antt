-- ===== src/Kernel/Ring/Window.antt =====
-- The entries of a ring that lie between its tail and its head, as a list.
use native.Mathlib.Nat.{mod-eq_of_lt, mod-eq-sub-mod, mod-add-mod}
use pcie_sim.Base.{
  ℕ, zero, suc, ◌+◌, ◌-◌, ◌%◌, ◌<◌, ◌≡◌, ◌≢◌, refl, ap, ap₂, sym, ◌∙◌, List, [], ◌∷◌, ◌++◌, arith,
  length, dec_lt,
}

-- `f` read at the `n` indices from `h` on, each reduced by the ring's size `s`.
abbrev pub window {ℓ} : {A : Type ℓ} → (ℕ → A) → ℕ → ℕ → ℕ → List A
window f s h zero = []
window f s h (suc n) = f (h % s) ∷ window f s (h + 1) n

module _ {ℓ} {A : Type ℓ} (s : ℕ) where
  pub length-window : (f : ℕ → A) (h n : ℕ) → length (window f s h n) ≡ n
  length-window f h zero = refl
  length-window f h (suc n) = ap suc (length-window f (h + 1) n)

  read_step : (f : ℕ → A) (h k : ℕ) → f ((h + 1 + k) % s) ≡ f ((h + suc k) % s)
  read_step f h k = ap (λ t. f (t % s)) (omega arith)

  read_first : (f : ℕ → A) (h : ℕ) → f ((h + 0) % s) ≡ f (h % s)
  read_first f h = ap (λ t. f (t % s)) (omega arith)

  -- The window depends only on the entries at its indices.
  pub window_cong :
      (f g : ℕ → A) (h i n : ℕ)
      → ((k : ℕ) → k < n → f ((h + k) % s) ≡ g ((i + k) % s))
      → window f s h n ≡ window g s i n
  window_cong f g h i zero e = refl
  window_cong f g h i (suc n) e =
      ap₂ ◌∷◌ (sym (read_first f h) ∙ e 0 (omega arith) ∙ read_first g i) (
        window_cong f g (h + 1) (i + 1) n
          (λ k p. read_step f h k ∙ e (suc k) (omega arith) ∙ sym (read_step g i k)))

  -- One entry more goes to the end.
  pub window_snoc :
      (f : ℕ → A) (h n : ℕ) → window f s h (suc n) ≡ window f s h n ++ f ((h + n) % s) ∷ []
  window_snoc f h zero = ap (λ a. a ∷ []) (sym (read_first f h))
  window_snoc f h (suc n) =
      ap (λ xs. f (h % s) ∷ xs)
        (window_snoc f (h + 1) n ∙ ap (λ a. window f s (h + 1) n ++ a ∷ []) (read_step f h n))

  -- The start may be reduced.
  pub window_mod : (f : ℕ → A) (h n : ℕ) → window f s (h % s) n ≡ window f s h n
  window_mod f h n = window_cong f f (h % s) h n (λ k p. ap f (mod-add-mod h s k))

-- Fewer than `s` steps round a ring of size `s` do not come back to the start.
pub step_ne : (s i k : ℕ) → i < s → 0 < k → k < s → (i + k) % s ≢ i
step_ne s i k hi hk hs = elim (dec_lt (i + k) s) [
  | yes p ↦ omega (arith, mod-eq_of_lt p)
  | no p ↦ omega (
    arith,
    mod-eq-sub-mod {n = i + k} {m = s} (omega arith),
    mod-eq_of_lt {n = i + k - s} {m = s} (omega arith),
  )
]
