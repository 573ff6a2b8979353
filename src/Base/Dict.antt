-- ===== src/Base/Dict.antt =====
-- std::map from texts, as a list of its pairs, and the parts of a text that substr() cuts out.
use Prim.Native.String.{String}
use Prim.Native.Char.{code}
use text.Mathlib.Text.{◌==◌ as str_eq}
use text.Mathlib.TextEquality.{eq_iff}
use Prim.Native.Nat.{ℕ, zero, suc}
use mathlib.Core.Path.{◌≡◌, refl}
use mathlib.Core.List.{List, [], ◌∷◌}
use mathlib.Core.Option.{Option, none, some}
use native.Mathlib.Omega.{arith}
use pcie_sim.Base.Tests.{if◌then◌else◌}

-- `s.substr(0, n)`
abbrev pub text_take : ℕ → String → String
text_take zero s = ""
text_take (suc n) String.[] = ""
text_take (suc n) (String.◌∷◌ c s) = String.◌∷◌ c (text_take n s)

-- `s.substr(n)`, of a text that has `n` characters.
abbrev pub text_drop : ℕ → String → String
text_drop zero s = s
text_drop (suc n) String.[] = ""
text_drop (suc n) (String.◌∷◌ c s) = text_drop n s

abbrev pub text_length : String → ℕ
text_length String.[] = 0
text_length (String.◌∷◌ c s) = suc (text_length s)

-- The bytes of a text, if it is ASCII.
abbrev pub bytes_of : String → List ℕ
bytes_of String.[] = []
bytes_of (String.◌∷◌ c s) = code c ∷ bytes_of s

-- An entry by its key, and the map with one entry set.
module _ {ℓ} {V : Type ℓ} where
  abbrev pub entry_of : String → List (String × V) → Option V
  entry_of key [] = none
  entry_of key ((k, v) ∷ m) = if str_eq k key then some v else entry_of key m

  abbrev pub with_entry : String → V → List (String × V) → List (String × V)
  with_entry key v [] = (key, v) ∷ []
  with_entry key v ((k, w) ∷ m) = if str_eq k key then (k, v) ∷ m else (k, w) ∷ with_entry key v m

  pub entry_of-with_entry :
      (j key : String) (v : V) (m : List (String × V))
      → entry_of j (with_entry key v m) ≡ (if str_eq key j then some v else entry_of j m)
  entry_of-with_entry j key v [] = refl
  entry_of-with_entry j key v ((k, w) ∷ m) =
      ground (arith, eq_iff k key, eq_iff k j, eq_iff key j, entry_of-with_entry j key v m)
