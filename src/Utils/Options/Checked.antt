-- ===== src/Utils/Options/Checked.antt =====
-- What ProgramOptions::parse of utils/options.cpp keeps true of the values.
use Prim.Native.String.{String}
use text.Mathlib.Text.{◌==◌ as str_eq}
use text.Mathlib.TextEquality.{eq_iff}
use pcie_sim.Base.{
  ◌≡◌, ◌⊎◌, inl, inr, refl, Bool, true, false, List, [], ◌∷◌, Option, none, some, ◌>>=◌,
  if◌then◌else◌, arith, entry_of, entry_of-with_entry, Option-cases, Bool-cases, ap, subst, ◌∙◌,
}
use pcie_sim.Utils.Options.{
  ProgramOptions, blank_spec, set_value, settle, go_on, touch, validator_of, Kind, help, unknown,
  named, classify, is_value, verdict, take_value, parse_loop, parse,
}

-- What a validator says of a value, where there is a validator.
abbrev pub Validator : Type 0
Validator = Option (String → Option Bool)

-- A value that the validator accepts, or the text that stands for a missing one.
abbrev pub IsChecked : Validator → String → Type 0
IsChecked f value = (value ≡ "true") ⊎ (verdict f value ≡ some true)

-- The option has the validator, and a value that is checked.
abbrev pub HasChecked : Validator → String → ProgramOptions → Type 0
HasChecked f j o =
    (validator_of (entry_of j o.options) ≡ f)
    × ((value : String) × (entry_of j o.values ≡ some value) × IsChecked f value)

-- Where parsing leaves options, one option still has a checked value.
abbrev pub StillChecked : Validator → String → Option (Bool × ProgramOptions) → Type 0
StillChecked f j none = Unit {0}
StillChecked f j (some (ok, o)) = HasChecked f j o

-- Touching an option changes no validator and no value.
validator-touch :
    (o : ProgramOptions) (name j : String)
    → validator_of (entry_of j (touch o name).options) ≡ validator_of (entry_of j o.options)
validator-touch o name j = elim (Option-cases (entry_of name o.options)) [
  | inl e ↦
      rw (e, touch)
        (ground (arith, entry_of-with_entry j name blank_spec o.options, eq_iff name j, e))
  | inr (spec, e) ↦ rw (e, touch) refl
]

pub Kind-cases : (k : Kind) → ((k ≡ help) ⊎ (k ≡ unknown)) ⊎ ((name : String) × (k ≡ named name))
Kind-cases help = inl (inl refl)
Kind-cases unknown = inl (inr refl)
Kind-cases (named name) = inr (name, refl)

touch-values : (o : ProgramOptions) (name : String) → (touch o name).values ≡ o.values
touch-values o name = elim (Option-cases (entry_of name o.options)) [
  | inl e ↦ rw (e, touch) refl
  | inr (spec, e) ↦ rw (e, touch) refl
]

module _ (f : Validator) (j : String) where
  touch-HasChecked :
      (o : ProgramOptions) (name : String) → HasChecked f j o → HasChecked f j (touch o name)
  touch-HasChecked o name (g, (v, e, h)) =
      (validator-touch o name j ∙ g, (v, rw (touch-values o name) e, h))

  set_value-HasChecked :
      (o : ProgramOptions) (name value : String)
      → IsChecked (validator_of (entry_of name o.options)) value
      → HasChecked f j o
      → HasChecked f j (set_value o name value)
  set_value-HasChecked o name value c (g, (v, e, h)) = elim (Bool-cases (str_eq name j)) [
    | inl same ↦
        let same' : name ≡ j = (eq_iff name j).0 same in
        (
          g,
          (
            value,
            entry_of-with_entry j name value o.values
                ∙ ap (λ b. if b then some value else entry_of j o.values) same,
            subst (λ k. IsChecked k value) (ap (λ k. validator_of (entry_of k o.options)) same' ∙ g)
                c,
          ),
        )
    | inr apart ↦ (
      g,
      (
        v,
        entry_of-with_entry j name value o.values
            ∙ ap (λ b. if b then some value else entry_of j o.values) apart
            ∙ e,
        h,
      ),
    )
  ]

  settle-StillChecked :
      (o : ProgramOptions) (name value : String) (r : Option Bool)
      → verdict (validator_of (entry_of name o.options)) value ≡ r
      → HasChecked f j o
      → StillChecked f j (r >>= settle (touch o name) name value)
  settle-StillChecked o name value none v h = tt
  settle-StillChecked o name value (some false) v h = touch-HasChecked o name h
  settle-StillChecked o name value (some true) v h =
      set_value-HasChecked (touch o name) name value (inr (rw (validator-touch o name name) v))
        (touch-HasChecked o name h)

  take_value-StillChecked :
      (o : ProgramOptions) (name value : String)
      → HasChecked f j o
      → StillChecked f j (take_value o name value)
  unfolding take_value
  take_value-StillChecked o name value h =
      settle-StillChecked o name value (verdict (validator_of (entry_of name o.options)) value) refl
        h

  -- A value that is missing is stored as true.
  flag-HasChecked :
      (o : ProgramOptions) (name : String)
      → HasChecked f j o
      → HasChecked f j (set_value o name "true")
  flag-HasChecked o name h = set_value-HasChecked o name "true" (inl refl) h

  go_on-StillChecked :
      (r : Option (Bool × ProgramOptions)) (next : ProgramOptions → Option (Bool × ProgramOptions))
      → StillChecked f j r
      → ((o : ProgramOptions) → HasChecked f j o → StillChecked f j (next o))
      → StillChecked f j (go_on r next)
  go_on-StillChecked none next h k = tt
  go_on-StillChecked (some (false, o)) next h k = h
  go_on-StillChecked (some (true, o)) next h k = k o h

  parse_loop-StillChecked :
      (args : List String) (o : ProgramOptions)
      → HasChecked f j o
      → StillChecked f j (parse_loop o args)
  unfolding parse_loop
  parse_loop-StillChecked [] o h = h
  parse_loop-StillChecked (arg ∷ []) o h = elim (Kind-cases (classify o arg)) [
    | inl (inl e) ↦ rw (e, StillChecked) h
    | inl (inr e) ↦ rw (e, StillChecked) h
    | inr (name, e) ↦
        rw (e, StillChecked)
          (parse_loop-StillChecked [] (set_value o name "true") (flag-HasChecked o name h))
  ]
  parse_loop-StillChecked (arg ∷ next ∷ rest) o h = elim (Kind-cases (classify o arg)) [
    | inl (inl e) ↦ rw (e, StillChecked) h
    | inl (inr e) ↦ rw (e, StillChecked) h
    | inr (name, e) ↦ elim (Bool-cases (is_value next)) [
      | inl v ↦
          rw (e, v, StillChecked)
            (go_on-StillChecked (take_value o name next) (λ o'. parse_loop o' rest)
              (take_value-StillChecked o name next h) (λ o' h'. parse_loop-StillChecked rest o' h'))
      | inr v ↦
          rw (e, v, StillChecked)
            (parse_loop-StillChecked (next ∷ rest) (set_value o name "true")
              (flag-HasChecked o name h))
    ]
  ]

  -- Whatever the arguments are, where parsing returns, accepted or refused, an option that had a
  -- validator and a checked value has them still: the same validator, and a value that it accepts
  -- or the text that stands for a missing value.
  pub parse-HasChecked :
      (o : ProgramOptions) (name : String) (args : List String)
      → HasChecked f j o
      → StillChecked f j (parse o name args)
  unfolding parse
  parse-HasChecked o name args h = parse_loop-StillChecked args (record o { program_name = name }) h
