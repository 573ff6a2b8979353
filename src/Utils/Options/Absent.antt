-- ===== src/Utils/Options/Absent.antt =====
-- What is no option of ProgramOptions of utils/options.cpp never gets a value from a command line.
use Prim.Native.String.{String}
use text.Mathlib.Text.{◌==◌ as str_eq}
use text.Mathlib.TextEquality.{eq_iff}
use pcie_sim.Base.{
  ◌≡◌, ◌≢◌, inl, inr, refl, sym, ap, ◌∙◌, Bool, true, false, ◌&&◌, ◌||◌, List, [], ◌∷◌, Option,
  none, some, ◌>>=◌, if◌then◌else◌, ltb, entry_of, entry_of-with_entry, Option-cases, Bool-cases,
  text_take, text_drop, text_length, ℤ,
}
use pcie_sim.Utils.Options.{
  OptionSpec, ProgramOptions, blank_spec, set_value, settle, go_on, touch, validator_of, help,
  unknown, named, known, alias_kind, classify, is_value, verdict, take_value, parse_loop, parse,
  add_option, add_alias,
}
use pcie_sim.Utils.Options.Checked.{Kind-cases}
use pcie_sim.Utils.Options.Standard.{standard_specs, create_otpu_options}

-- No alias stands for the name.
abbrev pub NoAlias : String → List (String × String) → Type 0
NoAlias j [] = Unit {0}
NoAlias j ((alias, name) ∷ m) = (str_eq name j ≡ false) × NoAlias j m

-- The name is no option, and has no value.
pub record IsAbsent (j : String) (o : ProgramOptions) : Type 0 where
  pub no_option : entry_of j o.options ≡ none
  pub no_value : entry_of j o.values ≡ none
  pub no_alias : NoAlias j o.aliases

-- Where parsing leaves options, the name has no value.
abbrev pub StillAbsent : String → Option (Bool × ProgramOptions) → Type 0
StillAbsent j none = Unit {0}
StillAbsent j (some (ok, o)) = IsAbsent j o

module _ (j : String) where
  NoAlias-entry_of :
      (key name : String) (m : List (String × String))
      → NoAlias j m
      → entry_of key m ≡ some name
      → str_eq name j ≡ false
  NoAlias-entry_of key name [] a e = absurd (cc e)
  NoAlias-entry_of key name ((alias, other_name) ∷ m) a e = elim (Bool-cases (str_eq alias key)) [
    | inl here ↦
        let first : entry_of key ((alias, other_name) ∷ m) ≡ some other_name = rw here refl in
        let same : other_name ≡ name = cc (sym first ∙ e) in rw (← same) a.0
    | inr on ↦
        let next : entry_of key ((alias, other_name) ∷ m) ≡ entry_of key m = rw on refl in
        NoAlias-entry_of key name m a.1 (sym next ∙ e)
  ]

  apart : (name : String) → name ≢ j → str_eq name j ≡ false
  apart name ne = elim (Bool-cases (str_eq name j)) [
    | inl same ↦ absurd (ne ((eq_iff name j).0 same))
    | inr other_name ↦ other_name
  ]

  known-named :
      (o : ProgramOptions) (key name : String) (r : Option OptionSpec)
      → entry_of j o.options ≡ none
      → entry_of key o.options ≡ r
      → known r key ≡ named name
      → str_eq name j ≡ false
  known-named o key name none absent e h = absurd (cc h)
  known-named o key name (some spec) absent e h =
      let same : key ≡ name = cc h in
      apart name (λ q. absurd (cc (sym e ∙ ap (λ k. entry_of k o.options) (same ∙ q) ∙ absent)))

  alias_kind-named :
      (o : ProgramOptions) (key name : String) (r : Option String)
      → NoAlias j o.aliases
      → entry_of key o.aliases ≡ r
      → alias_kind r ≡ named name
      → str_eq name j ≡ false
  alias_kind-named o key name none a e h = absurd (cc h)
  alias_kind-named o key name (some target) a e h =
      let same : target ≡ name = cc h in NoAlias-entry_of key name o.aliases a (e ∙ ap some same)

  -- An argument never names it.
  classify-named :
      (o : ProgramOptions) (arg name : String)
      → IsAbsent j o
      → classify o arg ≡ named name
      → str_eq name j ≡ false
  unfolding classify
  classify-named o arg name a h =
      by_tests (str_eq arg "--help" || str_eq arg "-h") (str_eq (text_take 2 arg) "--")
        (str_eq (text_take 1 arg) "-" && ltb 1 (text_length arg)) h
    where
      by_tests :
          (b₁ b₂ b₃ : Bool)
          → ((if b₁
                then help
                else (if b₂
                    then known (entry_of (text_drop 2 arg) o.options) (text_drop 2 arg)
                    else (if b₃
                        then alias_kind (entry_of (text_drop 1 arg) o.aliases)
                        else unknown)))
              ≡ named name)
          → str_eq name j ≡ false
      by_tests true b₂ b₃ e = absurd (cc e)
      by_tests false true b₃ e =
          known-named o (text_drop 2 arg) name (entry_of (text_drop 2 arg) o.options) a.no_option
            refl e
      by_tests false false true e =
          alias_kind-named o (text_drop 1 arg) name (entry_of (text_drop 1 arg) o.aliases)
            a.no_alias refl e
      by_tests false false false e = absurd (cc e)

  set_value-IsAbsent :
      (o : ProgramOptions) (name value : String)
      → str_eq name j ≡ false
      → IsAbsent j o
      → IsAbsent j (set_value o name value)
  set_value-IsAbsent o name value ne a = record {
    no_option = a.no_option;
    no_value =
        entry_of-with_entry j name value o.values
        ∙ ap (λ b. if b then some value else entry_of j o.values) ne
        ∙ a.no_value;
    no_alias = a.no_alias;
  }

  touch-IsAbsent :
      (o : ProgramOptions) (name : String)
      → str_eq name j ≡ false
      → IsAbsent j o
      → IsAbsent j (touch o name)
  touch-IsAbsent o name ne a = elim (Option-cases (entry_of name o.options)) [
    | inl e ↦
        rw (e, touch)
          (record {
            no_option =
                entry_of-with_entry j name blank_spec o.options
                ∙ ap (λ b. if b then some blank_spec else entry_of j o.options) ne
                ∙ a.no_option;
            no_value = a.no_value;
            no_alias = a.no_alias;
          })
    | inr (spec, e) ↦ rw (e, touch) a
  ]

  settle-StillAbsent :
      (o : ProgramOptions) (name value : String) (r : Option Bool)
      → str_eq name j ≡ false
      → IsAbsent j o
      → StillAbsent j (r >>= settle (touch o name) name value)
  settle-StillAbsent o name value none ne a = tt
  settle-StillAbsent o name value (some false) ne a = touch-IsAbsent o name ne a
  settle-StillAbsent o name value (some true) ne a =
      set_value-IsAbsent (touch o name) name value ne (touch-IsAbsent o name ne a)

  go_on-StillAbsent :
      (r : Option (Bool × ProgramOptions)) (next : ProgramOptions → Option (Bool × ProgramOptions))
      → StillAbsent j r
      → ((o : ProgramOptions) → IsAbsent j o → StillAbsent j (next o))
      → StillAbsent j (go_on r next)
  go_on-StillAbsent none next a k = tt
  go_on-StillAbsent (some (false, o)) next a k = a
  go_on-StillAbsent (some (true, o)) next a k = k o a

  parse_loop-StillAbsent :
      (args : List String) (o : ProgramOptions) → IsAbsent j o → StillAbsent j (parse_loop o args)
  unfolding parse_loop take_value
  parse_loop-StillAbsent [] o a = a
  parse_loop-StillAbsent (arg ∷ []) o a = elim (Kind-cases (classify o arg)) [
    | inl (inl e) ↦ rw (e, StillAbsent) a
    | inl (inr e) ↦ rw (e, StillAbsent) a
    | inr (name, e) ↦
        rw (e, StillAbsent)
          (parse_loop-StillAbsent [] (set_value o name "true")
            (set_value-IsAbsent o name "true" (classify-named o arg name a e) a))
  ]
  parse_loop-StillAbsent (arg ∷ next ∷ rest) o a = elim (Kind-cases (classify o arg)) [
    | inl (inl e) ↦ rw (e, StillAbsent) a
    | inl (inr e) ↦ rw (e, StillAbsent) a
    | inr (name, e) ↦
        let ne = classify-named o arg name a e in
        elim (Bool-cases (is_value next)) [
          | inl v ↦
              rw (e, v, StillAbsent)
                (go_on-StillAbsent (take_value o name next) (λ o'. parse_loop o' rest)
                  (settle-StillAbsent o name next
                    (verdict (validator_of (entry_of name o.options)) next) ne a)
                  (λ o' a'. parse_loop-StillAbsent rest o' a'))
          | inr v ↦
              rw (e, v, StillAbsent)
                (parse_loop-StillAbsent (next ∷ rest) (set_value o name "true")
                  (set_value-IsAbsent o name "true" ne a))
        ]
  ]

-- Where parsing returns, help has no value: it is no option.
pub help-IsAbsent :
    (stoi : String → Option ℤ) (name : String) (args : List String)
    → StillAbsent "help" (parse (create_otpu_options stoi) name args)
unfolding parse create_otpu_options standard_specs add_option add_alias
help-IsAbsent stoi name args =
    parse_loop-StillAbsent "help" args (record (create_otpu_options stoi) { program_name = name })
      (record {
        no_option = refl;
        no_value = refl;
        no_alias = (refl, (refl, (refl, (refl, (refl, (refl, (refl, (refl, (refl, tt)))))))));
      })
