-- ===== src/Utils/Options/Throws.antt =====
-- When ProgramOptions::parse of utils/options.cpp throws: only where std::stoi does, on the argument
-- of an option with a number.
use Prim.Native.String.{String}
use text.Mathlib.Text.{◌==◌ as str_eq}
use text.Mathlib.TextEquality.{eq_iff}
use pcie_sim.Base.{
  arith, ℕ, ◌≡◌, ◌⊎◌, inl, inr, refl, Bool, true, false, List, [], ◌∷◌, Option, none, some, ◌>>=◌,
  ℤ, entry_of, with_entry, Bool-cases, Option-cases, subst, ap, sym, ◌∙◌, text_take, text_drop,
  ◌||◌, ◌&&◌, ltb, if◌then◌else◌, text_length,
}
use pcie_sim.Utils.Options.{
  OptionSpec, ProgramOptions, blank_spec, set_value, settle, Kind, help, unknown, go_on, touch,
  validator_of, classify, known, alias_kind, named, is_value, verdict, take_value, parse_loop,
  parse, add_option, add_alias,
}
use pcie_sim.Utils.Options.Checked.{Validator, Kind-cases}
use pcie_sim.Utils.Options.Standard.{within, standard_specs, create_otpu_options}
use pcie_sim.Utils.Options.Numbers.{IsNumber, devices, size, rate, threads, duration}

-- The aliases of the test program.
abbrev pub aliases : List (String × String)
aliases =
    ("d", "num-devices")
    ∷ ("p", "pattern")
    ∷ ("s", "size")
    ∷ ("r", "rate")
    ∷ ("l", "log-csv")
    ∷ ("v", "verbose")
    ∷ ("e", "error-scenario")
    ∷ ("t", "threads")
    ∷ ("dur", "duration")
    ∷ []

-- The argument is the option's name after two dashes, or an alias of it after one.
abbrev pub Spells : String → String → Type 0
Spells arg name =
    ((text_take 2 arg ≡ "--") × (text_drop 2 arg ≡ name))
    ⊎ ((text_take 1 arg ≡ "-") × (entry_of (text_drop 1 arg) aliases ≡ some name))

-- The value follows the option in the arguments.
abbrev pub Gives : String → String → List String → Type 0
Gives name value [] = ⊥
Gives name value (arg ∷ []) = ⊥
Gives name value (arg ∷ next ∷ rest) =
    (Spells arg name × (value ≡ next)) ⊎ Gives name value (next ∷ rest)

known-Spells :
    (e : Option OptionSpec) (text name : String) → known e text ≡ named name → text ≡ name
known-Spells none text name e = absurd (cc e)
known-Spells (some spec) text name e = cc e

alias_kind-some : (e : Option String) (name : String) → alias_kind e ≡ named name → e ≡ some name
alias_kind-some none name e = absurd (cc e)
alias_kind-some (some other) name e = ap some (cc e)

-- What the tests of the loop have found, where an argument names an option.
found :
    (p q r : Bool) (k k' : Kind) (name : String)
    → (if p then help else (if q then k else (if r then k' else unknown))) ≡ named name
    → ((q ≡ true) × (k ≡ named name)) ⊎ ((r ≡ true) × (k' ≡ named name))
found true q r k k' name e = absurd (cc e)
found false true r k k' name e = inl (refl, e)
found false false true k k' name e = inr (refl, e)
found false false false k k' name e = absurd (cc e)

and_left : (p q : Bool) → (p && q) ≡ true → p ≡ true
and_left p q e = ground (arith, e)

classify-Spells :
    (o : ProgramOptions) (arg name : String)
    → o.aliases ≡ aliases
    → classify o arg ≡ named name
    → Spells arg name
unfolding classify
classify-Spells o arg name al e =
    elim (found (str_eq arg "--help" || str_eq arg "-h") (str_eq (text_take 2 arg) "--")
      (str_eq (text_take 1 arg) "-" && ltb 1 (text_length arg))
      (known (entry_of (text_drop 2 arg) o.options) (text_drop 2 arg))
      (alias_kind (entry_of (text_drop 1 arg) o.aliases)) name e) [
        | inl (two, e') ↦ inl (
          (eq_iff (text_take 2 arg) "--").0 two,
          known-Spells (entry_of (text_drop 2 arg) o.options) (text_drop 2 arg) name e',
        )
        | inr (one, e') ↦ inr (
          (eq_iff (text_take 1 arg) "-").0
              (and_left (str_eq (text_take 1 arg) "-") (ltb 1 (text_length arg)) one),
          ap (entry_of (text_drop 1 arg)) (sym al)
              ∙ alias_kind-some (entry_of (text_drop 1 arg) o.aliases) name e',
        )
      ]

Gives-later :
    (arg name value : String) (args : List String)
    → Gives name value args
    → Gives name value (arg ∷ args)
Gives-later arg name value [] g = absurd g
Gives-later arg name value (next ∷ rest) g = inr g

module _ (stoi : String → Option ℤ) where
  -- The validator throws only for an option with a number, where stoi does.
  abbrev pub Blames : String → Validator → Type 0
  Blames name f = (value : String) → (verdict f value ≡ none) → IsNumber name × (stoi value ≡ none)

  abbrev pub AllBlame : List (String × OptionSpec) → Type 0
  AllBlame [] = Unit {0}
  AllBlame ((name, spec) ∷ options) = Blames name spec.validator × AllBlame options

  -- What parsing leaves, or the argument that it threw on.
  abbrev pub Blamed : List String → Option (Bool × ProgramOptions) → Type 0
  Blamed args (some r) = Unit {0}
  Blamed args none =
      (name : String) × (value : String) × IsNumber name
      × Gives name value args
      × (stoi value ≡ none)

  entry_of-Blames :
      (j : String) (m : List (String × OptionSpec))
      → AllBlame m
      → Blames j (validator_of (entry_of j m))
  entry_of-Blames j [] h = λ value e. absurd (cc e)
  entry_of-Blames j ((name, spec) ∷ m) h = elim (Bool-cases (str_eq name j)) [
    | inl same ↦ rw same (subst (λ x. Blames x spec.validator) ((eq_iff name j).0 same) h.0)
    | inr apart ↦ rw apart (entry_of-Blames j m h.1)
  ]

  with_entry-AllBlame :
      (name : String) (m : List (String × OptionSpec))
      → AllBlame m
      → AllBlame (with_entry name blank_spec m)
  with_entry-AllBlame name [] h = ((λ value e. absurd (cc e)), tt)
  with_entry-AllBlame name ((k, spec) ∷ m) h = elim (Bool-cases (str_eq k name)) [
    | inl same ↦ rw same ((λ value e. absurd (cc e)), h.1)
    | inr apart ↦ rw apart (h.0, with_entry-AllBlame name m h.1)
  ]

  touch-AllBlame :
      (o : ProgramOptions) (name : String) → AllBlame o.options → AllBlame (touch o name).options
  touch-AllBlame o name h = elim (Option-cases (entry_of name o.options)) [
    | inl e ↦ rw (e, touch) (with_entry-AllBlame name o.options h)
    | inr (spec, e) ↦ rw (e, touch) h
  ]

  later :
      (arg : String) (args : List String) (r : Option (Bool × ProgramOptions))
      → Blamed args r
      → Blamed (arg ∷ args) r
  later arg args (some r) b = tt
  later arg args none (name, value, i, m, e) =
      (name, value, i, Gives-later arg name value args m, e)

  touch-aliases : (o : ProgramOptions) (name : String) → (touch o name).aliases ≡ o.aliases
  touch-aliases o name = elim (Option-cases (entry_of name o.options)) [
    | inl e ↦ rw (e, touch) refl
    | inr (spec, e) ↦ rw (e, touch) refl
  ]

  -- An option with its value, and the arguments after it.
  settle-Blamed :
      (o : ProgramOptions) (arg name value : String) (rest : List String) (r : Option Bool)
      (next : ProgramOptions → Option (Bool × ProgramOptions))
      → verdict (validator_of (entry_of name o.options)) value ≡ r
      → Spells arg name
      → o.aliases ≡ aliases
      → AllBlame o.options
      → ((o' : ProgramOptions) → o'.aliases ≡ aliases → AllBlame o'.options → Blamed rest (next o'))
      → Blamed (arg ∷ value ∷ rest) (go_on (r >>= settle (touch o name) name value) next)
  settle-Blamed o arg name value rest none next e sp al h k =
      let (i, t) = entry_of-Blames name o.options h value e in (name, value, i, inl (sp, refl), t)
  settle-Blamed o arg name value rest (some false) next e sp al h k = tt
  settle-Blamed o arg name value rest (some true) next e sp al h k =
      let o' = set_value (touch o name) name value in
      later arg (value ∷ rest) (next o')
        (later value rest (next o') (k o' (touch-aliases o name ∙ al) (touch-AllBlame o name h)))

  parse_loop-Blamed :
      (args : List String) (o : ProgramOptions)
      → o.aliases ≡ aliases
      → AllBlame o.options
      → Blamed args (parse_loop o args)
  unfolding parse_loop take_value
  parse_loop-Blamed [] o al h = tt
  parse_loop-Blamed (arg ∷ []) o al h = elim (Kind-cases (classify o arg)) [
    | inl (inl e) ↦ rw (e, Blamed) tt
    | inl (inr e) ↦ rw (e, Blamed) tt
    | inr (name, e) ↦
        rw (e, Blamed)
          (later arg [] (parse_loop (set_value o name "true") [])
            (parse_loop-Blamed [] (set_value o name "true") al h))
  ]
  parse_loop-Blamed (arg ∷ next ∷ rest) o al h = elim (Kind-cases (classify o arg)) [
    | inl (inl e) ↦ rw (e, Blamed) tt
    | inl (inr e) ↦ rw (e, Blamed) tt
    | inr (name, e) ↦ elim (Bool-cases (is_value next)) [
      | inl v ↦
          let judged = verdict (validator_of (entry_of name o.options)) next in
          rw (e, v, Blamed)
            (settle-Blamed o arg name next rest judged (λ o'. parse_loop o' rest) refl
              (classify-Spells o arg name al e) al h
              (λ o' al' h'. parse_loop-Blamed rest o' al' h'))
      | inr v ↦
          rw (e, v, Blamed)
            (later arg (next ∷ rest) (parse_loop (set_value o name "true") (next ∷ rest))
              (parse_loop-Blamed (next ∷ rest) (set_value o name "true") al h))
    ]
  ]

  number-Blames :
      (name : String) (low high : ℕ)
      → IsNumber name
      → Blames name (some (λ value. stoi value >>= (λ n. some (within low high n))))
  number-Blames name low high i value e = (i, unread (stoi value) e)
    where
      unread : (r : Option ℤ) → ((r >>= (λ n. some (within low high n))) ≡ none) → r ≡ none
      unread none q = refl
      unread (some n) q = absurd (cc q)

  create_otpu_options-AllBlame : AllBlame (create_otpu_options stoi).options
  unfolding create_otpu_options standard_specs add_option add_alias
  create_otpu_options-AllBlame = (
    number-Blames "num-devices" 1 8 devices,
    (
      (λ value e. absurd (cc e)),
      (
        number-Blames "size" 64 4194304 size,
        (
          number-Blames "rate" 1 10000 rate,
          (
            (λ value e. absurd (cc e)),
            (
              (λ value e. absurd (cc e)),
              (
                (λ value e. absurd (cc e)),
                (
                  number-Blames "threads" 1 64 threads,
                  (number-Blames "duration" 1 3600 duration, tt),
                ),
              ),
            ),
          ),
        ),
      ),
    ),
  )

  create_otpu_options-aliases : (create_otpu_options stoi).aliases ≡ aliases
  unfolding create_otpu_options standard_specs add_option add_alias
  create_otpu_options-aliases = refl

  -- Parsing the options of the test program throws only where std::stoi throws on an argument that
  -- is given to an option with a number.
  pub parse-Blamed :
      (name : String) (args : List String)
      → Blamed args (parse (create_otpu_options stoi) name args)
  unfolding parse
  parse-Blamed name args =
      parse_loop-Blamed args (record (create_otpu_options stoi) { program_name = name })
        create_otpu_options-aliases create_otpu_options-AllBlame
