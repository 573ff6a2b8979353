-- ===== src/Utils/Options/Numbers.antt =====
-- The options with a number of the test program of utils/options.cpp: what is known of their values after parsing.
use Prim.Native.String.{String}
use pcie_sim.Base.{
  ℕ, ◌≤◌, ◌≡◌, ◌⊎◌, inl, inr, refl, Bool, true, List, Option, none, some, ◌>>=◌, arith, ℤ, pos,
  negsuc,
}
use pcie_sim.Utils.Options.{ProgramOptions, parse, get_string, get_int, add_option, add_alias}
use pcie_sim.Utils.Options.Checked.{Validator, HasChecked, StillChecked, parse-HasChecked}
use pcie_sim.Utils.Options.Standard.{within, standard_specs, create_otpu_options}

-- What the code relies on of std::stoi: it throws on a text that does not start with a number, and
-- reads the decimal numbers that the defaults are.
pub record IsStoi (stoi : String → Option ℤ) : Type 0 where
  pub throws : stoi "true" ≡ none
  pub reads_1 : stoi "1" ≡ some (pos 1)
  pub reads_10 : stoi "10" ≡ some (pos 10)
  pub reads_1000 : stoi "1000" ≡ some (pos 1000)
  pub reads_4096 : stoi "4096" ≡ some (pos 4096)

-- The options whose value is a number.
pub data IsNumber : String → Type 0 where
  devices : IsNumber "num-devices"
  size : IsNumber "size"
  rate : IsNumber "rate"
  threads : IsNumber "threads"
  duration : IsNumber "duration"

module _ (stoi : String → Option ℤ) where
  abbrev pub number : ℕ → ℕ → Validator
  number low high = some (λ value. stoi value >>= (λ n. some (within low high n)))

  -- The options with a number have their validators and checked values.
  pub record Numbers (o : ProgramOptions) : Type 0 where
    pub devices : HasChecked (number 1 8) "num-devices" o
    pub size : HasChecked (number 64 4194304) "size" o
    pub rate : HasChecked (number 1 10000) "rate" o
    pub threads : HasChecked (number 1 64) "threads" o
    pub duration : HasChecked (number 1 3600) "duration" o

  abbrev pub StillNumbers : Option (Bool × ProgramOptions) → Type 0
  StillNumbers none = Unit {0}
  StillNumbers (some (ok, o)) = Numbers o

module _ (stoi : String → Option ℤ) (s : IsStoi stoi) where
  create_otpu_options-Numbers : Numbers stoi (create_otpu_options stoi)
  unfolding create_otpu_options standard_specs add_option add_alias
  create_otpu_options-Numbers = record {
    devices = (refl, ("1", refl, inr (rw s.reads_1 refl)));
    size = (refl, ("4096", refl, inr (rw s.reads_4096 refl)));
    rate = (refl, ("1000", refl, inr (rw s.reads_1000 refl)));
    threads = (refl, ("1", refl, inr (rw s.reads_1 refl)));
    duration = (refl, ("10", refl, inr (rw s.reads_10 refl)));
  }

  all_numbers :
      (r : Option (Bool × ProgramOptions))
      → StillChecked (number stoi 1 8) "num-devices" r
      → StillChecked (number stoi 64 4194304) "size" r
      → StillChecked (number stoi 1 10000) "rate" r
      → StillChecked (number stoi 1 64) "threads" r
      → StillChecked (number stoi 1 3600) "duration" r
      → StillNumbers stoi r
  all_numbers none d z r t u = tt
  all_numbers (some (ok, o)) d z r t u = record {
    devices = d;
    size = z;
    rate = r;
    threads = t;
    duration = u;
  }

  pub parse-Numbers :
      (name : String) (args : List String)
      → StillNumbers stoi (parse (create_otpu_options stoi) name args)
  parse-Numbers name args =
      let o = create_otpu_options stoi in
      let c = create_otpu_options-Numbers in
      all_numbers (parse o name args)
        (parse-HasChecked (number stoi 1 8) "num-devices" o name args c.devices)
        (parse-HasChecked (number stoi 64 4194304) "size" o name args c.size)
        (parse-HasChecked (number stoi 1 10000) "rate" o name args c.rate)
        (parse-HasChecked (number stoi 1 64) "threads" o name args c.threads)
        (parse-HasChecked (number stoi 1 3600) "duration" o name args c.duration)

  within_bounds :
      (low high : ℕ) (r : Option ℤ)
      → ((r >>= (λ n. some (within low high n))) ≡ some true)
      → (n : ℕ) × (r ≡ some (pos n)) × (low ≤ n) × (n ≤ high)
  within_bounds low high none h = absurd (cc h)
  within_bounds low high (some (pos n)) h = (n, refl, ground arith, ground arith)
  within_bounds low high (some (negsuc n)) h = absurd (cc h)

  -- A checked number is missing, or it is read and lies in its range.
  pub get_int-checked :
      (low high : ℕ) (j : String) (o : ProgramOptions)
      → HasChecked (number stoi low high) j o
      → ((get_int stoi o j ≡ none) × (get_string o j ≡ "true"))
        ⊎ ((n : ℕ) × (get_int stoi o j ≡ some (pos n)) × (low ≤ n) × (n ≤ high))
  unfolding get_int get_string
  get_int-checked low high j o (g, (v, e, inl h)) =
      inl (rw (get_int, e, h) s.throws, rw (get_string, e) h)
  get_int-checked low high j o (g, (v, e, inr h)) =
      let (n, r, l, u) = within_bounds low high (stoi v) h in inr (n, rw (get_int, e) r, l, u)
