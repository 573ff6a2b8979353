-- ===== src/Examples/Program/Exits.antt =====
-- How main() of examples/cpp_test.cpp ends, for any command line.
use Prim.Native.String.{String}
use pcie_sim.Base.{◌≡◌, true, false, Bool, List, Option, none, some}
use pcie_sim.Sim.Linux.Calls.{View}
use pcie_sim.Library.Backend.{Backend, Laws}
use pcie_sim.Utils.Csv.{Printer}
use pcie_sim.Utils.Config.{Float, TestConfig}
use pcie_sim.Utils.Config.Validity.{IsValid}
use pcie_sim.Utils.Options.{ProgramOptions, get_string}
use pcie_sim.Utils.Options.Convert.{to_config}
use pcie_sim.Utils.Options.Numbers.{IsNumber}
use pcie_sim.Utils.Options.Throws.{Blamed}
use pcie_sim.Examples.Tester.{Tester}
use pcie_sim.Examples.Program.{Exit, exits, aborts, Surroundings}
use pcie_sim.Examples.Program.Paced.{Paced}
use pcie_sim.Examples.Program.Passed.{Passed}

module _ (printer : Printer) (fl : Float) (outer : Surroundings fl) (b : Backend) where
  open printer use {offset_ns}
  open outer use {env, stoi, opens}

  module _ (laws : Laws b) where
    -- How the program ends that was called with a command line, with the library in a state.
    pub data Finished (args : List String) (view : View) (s : b.State)
        (parsed : Option (Bool × ProgramOptions)) : Exit b → Type 0 where
      refused_arguments :
          (o : ProgramOptions)
          → parsed ≡ some (false, o)
          → Finished args view s parsed (exits 1 s none)
      no_number : Blamed stoi args none → parsed ≡ none → Finished args view s parsed aborts
      missing_number :
          (o : ProgramOptions) (j : String)
          → parsed ≡ some (true, o)
          → IsNumber j
          → get_string o j ≡ "true"
          → Finished args view s parsed aborts
      tested :
          (o : ProgramOptions) (config : TestConfig fl) (e : Exit b)
          → parsed ≡ some (true, o)
          → to_config fl stoi o ≡ some config
          → IsValid fl config
          → Passed printer fl outer b laws config view e
          → Finished args view s parsed e
