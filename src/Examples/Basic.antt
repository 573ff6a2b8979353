-- ===== src/Examples/Basic.antt =====
-- examples/basic_test.c: a test of one device. What it prints is a list of lines, each with the
-- numbers of the line; `none` is undefined behaviour, as reading a variable that was never written.
-- What atoi() makes of a text and the type double are parameters. The pauses are not modelled, and
-- nor is the line with the first bytes that were read: a transfer of the model carries no data.
pub mod Writes
pub mod Lines
use Prim.Native.Nat.{zero, suc}
use Prim.Native.String.{String}
use pcie_sim.Base.{
  Double, ℕ, ℤ, pos, ◌+◌, true, List, [], ◌∷◌, ◌++◌, Option, none, some, ◌>>=◌, if◌then◌else◌, ltb,
}
use pcie_sim.Api.{Error, Stats, success, to_device, from_device}
use pcie_sim.Library.Backend.{Backend}

-- `sizeof(buffer)`
abbrev pub buffer_size : ℕ
buffer_size = 4096

module _ (double : Double) where
  open double use {D, whole, over}

  -- A transfer is numbered from 1; its size and its latency are printed.
  pub data Line : Type 0 where
    failed_to_open : Error → Line
    transferred : ℕ → ℕ → ℕ → Line
    transfer_failed : ℕ → Error → Line
    read_back : ℕ → ℕ → Line
    read_back_failed : Error → Line
    statistics : Stats → Line
    throughput : D → Line
    statistics_failed : Error → Line

  -- The average throughput in MB/s.
  abbrev pub average_throughput : Stats → D
  average_throughput s =
      over (over (whole s.total_bytes) (over (whole s.avg_latency_ns) (whole 1000000000)))
        (whole 1048576)

  -- `device_id`
  abbrev pub chosen_device : (String → ℤ) → List String → ℤ
  chosen_device atoi [] = pos 0
  chosen_device atoi (arg ∷ args) = atoi arg

  module _ (b : Backend) where
    -- The line of a transfer, by its result.
    abbrev pub transfer_line : ℕ → Error → Option ℕ → Option Line
    transfer_line i success none = none
    transfer_line i success (some latency) = some (transferred (i + 1) buffer_size latency)
    transfer_line i e latency = some (transfer_failed i e)

    -- The loop of writes from a number on, so many.
    unfoldable pub write_loop : ℕ → ℕ → b.State → ℕ → Option (b.State × List Line)
    write_loop zero i s handle = some (s, [])
    write_loop (suc more) i s handle =
        b.transfers s (some handle) true buffer_size to_device true >>= (λ (s', e, latency).
          transfer_line i e latency >>= (λ line.
            write_loop more (i + 1) s' handle >>= (λ (s'', lines). some (s'', line ∷ lines))))

    -- The line of the read, which prints the size of the buffer.
    abbrev pub read_line : Error → Option ℕ → Option Line
    read_line success none = none
    read_line success (some latency) = some (read_back buffer_size latency)
    read_line e latency = some (read_back_failed e)

    unfoldable pub read_test : b.State → ℕ → Option (b.State × Line)
    read_test s handle =
        b.transfers s (some handle) true 1024 from_device true
        >>= (λ (s', e, latency). read_line e latency >>= (λ line. some (s', line)))

    -- The lines of the statistics.
    abbrev pub statistics_lines : Error → Option Stats → Option (List Line)
    statistics_lines success none = none
    statistics_lines success (some s) = some (
        statistics s
        ∷ (if ltb 0 s.total_transfers then throughput (average_throughput s) ∷ [] else []))
    statistics_lines e stats = some (statistics_failed e ∷ [])

    unfoldable pub print_statistics : b.State → ℕ → Option (b.State × List Line)
    print_statistics s handle =
        b.gets_stats s (some handle) true
        >>= (λ (s', e, stats). statistics_lines e stats >>= (λ lines. some (s', lines)))

    -- What follows the opening of the device: the code that main() returns, and what is printed.
    unfoldable pub test_device : b.State → ℕ → Option (b.State × ℕ × List Line)
    test_device s handle = b.resets_stats s (some handle) >>= (λ (s₁, e₁).
        write_loop 10 0 s₁ handle >>= (λ (s₂, lines). read_test s₂ handle >>= (λ (s₃, line).
          print_statistics s₃ handle >>= (λ (s₄, lines').
            b.closes s₄ (some handle) >>= (λ (s₅, e₅). some (s₅, 0, lines ++ (line ∷ lines')))))))

    abbrev pub with_handle : b.State → Error → Option ℕ → Option (b.State × ℕ × List Line)
    with_handle s success none = none
    with_handle s success (some handle) = test_device s handle
    with_handle s e handle = some (s, 1, failed_to_open e ∷ [])

    -- main, with the arguments after the program's name.
    unfoldable pub basic_test :
        (String → ℤ) → b.State → List String → Option (b.State × ℕ × List Line)
    basic_test atoi s args =
        b.opens s (chosen_device atoi args) true >>= (λ (s', e, handle). with_handle s' e handle)
