-- ===== src/Tests/Csv.antt =====
-- Runs of utils/csv_logger.cpp, with whole numbers for the type double.
use Prim.Native.String.{String}
use Prim.Native.Nat.{zero, suc}
use pcie_sim.Base.{
  ℕ, ◌+◌, ◌/◌, ◌%◌, ◌≡◌, refl, ℤ, pos, negsuc, true, [], ◌∷◌, ◌++◌, none, some, arith,
  if◌then◌else◌,
}
use pcie_sim.Utils.Csv.{
  format_timestamp, milliseconds, Printer, TransferRecord, CsvLogger, row, rows, log_transfers,
  ◌<>◌,
}
use pcie_sim.Tests.Library.{exact_double}
use pcie_sim.Utils.Csv.Session.{
  log_each, session, opening_lines, closing_lines, session_file, log_transfers-log_each,
}

abbrev digit : ℕ → String
digit zero = "0"
digit (suc zero) = "1"
digit (suc (suc zero)) = "2"
digit (suc (suc (suc zero))) = "3"
digit (suc (suc (suc (suc zero)))) = "4"
digit (suc (suc (suc (suc (suc zero))))) = "5"
digit (suc (suc (suc (suc (suc (suc zero)))))) = "6"
digit (suc (suc (suc (suc (suc (suc (suc zero))))))) = "7"
digit (suc (suc (suc (suc (suc (suc (suc (suc zero)))))))) = "8"
digit (suc (suc (suc (suc (suc (suc (suc (suc (suc n))))))))) = "9"

-- The last digits of a number, so many and one.
abbrev decimals : ℕ → ℕ → String
decimals zero n = digit (n % 10)
decimals (suc more) n = decimals more (n / 10) <> digit (n % 10)

abbrev print_number : ℤ → String
print_number (pos n) = decimals 5 n
print_number (negsuc n) = "-" <> decimals 5 (n + 1)

abbrev pub printer : Printer
printer = record {
  double = exact_double;
  print_int = print_number;
  three_digits = decimals 2;
  fixed = (λ places x. decimals 5 x <> ("." <> decimals places 0));
  put_time = (λ format seconds. decimals 9 seconds);
  offset_ns = 0;
}

abbrev logged : TransferRecord printer
logged = record {
  timestamp = 7000000000;
  device_id = 2;
  transfer_size = 4096;
  latency_us = 12;
  throughput_mbps = 340;
  direction = "TO_DEVICE";
  error_status = "SUCCESS";
  thread_id = 1;
}

-- A status that has a comma.
abbrev failed : TransferRecord printer
failed = record logged { error_status = "TIMEOUT, retried" }

session_file_example :
    session printer "out.csv" "mixed" 5000000000 true (logged ∷ failed ∷ []) 9000000000 ≡ (
      if true
      then some (
          opening_lines printer "mixed" 5000000000
          ++ (rows printer 5000000000 (logged ∷ failed ∷ [])
              ++ closing_lines printer 5000000000 9000000000 2))
      else none)
session_file_example =
    session_file printer "out.csv" "mixed" 5000000000 9000000000 true (logged ∷ failed ∷ [])
      (omega arith)

abbrev open_logger : CsvLogger printer
open_logger = record {
  file = some ("header" ∷ []);
  filename = "out.csv";
  header_written = true;
  record_count = 4;
  session_start = 5000000000;
}

log_transfers-log_each_example :
    log_transfers printer open_logger (logged ∷ failed ∷ [])
    ≡ log_each printer open_logger (logged ∷ failed ∷ [])
log_transfers-log_each_example =
    log_transfers-log_each printer open_logger (logged ∷ failed ∷ []) (omega arith)

-- A line of the log.
row_test :
    row printer 5000000000 logged
    ≡ "0000000007.000,002000,000002,004096,000012.0000,000340.000,TO_DEVICE,SUCCESS,000001"
unfolding row format_timestamp milliseconds
row_test = refl
