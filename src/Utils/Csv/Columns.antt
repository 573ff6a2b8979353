-- ===== src/Utils/Csv/Columns.antt =====
-- The columns of the log file of utils/csv_logger.cpp.
use Prim.Native.String.{String}
use Prim.Native.Char.{code}
use text.Mathlib.TextLemmas.{nil-append, cons-append}
use pcie_sim.Base.{ℕ, ◌+◌, ◌≡◌, ℤ, pos, ◌==◌, ◌/◌, ◌%◌, ◌∙◌, ap, ap₂, if◌then◌else◌, arith}
use pcie_sim.Utils.Csv.{Printer, TransferRecord, header, format_timestamp, milliseconds, row, ◌<>◌}

abbrev pub one_if_comma : ℕ → ℕ
one_if_comma c = if c == 44 then 1 else 0

-- How many commas a text has.
abbrev pub commas : String → ℕ
commas String.[] = 0
commas (String.◌∷◌ c s) = one_if_comma (code c) + commas s

pub commas-append : (s t : String) → commas (s <> t) ≡ commas s + commas t
commas-append String.[] t = rw (nil-append t) (omega arith)
commas-append (String.◌∷◌ c s) t = rw (cons-append c s t) (omega (arith, commas-append s t))

-- What the code relies on of the standard library's printing: no number and no time has a comma.
pub record IsPlain (printer : Printer) : Type 0 where
  pub ints : (z : ℤ) → commas (printer.print_int z) ≡ 0
  pub digits : (n : ℕ) → commas (printer.three_digits n) ≡ 0
  pub doubles : (n : ℕ) (x : printer.double.D) → commas (printer.fixed n x) ≡ 0
  pub times : (seconds : ℕ) → commas (printer.put_time "%Y-%m-%d %H:%M:%S" seconds) ≡ 0

module _ (printer : Printer) (plain : IsPlain printer) where
  commas-format_timestamp : (tp : ℕ) → commas (format_timestamp printer tp) ≡ 0
  unfolding format_timestamp
  commas-format_timestamp tp = omega (
    arith,
    commas-append (printer.put_time "%Y-%m-%d %H:%M:%S" ((tp + printer.offset_ns) / 1000000000))
        ("." <> printer.three_digits (tp / 1000000 % 1000)),
    commas-append "." (printer.three_digits (tp / 1000000 % 1000)),
    plain.times ((tp + printer.offset_ns) / 1000000000),
    plain.digits (tp / 1000000 % 1000),
  )

  -- A column in front of the others.
  commas-column : (s t : String) → commas (s <> ("," <> t)) ≡ commas s + (1 + commas t)
  commas-column s t = commas-append s ("," <> t) ∙ ap (λ n. commas s + n) (commas-append "," t)

  -- A number, and a text, in front of columns with so many commas.
  plain_column :
      (s t : String) (n : ℕ) → commas s ≡ 0 → commas t ≡ n → commas (s <> ("," <> t)) ≡ 1 + n
  plain_column s t n e e' = commas-column s t ∙ ap₂ (λ a b. a + (1 + b)) e e' ∙ omega arith

  text_column :
      (s t : String) (n : ℕ) → commas t ≡ n → commas (s <> ("," <> t)) ≡ commas s + (1 + n)
  text_column s t n e = commas-column s t ∙ ap (λ b. commas s + (1 + b)) e

  -- If no number and no time is printed with a comma, the line of a record has the columns of the
  -- header, and one more for every comma in its direction or its error status, which are not
  -- quoted.
  pub row-commas :
      (session_start : ℕ) (r : TransferRecord printer)
      → commas (row printer session_start r)
        ≡ commas (header printer) + (commas r.direction + commas r.error_status)
  unfolding row
  row-commas session_start r =
      plain_column _ _ _ (commas-format_timestamp r.timestamp) (
        plain_column _ _ _ (plain.ints (milliseconds printer session_start r.timestamp)) (
          plain_column _ _ _ (plain.ints (pos r.device_id)) (
            plain_column _ _ _ (plain.ints (pos r.transfer_size)) (
              plain_column _ _ _ (plain.doubles 3 r.latency_us) (
                plain_column _ _ _ (plain.doubles 2 r.throughput_mbps) (
                  text_column _ _ _
                    (text_column r.error_status _ 0 (plain.ints (pos r.thread_id)))))))))
      ∙ omega arith
