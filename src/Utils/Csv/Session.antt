-- ===== src/Utils/Csv/Session.antt =====
-- What a session leaves in the log file of utils/csv_logger.cpp.
use Prim.Native.String.{String}
use pcie_sim.Base.{
  ℕ, ◌+◌, ◌^◌, ◌<◌, ◌≡◌, refl, sym, ◌∙◌, ap, ap₂, if◌then◌else◌, pos, Bool, true, false, List, [],
  ◌∷◌, ◌++◌, Option, none, some, arith, length, u64, append-nil, append_assoc,
}
use pcie_sim.Utils.Csv.{
  Printer, TransferRecord, CsvLogger, header, write_header, logger_new, logger_drop,
  format_timestamp, milliseconds, row, log_record, log_transfer, rows, log_transfers,
  log_session_start, log_session_end, SessionLogger, session_new, session_log, session_drop, ◌<>◌,
}

module _ (printer : Printer) where
  open printer use {print_int}

  -- One record after the other.
  unfoldable pub log_each : CsvLogger printer → List (TransferRecord printer) → CsvLogger printer
  log_each logger [] = logger
  log_each logger (r ∷ rs) = log_each (log_record printer logger r) rs

  unfoldable pub session_logs :
      SessionLogger printer → List (TransferRecord printer) → SessionLogger printer
  session_logs s [] = s
  session_logs s (r ∷ rs) = session_logs (session_log printer s r) rs

  -- An open logger with other lines and another count.
  abbrev with_lines : CsvLogger printer → List String → ℕ → CsvLogger printer
  with_lines logger lines count = record logger { file = some lines; record_count = count }

  log_each-open :
      (rs : List (TransferRecord printer)) (logger : CsvLogger printer) (lines : List String)
      (count : ℕ)
      → count < 2 ^ 64
      → log_each (with_lines logger lines count) rs
        ≡ with_lines logger
            (lines ++ rows printer logger.session_start rs)
            (u64 (count + length rs))
  unfolding log_each log_record rows
  log_each-open [] logger lines count l =
      ap₂ (with_lines logger) (sym (append-nil lines)) (omega (arith, l))
  log_each-open (r ∷ rs) logger lines count l =
      log_each-open rs logger (lines ++ (row printer logger.session_start r ∷ [])) (u64 (count + 1))
        (omega arith)
      ∙ ap₂ (with_lines logger)
          (append_assoc lines (row printer logger.session_start r ∷ [])
            (rows printer logger.session_start rs))
          (omega arith)

  log_each-closed :
      (rs : List (TransferRecord printer)) (logger : CsvLogger printer)
      → log_each (record logger { file = none }) rs ≡ record logger { file = none }
  unfolding log_each log_record
  log_each-closed [] logger = refl
  log_each-closed (r ∷ rs) logger = log_each-closed rs logger

  same_for :
      (logger : CsvLogger printer) (records : List (TransferRecord printer))
      (o : Option (List String))
      → logger.record_count < 2 ^ 64
      → log_transfers printer (record logger { file = o }) records
        ≡ log_each (record logger { file = o }) records
  unfolding log_transfers
  same_for logger records none l = sym (log_each-closed records logger)
  same_for logger records (some lines) l =
      sym (log_each-open records logger lines logger.record_count l)

  -- Logging records at once leaves what logging one after the other leaves: the same lines, the same
  -- count.
  pub log_transfers-log_each :
      (logger : CsvLogger printer) (records : List (TransferRecord printer))
      → logger.record_count < 2 ^ 64
      → log_transfers printer logger records ≡ log_each logger records
  log_transfers-log_each logger records l = same_for logger records logger.file l

  -- A session that logs the records.
  abbrev pub session :
      String → String → ℕ → Bool → List (TransferRecord printer) → ℕ → Option (List String)
  session filename config now opened records end =
      session_drop printer (session_logs (session_new printer filename config now opened) records)
        end

  pub session_logs-some :
      (rs : List (TransferRecord printer)) (logger : CsvLogger printer) (config : String)
      → session_logs (record { logger = some logger; session_config = config }) rs
        ≡ record { logger = some (log_each logger rs); session_config = config }
  unfolding session_logs session_log log_each log_transfer
  session_logs-some [] logger config = refl
  session_logs-some (r ∷ rs) logger config =
      session_logs-some rs (log_record printer logger r) config

  pub session_logs-none :
      (rs : List (TransferRecord printer)) (config : String)
      → session_logs (record { logger = none; session_config = config }) rs
        ≡ record { logger = none; session_config = config }
  unfolding session_logs session_log
  session_logs-none [] config = refl
  session_logs-none (r ∷ rs) config = session_logs-none rs config

  -- The lines that a session writes before its records, and after so many.
  abbrev pub opening_lines : String → ℕ → List String
  opening_lines config now =
      header printer
      ∷ ("# Session Start: " <> format_timestamp printer now)
      ∷ ("# Configuration: " <> config)
      ∷ ("# Columns: timestamp, session_time_ms, device_id, transfer_size, "
          <> "latency_us, throughput_mbps, direction, error_status, thread_id")
      ∷ []

  abbrev pub closing_lines : ℕ → ℕ → ℕ → List String
  closing_lines now end n =
      ("# Session End: " <> format_timestamp printer end)
      ∷ ("# Duration: " <> (print_int (milliseconds printer now end) <> " ms"))
      ∷ ("# Total Records: " <> print_int (pos n))
      ∷ ("# Summary: " <> ("Session completed with " <> (print_int (pos n) <> " transfers logged")))
      ∷ []

  -- A session leaves in its file the header, the comments of its start, a line for every record in
  -- order, and the comments of its end with the number of the records, if there are fewer than
  -- 2 ^ 64. If the file cannot be opened nothing is written, and no exception leaves the session.
  pub session_file :
      (filename config : String) (now end : ℕ) (opened : Bool)
      (records : List (TransferRecord printer))
      → length records < 2 ^ 64
      → session filename config now opened records end ≡ (
          if opened
          then some (
              opening_lines config now
              ++ (rows printer now records ++ closing_lines now end (length records)))
          else none)
  unfolding session_new logger_new write_header log_session_start session_drop log_session_end
      logger_drop
  session_file filename config now end false records l = rw (session_logs-none records config) refl
  session_file filename config now end true records l =
      let base : CsvLogger printer = record {
        file = some [];
        filename = filename;
        header_written = true;
        record_count = 0;
        session_start = now;
      } in
      let count : u64 (0 + length records) ≡ length records = omega (arith, l) in
      ap (λ s. session_drop printer s end)
        (session_logs-some records (with_lines base (opening_lines config now) 0) config)
      ∙ ap
          (λ logger.
            session_drop printer (record { logger = some logger; session_config = config }) end)
          (log_each-open records base (opening_lines config now) 0 (omega arith))
      ∙ ap
          (λ n.
            some
              ((opening_lines config now ++ rows printer now records) ++ closing_lines now end n))
          count
      ∙ ap some (
          append_assoc (opening_lines config now) (rows printer now records)
            (closing_lines now end (length records)))
