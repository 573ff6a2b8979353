-- ===== src/Utils/Csv.antt =====
-- utils/csv_logger.hpp and utils/csv_logger.cpp: the log of a session. A file that is open is the
-- list of its lines, and is not open after a failure. How numbers, times of day and doubles are
-- printed is a parameter, and so are the clocks: the system clock is a fixed time ahead of the one
-- that counts. A section under the mutex is one step.
pub mod Session
pub mod Columns
use Prim.Native.String.{String, ◌++◌ as text_append}
use Prim.Native.Nat.{zero, suc}
use pcie_sim.Base.{
  Double, ℕ, ◌+◌, ◌-◌, ◌/◌, ◌%◌, ℤ, pos, negsuc, Bool, true, false, not, ◌&&◌, List, [], ◌∷◌, ◌++◌,
  map, Option, none, some, if◌then◌else◌, leb, length, u64, is_some,
}

-- What is written by the standard library: an integer, a number with three digits, a double with so
-- many digits after the point, and put_time() with a format, of the seconds of the system clock.
pub record Printer : Type 1 where
  pub double : Double
  pub print_int : ℤ → String
  pub three_digits : ℕ → String
  pub fixed : ℕ → double.D → String
  pub put_time : String → ℕ → String
  pub offset_ns : ℕ

infixr 65 ◌<>◌
abbrev pub ◌<>◌ : String → String → String
s <> t = text_append s t

module _ (printer : Printer) where
  open printer use {double, print_int, three_digits, fixed, put_time, offset_ns}
  open double use {D}

  -- `TransferRecord`; a point in time counts nanoseconds.
  pub record TransferRecord : Type 0 where
    pub timestamp : ℕ
    pub device_id : ℕ
    pub transfer_size : ℕ
    pub latency_us : D
    pub throughput_mbps : D
    pub direction : String
    pub error_status : String
    pub thread_id : ℕ

  -- `CSVLogger`
  pub record CsvLogger : Type 0 where
    pub file : Option (List String)
    pub filename : String
    pub header_written : Bool
    pub record_count : ℕ
    pub session_start : ℕ

  -- `file_ << ... << std::endl`, of lines.
  abbrev pub write : CsvLogger → List String → CsvLogger
  write logger lines = elim logger.file [
    | none ↦ logger
    | some written ↦ record logger { file = some (written ++ lines) }
  ]

  abbrev pub header : String
  header =
      "timestamp,session_time_ms,device_id,transfer_size,latency_us,"
      <> "throughput_mbps,direction,error_status,thread_id"

  -- write_header
  unfoldable pub write_header : CsvLogger → CsvLogger
  write_header logger =
      if not logger.header_written && is_some logger.file
      then record (write logger (header ∷ [])) { header_written = true }
      else logger

  -- The constructor, at a time: `none` is an exception, where the file could not be opened.
  unfoldable pub logger_new : String → ℕ → Bool → Option CsvLogger
  logger_new filename now opened =
      if opened
      then some (
          write_header (record {
            file = some [];
            filename = filename;
            header_written = false;
            record_count = 0;
            session_start = now;
          }))
      else none

  -- The destructor: what is in the file.
  unfoldable pub logger_drop : CsvLogger → Option (List String)
  logger_drop logger = logger.file

  -- format_timestamp
  unfoldable pub format_timestamp : ℕ → String
  format_timestamp tp =
      put_time "%Y-%m-%d %H:%M:%S" ((tp + offset_ns) / 1000000000)
      <> ("." <> three_digits (tp / 1000000 % 1000))

  -- create_timestamped_filename, at a time of the system clock.
  unfoldable pub create_timestamped_filename : String → String → ℕ → String
  create_timestamped_filename prefix suffix now =
      prefix <> ("_" <> (put_time "%Y%m%d_%H%M%S" (now / 1000000000) <> suffix))

  -- The milliseconds from one point in time to another, cut off towards zero.
  abbrev pub negated : ℕ → ℤ
  negated zero = pos 0
  negated (suc n) = negsuc n

  unfoldable pub milliseconds : ℕ → ℕ → ℤ
  milliseconds start end =
      if leb start end then pos ((end - start) / 1000000) else negated ((start - end) / 1000000)

  -- The line of a record.
  unfoldable pub row : ℕ → TransferRecord → String
  row session_start r =
      format_timestamp r.timestamp
      <> (","
          <> (print_int (milliseconds session_start r.timestamp)
              <> (","
                  <> (print_int (pos r.device_id)
                      <> (","
                          <> (print_int (pos r.transfer_size)
                              <> (","
                                  <> (fixed 3 r.latency_us
                                      <> (","
                                          <> (fixed 2 r.throughput_mbps
                                              <> (","
                                                  <> (r.direction
                                                      <> (","
                                                          <> (r.error_status
                                                            <> (","
                                                            <> print_int
                                                            (pos r.thread_id))))))))))))))))

  -- log_transfer of a record.
  unfoldable pub log_record : CsvLogger → TransferRecord → CsvLogger
  log_record logger r =
      if is_some logger.file
      then record (write logger (row logger.session_start r ∷ [])) {
        record_count = u64 (logger.record_count + 1);
      }
      else logger

  -- log_transfer of its fields, at a time.
  unfoldable pub log_transfer : CsvLogger → ℕ → ℕ → ℕ → D → D → String → String → ℕ → CsvLogger
  log_transfer logger now device_id transfer_size latency_us throughput_mbps direction error_status
        thread_id =
      log_record logger (record {
        timestamp = now;
        device_id = device_id;
        transfer_size = transfer_size;
        latency_us = latency_us;
        throughput_mbps = throughput_mbps;
        direction = direction;
        error_status = error_status;
        thread_id = thread_id;
      })

  -- The loop of log_transfers.
  unfoldable pub rows : ℕ → List TransferRecord → List String
  rows session_start [] = []
  rows session_start (r ∷ rs) = row session_start r ∷ rows session_start rs

  -- log_transfers
  unfoldable pub log_transfers : CsvLogger → List TransferRecord → CsvLogger
  log_transfers logger records =
      if is_some logger.file
      then record (write logger (rows logger.session_start records)) {
        record_count = u64 (logger.record_count + length records);
      }
      else logger

  -- log_session_start
  unfoldable pub log_session_start : CsvLogger → String → CsvLogger
  log_session_start logger test_config =
      if is_some logger.file
      then write logger (
          ("# Session Start: " <> format_timestamp logger.session_start)
          ∷ ("# Configuration: " <> test_config)
          ∷ ("# Columns: timestamp, session_time_ms, device_id, transfer_size, "
              <> "latency_us, throughput_mbps, direction, error_status, thread_id")
          ∷ [])
      else logger

  -- log_session_end, at a time.
  unfoldable pub log_session_end : CsvLogger → ℕ → String → CsvLogger
  log_session_end logger now summary =
      if is_some logger.file
      then write logger (
          ("# Session End: " <> format_timestamp now)
          ∷ ("# Duration: " <> (print_int (milliseconds logger.session_start now) <> " ms"))
          ∷ ("# Total Records: " <> print_int (pos logger.record_count))
          ∷ ("# Summary: " <> summary)
          ∷ [])
      else logger

  -- `SessionLogger`; the pointer is NULL after a failure.
  pub record SessionLogger : Type 0 where
    pub logger : Option CsvLogger
    pub session_config : String

  -- The constructor, at a time, which catches an exception.
  unfoldable pub session_new : String → String → ℕ → Bool → SessionLogger
  session_new filename config now opened = elim (logger_new filename now opened) [
    | none ↦ record { logger = none; session_config = config }
    | some logger ↦ record {
      logger = some (log_session_start logger config);
      session_config = config;
    }
  ]

  -- SessionLogger::log_transfer, of a record with the time of the call.
  unfoldable pub session_log : SessionLogger → TransferRecord → SessionLogger
  session_log s r = elim s.logger [
    | none ↦ s
    | some logger ↦ record s {
      logger = some (
          log_transfer logger r.timestamp r.device_id r.transfer_size r.latency_us r.throughput_mbps
            r.direction r.error_status r.thread_id);
    }
  ]

  -- The destructor, at a time: what is in the file.
  unfoldable pub session_drop : SessionLogger → ℕ → Option (List String)
  session_drop s now = elim s.logger [
    | none ↦ none
    | some logger ↦ logger_drop (
        log_session_end logger now (
          "Session completed with "
          <> (print_int (pos logger.record_count) <> " transfers logged")))
  ]
