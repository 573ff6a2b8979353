-- ===== src/Kernel/Procfs/Page.antt =====
-- What a reader of the page of kernel/procfs.c finds on it.
use Prim.Native.String.{String}
use text.Mathlib.Text.{◌==◌ as str_eq}
use pcie_sim.Base.{
  ◌-◌, ◌/◌, ◌^◌, ◌<◌, ◌≡◌, refl, ◌∙◌, ap, inl, inr, Double, false, ◌&&◌, List, [], ◌∷◌, ◌++◌,
  Option, none, some, if◌then◌else◌, ltb, ◌==◌, sub64, arith, Bool-cases,
}
use pcie_sim.Kernel.Device.{Device, Stats}
use pcie_sim.Kernel.Procfs.{
  Argument, number, real, Line, puts, printf, avg_throughput_mbps, summary_lines, average_lines,
  latency_lines, jitter_lines, performance_lines, page_with, proc_stats_show,
}

abbrev pub average_format : String
average_format = "  Average Transfer Size: %llu bytes\n"

abbrev pub jitter_format : String
jitter_format = "  Jitter (max-min):    %llu ns (%.2f µs)\n"

module _ (double : Double) where
  open double use {D, whole, over, positive}

  -- The arguments of the first line with a format.
  abbrev pub shown : String → List (Line double) → Option (List (Argument double))
  shown format [] = none
  shown format (puts s ∷ lines) = shown format lines
  shown format (printf s args ∷ lines) =
      let rest = shown format lines in if str_eq s format then some args else rest

  abbrev pub or_else :
      Option (List (Argument double))
      → Option (List (Argument double))
      → Option (List (Argument double))
  or_else none o = o
  or_else (some args) o = some args

  shown-append :
      (format : String) (lines others : List (Line double))
      → shown format (lines ++ others) ≡ or_else (shown format lines) (shown format others)
  shown-append format [] others = refl
  shown-append format (puts s ∷ lines) others = shown-append format lines others
  shown-append format (printf s args ∷ lines) others = elim (Bool-cases (str_eq s format)) [
    | inl same ↦ rw same refl
    | inr apart ↦ rw apart (shown-append format lines others)
  ]

  -- The averages, as the page has them.
  averages_of :
      (s : Stats)
      → (lines : List (Line double)) × (average_lines double s ≡ some lines)
        × (shown average_format lines ≡ (
            if ltb 0 s.total_transfers
            then some (number (s.total_bytes / s.total_transfers) ∷ [])
            else none))
        × (shown jitter_format lines ≡ none)
  unfolding average_lines
  averages_of s = elim (Bool-cases (ltb 0 s.total_transfers)) [
    | inl moved ↦
        let some_transfers : (s.total_transfers == 0) ≡ false = ground (arith, moved) in
        rw (moved, some_transfers) (_, refl, refl, refl)
    | inr none_moved ↦ rw none_moved ([], refl, refl, refl)
  ]

  latency_silent :
      (s : Stats)
      → (shown average_format (latency_lines double s) ≡ none)
        × (shown jitter_format (latency_lines double s) ≡ none)
  unfolding latency_lines
  latency_silent s = elim (Bool-cases (ltb 0 s.min_latency_ns)) [
    | inl e ↦ rw e (refl, refl)
    | inr e ↦ rw e (refl, refl)
  ]

  performance_silent :
      (dev : Device)
      → (shown average_format (performance_lines double dev) ≡ none)
        × (shown jitter_format (performance_lines double dev) ≡ none)
  unfolding performance_lines
  performance_silent dev = elim (Bool-cases (positive (avg_throughput_mbps double dev.stats))) [
    | inl e ↦ rw e (refl, refl)
    | inr e ↦ rw e (refl, refl)
  ]

  jitter_only :
      (s : Stats)
      → s.max_latency_ns < 2 ^ 64
      → (shown average_format (jitter_lines double s) ≡ none)
        × (shown jitter_format (jitter_lines double s) ≡ (
            if ltb s.min_latency_ns s.max_latency_ns && ltb 0 s.min_latency_ns
            then some (
                number (s.max_latency_ns - s.min_latency_ns)
                ∷ real (over (whole (s.max_latency_ns - s.min_latency_ns)) (whole 1000))
                ∷ [])
            else none))
  unfolding jitter_lines
  jitter_only s l =
      elim (Bool-cases (ltb s.min_latency_ns s.max_latency_ns && ltb 0 s.min_latency_ns)) [
        | inl e ↦
            let jitter : sub64 s.max_latency_ns s.min_latency_ns
                ≡ s.max_latency_ns - s.min_latency_ns =
              ground (arith, e, l) in
            rw (e, jitter) (refl, refl)
        | inr e ↦ rw e (refl, refl)
      ]

  -- What a format finds in the part of the page after the counters.
  shown_rest :
      (format : String) (dev : Device) (averages : List (Line double))
      → shown format (
          averages
          ++ (latency_lines double dev.stats
              ++ (jitter_lines double dev.stats ++ performance_lines double dev)))
        ≡ or_else (shown format averages) (
            or_else (shown format (latency_lines double dev.stats)) (
              or_else
                (shown format (jitter_lines double dev.stats))
                (shown format (performance_lines double dev))))
  shown_rest format dev averages =
      shown-append format averages _
      ∙ ap (or_else (shown format averages)) (
          shown-append format (latency_lines double dev.stats) _
          ∙ ap (or_else (shown format (latency_lines double dev.stats)))
              (shown-append format (jitter_lines double dev.stats) (performance_lines double dev)))

  or_else-none : (o : Option (List (Argument double))) → or_else o none ≡ o
  or_else-none none = refl
  or_else-none (some args) = refl

  -- For any device, with latencies of 64 bits, the page is written without a division by zero. It
  -- has the average size of a transfer if there was a transfer, and the difference of the greatest
  -- and the least latency if that is positive and the least latency was measured, and no such line
  -- otherwise.
  pub proc_stats_show_lem :
      (dev : Device)
      → dev.stats.max_latency_ns < 2 ^ 64
      → let s = dev.stats in
        (page : List (Line double)) × (proc_stats_show double (some dev) ≡ some page)
        × (shown average_format page ≡ (
            if ltb 0 s.total_transfers
            then some (number (s.total_bytes / s.total_transfers) ∷ [])
            else none))
        × (shown jitter_format page ≡ (
            if ltb s.min_latency_ns s.max_latency_ns && ltb 0 s.min_latency_ns
            then some (
                number (s.max_latency_ns - s.min_latency_ns)
                ∷ real (over (whole (s.max_latency_ns - s.min_latency_ns)) (whole 1000))
                ∷ [])
            else none))
  unfolding proc_stats_show summary_lines
  proc_stats_show_lem dev l =
      let (averages, e, average, no_jitter) = averages_of dev.stats in
      let (latency₁, latency₂) = latency_silent dev.stats in
      let (jitter₁, jitter₂) = jitter_only dev.stats l in
      let (performance₁, performance₂) = performance_silent dev in
      (
        page_with double dev averages,
        rw e refl,
        shown_rest average_format dev averages
            ∙ rw (average, latency₁, jitter₁, performance₁) (or_else-none _),
        shown_rest jitter_format dev averages
            ∙ rw (no_jitter, latency₂, jitter₂, performance₂) (or_else-none _),
      )
