-- ===== src/Tests/Logging.antt =====
-- The logger at concrete inputs.
use veltix.Prelude.{◌≡◌, refl, true, false, List, [], ◌∷◌, eq_nat, eq_string, eq_list}
use veltix.Prelude.Text.{codes}
use veltix.Logger.{
  debug, info, success, error, severity, LoggerConfig, setup, internal_log, counted, log, enable,
  get_stats,
}
use veltix.Logger.Counting.{
  Call, logs, sets_level, configures, enables, call, calls, IsCounted, calls-IsCounted,
}

abbrev quiet : LoggerConfig
quiet = record { level = info; enabled = false; has_file = false }

abbrev some_calls : List Call
some_calls =
    configures (record { level = info; enabled = true; has_file = true })
    ∷ logs debug (codes "hidden")
    ∷ logs success (codes "done")
    ∷ sets_level debug
    ∷ logs debug (codes "seen")
    ∷ []

calls-IsCounted_example : IsCounted (calls some_calls (setup quiet))
calls-IsCounted_example = calls-IsCounted quiet some_calls

-- A logger that is configured disabled and then enabled takes a record, but has no handler.
enabled_late :
    let s = calls (enables ∷ logs error (codes "lost") ∷ []) (setup quiet) in
    (get_stats s error ≡ 1) × (s.console ≡ []) × (s.console_handler ≡ false)
unfolding calls call setup enable log internal_log counted get_stats severity
enabled_late = (refl, refl, refl)
