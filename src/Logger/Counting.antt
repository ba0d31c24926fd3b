-- ===== src/Logger/Counting.antt =====
-- What the logger counts (src/veltix/logger/core.py).
use veltix.Prelude.{
  ℕ, ◌+◌, ◌≡◌, refl, ap, ◌∙◌, Bool, true, not, ◌||◌, List, [], ◌∷◌, arith, ltb, nat_eq,
  if◌then◌else◌, if_intro, eq_nat, eq_string, eq_list,
}
use veltix.Prelude.Text.{Text}
use veltix.Logger.{
  LogLevel, severity, LoggerConfig, LogRecord, Logger, setup, configure, internal_log, counted, log,
  set_level, enable, disable, get_stats,
}

pub data Call : Type 0 where
  logs : LogLevel → Text → Call
  sets_level : LogLevel → Call
  configures : LoggerConfig → Call
  enables disables : Call

unfoldable pub call : Call → Logger → Logger
call (logs level message) s = log level message s
call (sets_level level) s = set_level level s
call (configures config) s = configure config s
call enables s = enable s
call disables s = disable s

unfoldable pub calls : List Call → Logger → Logger
calls [] s = s
calls (c ∷ cs) s = calls cs (call c s)

-- How many records of a level there are
unfoldable pub of_level : LogLevel → List LogRecord → ℕ
of_level l [] = 0
of_level l ((m, text) ∷ rs) =
    if nat_eq (severity l) (severity m) then of_level l rs + 1 else of_level l rs

pub record IsCounted (s : Logger) : Type 0 where
  pub all_counted : (l : LogLevel) → get_stats s l ≡ of_level l s.taken
  pub same_level : s.config.enabled ≡ true → s.internal_level ≡ severity s.config.level
  pub on_console : s.console_handler ≡ true → s.console ≡ s.taken

log-IsCounted :
    (level : LogLevel) (message : Text) (s : Logger) → IsCounted s → IsCounted (log level message s)
unfolding log internal_log counted get_stats of_level
log-IsCounted level message s i =
    if_intro IsCounted (not s.config.enabled || ltb (severity level) (severity s.config.level)) _ _
      (λ _. i)
      (λ loud.
        if_intro IsCounted (ltb (severity level) s.internal_level) _ _
          (λ below.
            let on : s.config.enabled ≡ true = ground arith in
            let same = i.same_level on in absurd (ground arith))
          (λ taken. record {
            all_counted = λ l. ground (arith, i.all_counted l);
            same_level = i.same_level;
            on_console = λ attached.
                ap (λ (b : Bool). if b then (level, message) ∷ s.console else s.console) attached
                ∙ ap (λ rs. (level, message) ∷ rs) (i.on_console attached);
          }))

call-IsCounted : (c : Call) (s : Logger) → IsCounted s → IsCounted (call c s)
unfolding call set_level configure setup enable disable get_stats of_level
call-IsCounted (logs level message) s i = log-IsCounted level message s i
call-IsCounted (sets_level level) s i = record {
  all_counted = i.all_counted;
  same_level = λ on. refl;
  on_console = i.on_console;
}
call-IsCounted (configures config) s i = record {
  all_counted = λ l. refl;
  same_level = λ on. ground arith;
  on_console = λ attached. refl;
}
call-IsCounted enables s i = record {
  all_counted = i.all_counted;
  same_level = λ on. refl;
  on_console = i.on_console;
}
call-IsCounted disables s i = record {
  all_counted = i.all_counted;
  same_level = λ on. absurd (cc on);
  on_console = i.on_console;
}

calls-keep : (cs : List Call) (s : Logger) → IsCounted s → IsCounted (calls cs s)
unfolding calls
calls-keep [] s i = i
calls-keep (c ∷ cs) s i = calls-keep cs (call c s) (call-IsCounted c s i)

-- After any calls on a new logger, the statistics of each level are the number of records of that
-- level that the logging package has taken since the last configuration, so that its own filter
-- drops nothing that was counted; an enabled logger filters at the configured level; and a console
-- handler, where there is one, has got exactly those records.
pub calls-IsCounted : (config : LoggerConfig) (cs : List Call) → IsCounted (calls cs (setup config))
unfolding setup get_stats of_level
calls-IsCounted config cs = calls-keep cs (setup config) (record {
  all_counted = λ l. refl;
  same_level = λ on. ground arith;
  on_console = λ attached. refl;
})
