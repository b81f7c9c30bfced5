-- ===== src/Logging/Tests.antt =====
-- Messages of source/base/logging.h and .cpp.
use ffnetwork.Common.{ℕ, ◌+◌, ◌≡◌, refl, true, false, [], ◌∷◌, ◌++◌, none, some}
use ffnetwork.Common.Int.{pos, negsuc}
use ffnetwork.Common.Text.{codes}
use ffnetwork.Logging.{
  Bytes, LogSettings, log_info, log_warning, log_error, set_log_settings, get_vlog_verbosity,
  ff_log, ff_check,
}

-- A number below ten.
abbrev digit : ℕ → Bytes
digit n = (48 + n) ∷ []

abbrev warnings : LogSettings
warnings = record { min_log_level = log_warning }

abbrev source_file : Bytes
source_file = codes "../../net/a.cpp"

test_info :
    ff_log digit (record { min_log_level = log_info }) log_info source_file 7 (codes "hi")
    ≡ some (record { output = codes "[INFO:a.cpp(7)] hi" ++ 10 ∷ []; aborted = false })
unfolding ff_log
test_info = refl

test_error :
    ff_log digit warnings log_error source_file 7 (codes "hi")
    ≡ some (record { output = codes "[ERROR:net/a.cpp(7)] hi" ++ 10 ∷ []; aborted = false })
unfolding ff_log
test_error = refl

test_quiet : ff_log digit warnings log_info source_file 7 (codes "hi") ≡ none
unfolding ff_log
test_quiet = refl

test_check :
    ff_check digit false (codes "x") source_file 7 []
    ≡ some (record {
      output = codes "[FATAL:net/a.cpp(7)] Check failed:x." ++ 10 ∷ [];
      aborted = true;
    })
unfolding ff_check
test_check = refl

test_verbose :
    (get_vlog_verbosity (set_log_settings (record { min_log_level = negsuc 2 })) ≡ pos 3)
    × (get_vlog_verbosity (set_log_settings (record { min_log_level = pos 9 })) ≡ negsuc 0)
unfolding get_vlog_verbosity set_log_settings
test_verbose = (refl, refl)
