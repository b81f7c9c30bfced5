-- ===== src/Logging/Levels.antt =====
-- Which messages of source/base/logging.h and .cpp are written, and which abort.
use ffnetwork.Common.{ℕ, ◌≡◌, true, false, not, ◌||◌, [], ◌∷◌, ◌++◌, none, some, arith}
use ffnetwork.Common.Int.{ℤ, ltb_ℤ}
use ffnetwork.Logging.{
  Bytes, LogSettings, log_fatal, set_log_settings, get_min_log_level, should_create_log_message,
  ff_log, new_log_message, end_log_message,
}

should_create-set :
    (s : LogSettings) (level : ℤ)
    → should_create_log_message (set_log_settings s) level
      ≡ (not (ltb_ℤ level s.min_log_level) || not (ltb_ℤ level log_fatal))
unfolding should_create_log_message set_log_settings get_min_log_level
should_create-set s level = ground arith

-- After `SetLogSettings`, a message of level `LOG_FATAL` or above is written and aborts, whatever
-- the minimum; one below it never aborts, and is written exactly if it is not below the minimum.
-- What is written ends in the text that was streamed and the end of the line.
pub ff_log_lem :
    (show : ℕ → Bytes) (s : LogSettings) (level : ℤ) (file : Bytes) (line : ℕ) (text : Bytes)
    → let logged = ff_log show (set_log_settings s) level file line text in
      let written = (new_log_message show level file line none).stream ++ text in
      (ltb_ℤ level log_fatal ≡ false
        → logged ≡ some (record { output = written ++ 10 ∷ []; aborted = true }))
      × (ltb_ℤ level log_fatal ≡ true
          → ltb_ℤ level s.min_log_level ≡ false
          → logged ≡ some (record { output = written ++ 10 ∷ []; aborted = false }))
      × (ltb_ℤ level log_fatal ≡ true → ltb_ℤ level s.min_log_level ≡ true → logged ≡ none)
unfolding ff_log end_log_message
ff_log_lem show s level file line text =
    let test = should_create-set s level in
    (
      λ fatal. rw (test, fatal) (ground arith),
      λ mild high. rw (test, high, mild),
      λ mild low. rw (test, low, mild),
    )
