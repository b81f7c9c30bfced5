-- ===== src/Logging.antt =====
-- source/base/logging.h and .cpp, as built for Linux: messages go to the standard error. Paths are
-- the bytes of C strings before their end. The text of a number, which `std::ostream` makes, is the
-- argument `show`, and so is the text that `vsnprintf` makes of its arguments.
pub mod Paths
pub mod Levels
mod Tests
use ffnetwork.Common.{
  ℕ, Bool, true, false, not, ◌&&◌, ◌==◌, ltb, leb, if◌then◌else◌, List, [], ◌∷◌, ◌++◌, Option, none,
  some, get_elem?, take,
}
use ffnetwork.Common.Int.{ℤ, pos, negsuc, ltb_ℤ, ◌-ℤ◌}
use ffnetwork.Common.Text.{codes}

abbrev pub Bytes : Type 0
Bytes = List ℕ

-- `LOG_INFO` to `LOG_FATAL`; verbose levels are negative.
abbrev pub log_info : ℤ
log_info = pos 0

abbrev pub log_debug : ℤ
log_debug = pos 1

abbrev pub log_warning : ℤ
log_warning = pos 2

abbrev pub log_error : ℤ
log_error = pos 3

abbrev pub log_fatal : ℤ
log_fatal = pos 4

abbrev pub log_level_names : List Bytes
log_level_names =
    codes "INFO" ∷ codes "DEBUG" ∷ codes "WARNING" ∷ codes "ERROR" ∷ codes "FATAL" ∷ []

unfoldable pub get_name_for_log_level : ℤ → Bytes
get_name_for_log_level (pos n) = elim (get_elem? log_level_names n) [
  | some name ↦ name
  | none ↦ codes "UNKNOWN"
]
get_name_for_log_level (negsuc n) = codes "UNKNOWN"

-- `strncmp(path, "../", 3) == 0` at three bytes.
abbrev pub is_dots : ℕ → ℕ → ℕ → Bool
is_dots a b c = a == b'.' && (b == b'.' && c == b'/')

unfoldable pub strip_dots : Bytes → Bytes
strip_dots [] = []
strip_dots (a ∷ []) = a ∷ []
strip_dots (a ∷ b ∷ []) = a ∷ b ∷ []
strip_dots (a ∷ b ∷ c ∷ path) = if is_dots a b c then strip_dots path else a ∷ b ∷ c ∷ path

-- What follows the last '/', found by `strrchr`.
unfoldable pub after_slash : Bytes → Option Bytes
after_slash [] = none
after_slash (c ∷ path) = elim (after_slash path) [
  | some rest ↦ some rest
  | none ↦ if c == b'/' then some path else none
]

unfoldable pub strip_path : Bytes → Bytes
unfolding after_slash
strip_path path = elim (after_slash path) [ some rest ↦ rest | none ↦ path ]

-- What the stream of the message holds.
pub record LogMessage : Type 0 where
  pub level : ℤ
  pub stream : Bytes

pub record LogSettings : Type 0 where
  pub min_log_level : ℤ

abbrev pub min_ℤ : ℤ → ℤ → ℤ
min_ℤ a b = if ltb_ℤ b a then b else a

abbrev pub max_ℤ : ℤ → ℤ → ℤ
max_ℤ a b = if ltb_ℤ a b then b else a

-- The global settings after the call; `GetLogSettings` reads them.
unfoldable pub set_log_settings : LogSettings → LogSettings
set_log_settings settings = record { min_log_level = min_ℤ log_fatal settings.min_log_level }

unfoldable pub get_min_log_level : LogSettings → ℤ
get_min_log_level g = min_ℤ g.min_log_level log_fatal

unfoldable pub get_vlog_verbosity : LogSettings → ℤ
unfolding get_min_log_level ◌-ℤ◌
get_vlog_verbosity g = max_ℤ (negsuc 0) (log_info -ℤ get_min_log_level g)

unfoldable pub should_create_log_message : LogSettings → ℤ → Bool
unfolding get_min_log_level
should_create_log_message g level = not (ltb_ℤ level (get_min_log_level g))

module _ (show : ℕ → Bytes) where
  -- The constructor; no condition is `none`.
  unfoldable pub new_log_message : ℤ → Bytes → ℕ → Option Bytes → LogMessage
  unfolding get_name_for_log_level strip_dots strip_path
  new_log_message level file line condition = record {
    level = level;
    stream =
        codes "["
        ++ ((if ltb_ℤ level log_info then [] else get_name_for_log_level level)
            ++ (codes ":"
                ++ ((if ltb_ℤ log_info level then strip_dots file else strip_path file)
                    ++ (codes "("
                        ++ (show line
                            ++ (codes ")] " ++ elim condition [
                              | none ↦ []
                              | some c ↦ codes "Check failed:" ++ (c ++ codes ".")
                            ]))))));
  }

-- `stream() << text`
abbrev pub stream_text : Bytes → LogMessage → LogMessage
stream_text text m = record m { stream = m.stream ++ text }

-- `print_log` of arguments that are formatted to this text: the buffer gets 1022 bytes and the end.
unfoldable pub print_log : Bytes → LogMessage → LogMessage
print_log formatted m = stream_text (take 1022 formatted) m

-- What the destructor prints, and whether it aborts.
pub record Logged : Type 0 where
  pub output : Bytes
  pub aborted : Bool

unfoldable pub end_log_message : LogMessage → Logged
end_log_message m = record { output = m.stream ++ 10 ∷ []; aborted = not (ltb_ℤ m.level log_fatal) }

module _ (show : ℕ → Bytes) where
  -- `FF_LOG(level) << text`; a message that is not created is `none`.
  unfoldable pub ff_log : LogSettings → ℤ → Bytes → ℕ → Bytes → Option Logged
  unfolding should_create_log_message new_log_message end_log_message
  ff_log g level file line text =
      if should_create_log_message g level
      then some (end_log_message (stream_text text (new_log_message show level file line none)))
      else none

  -- `FF_CHECK(condition) << text`, whose condition is spelled so and has this value.
  unfoldable pub ff_check : Bool → Bytes → Bytes → ℕ → Bytes → Option Logged
  unfolding new_log_message end_log_message
  ff_check holds condition file line text =
      if holds
      then none
      else some (
          end_log_message
            (stream_text text (new_log_message show log_fatal file line (some condition))))
