-- ===== src/Startup/Logger.antt =====
-- internal/auth/logger/logger.go: the level of the logger and its format. `slog` is not modelled.
use go_auth_api.Base.{
  Bool, List, String, [], codes, false, if◌then◌else◌, map, to_lower, true, ℕ, ◌&&◌, ◌==◌, ◌||◌,
  ◌∷◌,
}
use go_auth_api.Config.Values.{trim, trim_left, trim_right, trim_space}

pub data Level : Type 0 where
  level_debug level_info level_warn level_error : Level

abbrev same_codes : List ℕ → List ℕ → Bool
same_codes [] [] = true
same_codes [] (d ∷ ds) = false
same_codes (c ∷ cs) [] = false
same_codes (c ∷ cs) (d ∷ ds) = c == d && same_codes cs ds

-- `strings.ToLower(strings.TrimSpace(s))` is this word.
abbrev reads_as : String → String → Bool
reads_as s word = same_codes (map to_lower (codes (trim_space s))) (codes word)

-- `isProd`
unfoldable pub is_prod : String → Bool
unfolding to_lower trim trim_left trim_right
is_prod env = reads_as env "production" || reads_as env "prod"

-- `parseLevel`
unfoldable pub parse_level : String → Level
unfolding to_lower trim trim_left trim_right
parse_level level =
    if reads_as level "debug"
    then level_debug
    else if reads_as level "warn" || reads_as level "warning"
    then level_warn
    else if reads_as level "error"
    then level_error
    else level_info

-- `logger.New`
pub record Logger : Type 0 where
  pub json_format : Bool
  pub level : Level

abbrev pub new_logger : String → String → Logger
new_logger env level = record { json_format = is_prod env; level = parse_level level }
