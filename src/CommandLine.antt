-- ===== src/CommandLine.antt =====
-- src/cmdline_option.h and .cpp: the command line, split into arguments and read into options.
pub mod Split
pub mod Options
mod Tests
use ssh_agent_bridge.Base.{
  ℕ, Bool, true, false, not, ◌&&◌, ◌||◌, List, [], ◌∷◌, ◌++◌, Option, none, some, ◌==◌, ltb, ◌+◌,
  if◌then◌else◌,
}
use ssh_agent_bridge.Util.{WideString, wide, equal_string_ignore_case}

-- `Logger::LogLevel` of src/log.h.
pub data LogLevel : Type 0 where
  debug info warning error invalid : LogLevel

pub record CommandLineOption : Type 0 where
  pub is_good : Bool
  pub log_level : LogLevel
  pub is_debug : Bool
  pub alloc_console : Bool
  pub is_service : Bool
  pub is_install_service : Bool
  pub is_uninstall_service : Bool
  pub config_path : WideString

abbrev pub no_options : CommandLineOption
no_options = record {
  is_good = false;
  log_level = invalid;
  is_debug = false;
  alloc_console = false;
  is_service = false;
  is_install_service = false;
  is_uninstall_service = false;
  config_path = [];
}

-- The words that the source compares an argument with, in its order.
pub data Word : Type 0 where
  word_log_level word_service word_debug word_console word_config : Word
  word_install_service word_uninstall_service word_unknown : Word

module _ (towlower : ℕ → ℕ) where
  unfoldable pub word_of : WideString → Word
  word_of cur =
      if equal_string_ignore_case towlower cur (wide "/Loglevel")
      then word_log_level
      else if equal_string_ignore_case towlower cur (wide "/Service")
      then word_service
      else if equal_string_ignore_case towlower cur (wide "/Debug")
      then word_debug
      else if equal_string_ignore_case towlower cur (wide "/Console")
      then word_console
      else if equal_string_ignore_case towlower cur (wide "/Config")
      then word_config
      else if equal_string_ignore_case towlower cur (wide "/InstallService")
      then word_install_service
      else if equal_string_ignore_case towlower cur (wide "/UninstallService")
      then word_uninstall_service
      else word_unknown

  -- Also the reading of `loglevel` in src/application.cpp.
  unfoldable pub level_of : WideString → LogLevel
  level_of next =
      if equal_string_ignore_case towlower next (wide "debug")
      then debug
      else if equal_string_ignore_case towlower next (wide "info")
      then info
      else if equal_string_ignore_case towlower next (wide "warn")
      then warning
      else if equal_string_ignore_case towlower next (wide "error")
      then error
      else invalid

-- What one word does, with the argument behind it if there is one: the options, and how many
-- arguments the word takes behind it; `none` is the early return.
pub data Read : Type 0 where
  stops : Read
  goes_on : CommandLineOption → Read
  skips_one : CommandLineOption → Read

read_level : LogLevel → CommandLineOption → Read
read_level invalid o = stops
read_level level o = skips_one (record o { log_level = level })

unfoldable pub read_word :
    (WideString → LogLevel) → Word → Option WideString → CommandLineOption → Read
unfolding read_level
read_word level word_log_level none o = stops
read_word level word_log_level (some next) o = read_level (level next) o
read_word level word_service _ o = goes_on (record o { is_service = true })
read_word level word_debug _ o = goes_on (record o { is_debug = true })
read_word level word_console _ o = goes_on (record o { alloc_console = true })
read_word level word_config none o = stops
read_word level word_config (some next) o = skips_one (record o { config_path = next })
read_word level word_install_service _ o = goes_on (record o { is_install_service = true })
read_word level word_uninstall_service _ o = goes_on (record o { is_uninstall_service = true })
read_word level word_unknown _ o = stops

-- How many of the three service options are given: `exclusiveCounter`.
unfoldable pub exclusive_counter : CommandLineOption → ℕ
exclusive_counter o =
    (if o.is_service then 1 else 0)
    + (if o.is_install_service then 1 else 0)
    + (if o.is_uninstall_service then 1 else 0)

unfoldable pub validate : CommandLineOption → CommandLineOption
unfolding exclusive_counter
validate o = if ltb 1 (exclusive_counter o) then o else record o { is_good = true }

module _ (towlower : ℕ → ℕ) where
  -- The loop over the arguments behind the program's name.
  unfoldable pub read_arguments : List WideString → CommandLineOption → CommandLineOption
  unfolding read_word validate
  read_arguments [] o = validate o
  read_arguments (cur ∷ []) o = elim (read_word (level_of towlower) (word_of towlower cur) none o) [
    | stops ↦ o
    | goes_on o' ↦ validate o'
    | skips_one o' ↦ validate o'
  ]
  read_arguments (cur ∷ next ∷ rest) o =
      elim (read_word (level_of towlower) (word_of towlower cur) (some next) o) [
        | stops ↦ o
        | goes_on o' ↦ read_arguments (next ∷ rest) o'
        | skips_one o' ↦ read_arguments rest o'
      ]

  unfoldable pub extract_command_line_option : List WideString → CommandLineOption
  unfolding read_arguments
  extract_command_line_option [] = validate no_options
  extract_command_line_option (program ∷ args) = read_arguments args no_options

unfoldable pub is_empty : WideString → Bool
is_empty [] = true
is_empty (c ∷ cs) = false

-- One round of the loop of `SplitCommandLine`: `skipSpace`, `tmp` and `ret`.
pub record Splitting : Type 0 where
  pub skip_space : Bool
  pub tmp : WideString
  pub ret : List WideString

unfoldable pub split_char : ℕ → Splitting → Splitting
unfolding is_empty
split_char ch s =
    if ch == b'"'
    then record s { skip_space = not s.skip_space }
    else if ch == b' ' || ch == 9
    then (if s.skip_space && not (is_empty s.tmp)
        then record s { ret = s.ret ++ s.tmp ∷ []; tmp = [] }
        else if not s.skip_space
        then record s { tmp = s.tmp ++ ch ∷ [] }
        else s)
    else record s { tmp = s.tmp ++ ch ∷ [] }

unfoldable pub split_rest : WideString → Splitting → List WideString
unfolding split_char
split_rest [] s = if not (is_empty s.tmp) then s.ret ++ s.tmp ∷ [] else s.ret
split_rest (ch ∷ chs) s = split_rest chs (split_char ch s)

unfoldable pub split_command_line : WideString → List WideString
unfolding split_rest
split_command_line cmdline = split_rest cmdline (record { skip_space = true; tmp = []; ret = [] })
