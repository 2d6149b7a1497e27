-- ===== src/CommandLine/Tests.antt =====
-- Concrete command lines, with the lower case of ASCII.
use ssh_agent_bridge.Base.{
  ℕ, ◌+◌, ◌≤◌, ◌≡◌, refl, true, ◌&&◌, leb, if◌then◌else◌, List, [], ◌∷◌, All, arith,
}
use ssh_agent_bridge.Util.{WideString, wide, equal_string_ignore_case, equal_units}
use ssh_agent_bridge.CommandLine.{
  CommandLineOption, no_options, extract_command_line_option, split_command_line, word_of, level_of,
  debug, exclusive_counter,
}
use ssh_agent_bridge.CommandLine.Split.{line_of, IsQuotable, split_command_line-line_of}
use ssh_agent_bridge.CommandLine.Options.{
  Accepts, end, log_level, service, IsAccepted, extract_command_line_option-IsAccepted,
  extract_command_line_option-Accepts,
}

abbrev ascii_lower : ℕ → ℕ
ascii_lower c = if leb 65 c && leb c 90 then c + 32 else c

abbrev arguments : List WideString
arguments = wide "/LogLevel" ∷ wide "debug" ∷ wide "/service" ∷ []

abbrev set : CommandLineOption
set = record no_options { log_level = debug; is_service = true }

arguments-Accepts : Accepts ascii_lower arguments no_options set
unfolding word_of level_of equal_string_ignore_case equal_units
arguments-Accepts =
    log_level (wide "/LogLevel") (wide "debug") refl (λ e. cc) (service (wide "/service") refl end)

set-exclusive : exclusive_counter set ≤ 1
unfolding exclusive_counter
set-exclusive = omega arith

extract_command_line_option-Accepts_example :
    extract_command_line_option ascii_lower (wide "bridge" ∷ arguments)
    ≡ record set { is_good = true }
extract_command_line_option-Accepts_example =
    extract_command_line_option-Accepts ascii_lower (wide "bridge") arguments set arguments-Accepts
      set-exclusive

arguments-good :
    (extract_command_line_option ascii_lower (wide "bridge" ∷ arguments)).is_good ≡ true
arguments-good =
    rw
      (extract_command_line_option-Accepts ascii_lower (wide "bridge") arguments set
        arguments-Accepts set-exclusive)
      refl

extract_command_line_option-IsAccepted_example :
    IsAccepted ascii_lower arguments no_options
      (extract_command_line_option ascii_lower (wide "bridge" ∷ arguments))
extract_command_line_option-IsAccepted_example =
    extract_command_line_option-IsAccepted ascii_lower (wide "bridge") arguments arguments-good

abbrev two_words : List WideString
two_words = wide "a b" ∷ wide "c" ∷ []

two_words-IsQuotable : All IsQuotable two_words
two_words-IsQuotable = (
  (omega arith, (omega arith, (omega arith, (omega arith, tt)))),
  ((omega arith, (omega arith, tt)), tt),
)

split_command_line-line_of_example : split_command_line (line_of two_words) ≡ two_words
split_command_line-line_of_example = split_command_line-line_of two_words two_words-IsQuotable
