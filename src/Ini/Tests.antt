-- ===== src/Ini/Tests.antt =====
-- A file of one section, and the blanks and lower case of ASCII.
use ssh_agent_bridge.Base.{
  ℕ, ◌+◌, ◌≡◌, refl, Bool, true, ◌&&◌, ◌||◌, ◌==◌, leb, if◌then◌else◌, [], ◌∷◌, ◌++◌, some,
}
use ssh_agent_bridge.Util.{WideString, wide}
use ssh_agent_bridge.Ini.{
  Parsed, parse_ini_file, read_lines, read_line, read_at, read_section, read_name, start_section,
  put_section, read_other, read_property, put_property, find_first_of, split_property, is_empty,
  getline, ignore_line, cut_line, trim_string, drop_blanks, drop_last, last?, finish,
}
use ssh_agent_bridge.Ini.Maps.{find, emplace, less}
use ssh_agent_bridge.Base.{equal}
use ssh_agent_bridge.Ini.Termination.{parse_ini_file-total}

abbrev is_blank : ℕ → Bool
is_blank c = c == 32 || c == 9

abbrev ascii_lower : ℕ → ℕ
ascii_lower c = if leb 65 c && leb c 90 then c + 32 else c

abbrev emptied : WideString → WideString
emptied s = []

-- The last line ends in a newline: it is read a second time, to no effect.
abbrev text : WideString
text = wide "[a]" ++ 10 ∷ wide "; note" ++ 10 ∷ wide "Key = v" ++ 10 ∷ []

parse_ini_file-total_example :
    (r : Parsed) × (parse_ini_file is_blank ascii_lower emptied (some text) ≡ some r)
parse_ini_file-total_example = parse_ini_file-total is_blank ascii_lower emptied text

parse_ini_file-text :
    parse_ini_file is_blank ascii_lower emptied (some text)
    ≡ some (record { ini = (wide "a", (wide "key", wide "v") ∷ []) ∷ []; status = true })
unfolding parse_ini_file read_lines read_line read_at read_section read_name start_section
    put_section read_other read_property put_property find_first_of split_property is_empty getline
    ignore_line cut_line trim_string drop_blanks drop_last last? finish find emplace equal less
parse_ini_file-text = refl

-- The last of three sections has the first one's name: it is dropped, and the status is true.
parse_ini_file-duplicate :
    parse_ini_file is_blank ascii_lower emptied (
      some (
        wide "[a]"
        ++ 10 ∷ wide "k=1"
        ++ 10 ∷ wide "[b]"
        ++ 10 ∷ wide "k=2"
        ++ 10 ∷ wide "[a]"
        ++ 10 ∷ wide "k=3"))
    ≡ some (record {
      ini = (wide "a", (wide "k", wide "1") ∷ []) ∷ (wide "b", (wide "k", wide "2") ∷ []) ∷ [];
      status = true;
    })
unfolding parse_ini_file read_lines read_line read_at read_section read_name start_section
    put_section read_other read_property put_property find_first_of split_property is_empty getline
    ignore_line cut_line trim_string drop_blanks drop_last last? finish find emplace equal less
parse_ini_file-duplicate = refl
