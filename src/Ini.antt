-- ===== src/Ini.antt =====
-- src/ini_parse.h and .cpp: the configuration file. A file is the list of its decoded characters
-- behind the position, with the end-of-file flag of the stream. `std::map` is a list of pairs in the
-- order of its keys. `std::iswblank` and `std::towlower` belong to the C library, and `moved_from` is
-- what a `std::wstring` that was moved from holds: they are parameters.
pub mod Maps
pub mod Termination
mod Tests
use ssh_agent_bridge.Base.{
  ℕ, zero, suc, ◌+◌, Bool, true, false, not, ◌&&◌, ◌||◌, List, [], ◌∷◌, ◌++◌, map, reverse, Option,
  none, some, ◌==◌, head?, if◌then◌else◌, length,
}
use ssh_agent_bridge.Base.Faults.{◌>>=◌}
use ssh_agent_bridge.Util.{WideString, wide}
use ssh_agent_bridge.Ini.Maps.{Map, find, emplace}
use ssh_agent_bridge.Base.{equal}

abbrev pub IniSection : Type 0
IniSection = Map WideString

abbrev pub IniFile : Type 0
IniFile = Map IniSection

-- The stream and the local variables of `ParseIniFile`.
pub record Parsing : Type 0 where
  pub rest : WideString
  pub eof : Bool
  pub line : WideString
  pub section_name : WideString
  pub current_section : IniSection
  pub ini : IniFile

-- The result: the sections so far, and the status.
pub record Parsed : Type 0 where
  pub ini : IniFile
  pub status : Bool

-- A round of the loop: `return ret` with status false, or on to the loop's test.
pub data Round : Type 0 where
  returns : IniFile → Round
  continues : Parsing → Round

-- What stands before the first newline, whether there is one, and what stands behind it.
record Line : Type 0 where
  text : WideString
  ended : Bool
  behind : WideString

unfoldable cut_line : WideString → Line
cut_line [] = record { text = []; ended = false; behind = [] }
cut_line (c ∷ cs) =
    let l = cut_line cs in
    if c == 10
    then record { text = []; ended = true; behind = cs }
    else record { text = c ∷ l.text; ended = l.ended; behind = l.behind }

-- `std::getline`, for a stream that is good; the flag is set where the end is met first. On a
-- stream that is at its end the sentry fails, and the line stays as it was.
unfoldable getline : Parsing → Parsing
unfolding cut_line
getline s =
    let l = cut_line s.rest in
    if s.eof then s else record s { rest = l.behind; eof = not l.ended; line = l.text }

-- `file.ignore(max, '\n')`
unfoldable ignore_line : Parsing → Parsing
unfolding cut_line
ignore_line s =
    let l = cut_line s.rest in if s.eof then s else record s { rest = l.behind; eof = not l.ended }

unfoldable pub find_first_of : WideString → WideString → Bool
find_first_of chars [] = false
find_first_of chars (c ∷ cs) = contains c chars || find_first_of chars cs
  where
    contains : ℕ → WideString → Bool
    contains c [] = false
    contains c (x ∷ xs) = c == x || contains c xs

unfoldable pub is_empty : WideString → Bool
is_empty [] = true
is_empty (c ∷ cs) = false

-- `substr(0, pos)` and `substr(pos + 1)` for the first `=`.
unfoldable pub split_property : WideString → Option (WideString × WideString)
split_property [] = none
split_property (c ∷ cs) =
    let behind = split_property cs in
    if c == b'=' then some ([], cs) else (behind >>= λ (k, v). some (c ∷ k, v))

unfoldable drop_last : WideString → WideString
drop_last [] = []
drop_last (c ∷ []) = []
drop_last (c ∷ d ∷ cs) = c ∷ drop_last (d ∷ cs)

unfoldable last? : WideString → Option ℕ
last? [] = none
last? (c ∷ []) = some c
last? (c ∷ d ∷ cs) = last? (d ∷ cs)

module _ (iswblank : ℕ → Bool) (towlower : ℕ → ℕ) (moved_from : WideString → WideString) where
  unfoldable drop_blanks : WideString → WideString
  drop_blanks [] = []
  drop_blanks (c ∷ cs) = let rest = drop_blanks cs in if iswblank c then rest else c ∷ cs

  unfoldable pub trim_string : WideString → WideString
  unfolding drop_blanks
  trim_string str = drop_blanks (reverse (drop_blanks (reverse str)))

  -- A section header: the section before it is put in, unless its name is taken.
  put_section : Option IniSection → WideString → Parsing → Round
  put_section (some duplicate) name s = returns s.ini
  put_section none name s = continues (record s {
    ini = emplace s.section_name s.current_section s.ini;
    section_name = name;
    line = moved_from name;
    current_section = [];
  })

  start_section : WideString → Parsing → Round
  unfolding is_empty put_section
  start_section name s =
      if is_empty s.section_name
      then continues
          (record s { section_name = name; line = moved_from name; current_section = [] })
      else put_section (find s.section_name s.ini) name s

  read_name : Option ℕ → WideString → Parsing → Round
  unfolding find_first_of drop_last start_section
  read_name (some back) (front ∷ cs) s =
      let name = drop_last cs in
      if not (front == b'[') || not (back == b']')
      then returns s.ini
      else if find_first_of (wide "[]=;") name
      then returns s.ini
      else start_section name s
  read_name _ _ s = returns s.ini

  -- `case L'['`, behind `getline`; the line has the bracket that was peeked.
  unfoldable pub read_section : Parsing → Round
  unfolding read_name last?
  read_section s = read_name (last? s.line) s.line s

  put_property : Option (WideString × WideString) → Parsing → Round
  unfolding is_empty trim_string
  put_property none s = returns s.ini
  put_property (some (k, v)) s =
      let key = map towlower (trim_string k) in
      if is_empty key
      then returns s.ini
      else continues (record s { current_section = emplace key (trim_string v) s.current_section })

  -- The `default` case, behind `getline`.
  unfoldable pub read_property : Parsing → Round
  unfolding find_first_of split_property put_property
  read_property s =
      if find_first_of (wide "[];") s.line
      then returns s.ini
      else put_property (split_property s.line) s

  -- `default`: the character peeked is another one, or the end, which sets the flag.
  unfoldable read_other : Parsing → Round
  unfolding read_property getline is_empty
  read_other s = if is_empty s.section_name then returns s.ini else read_property (getline s)

  -- The switch over the character that is peeked.
  read_at : WideString → Parsing → Round
  unfolding read_section read_other getline ignore_line
  read_at [] s = read_other (record s { eof = true })
  read_at (c ∷ cs) s =
      if c == b'['
      then read_section (getline s)
      else if c == 10 || c == b';'
      then continues (ignore_line s)
      else read_other s

  unfoldable pub read_line : Parsing → Round
  unfolding read_at
  read_line s = read_at s.rest s

  -- Behind the loop: the last section is put in, with no test for a duplicate.
  unfoldable pub finish : Parsing → Parsed
  unfolding is_empty
  finish s = record {
    ini = if is_empty s.section_name then s.ini else emplace s.section_name s.current_section s.ini;
    status = true;
  }

  -- The loop, for so many rounds; `none` if they were not enough.
  unfoldable pub read_lines : ℕ → Parsing → Option Parsed
  unfolding read_line finish
  read_lines zero s = none
  read_lines (suc k) s =
      if s.eof then some (finish s) else elim (read_line s) as (λ r. Option Parsed) [
        | returns ini ↦ some (record { ini = ini; status = false })
        | continues s' ↦ read_lines k s'
      ]

  -- The file, or none if it cannot be opened. A round takes a character or sets the flag.
  unfoldable pub parse_ini_file : Option WideString → Option Parsed
  unfolding read_lines
  parse_ini_file none = some (record { ini = []; status = false })
  parse_ini_file (some text) = read_lines (length text + 2) (record {
    rest = text;
    eof = false;
    line = [];
    section_name = [];
    current_section = [];
    ini = [];
  })

-- A property's value, and whether it is there.
unfoldable pub get_property_string : IniSection → WideString → WideString × Bool
get_property_string section name = elim (find name section) [
  | none ↦ ([], false)
  | some v ↦ (v, true)
]

unfoldable pub get_property_boolean : IniSection → WideString → Bool × Bool
unfolding equal
get_property_boolean section name = elim (find name section) [
  | none ↦ (false, false)
  | some v ↦
      if equal v (wide "true")
      then (true, true)
      else if equal v (wide "false")
      then (false, true)
      else (false, false)
]
