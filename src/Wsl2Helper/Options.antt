-- ===== src/Wsl2Helper/Options.antt =====
-- `ParseCommandLine`, `GetTempFilename` and the checks of `main` in wsl2_helper/main.cpp. The globals that the
-- options set are a record. Text is the list of its characters' codes.
pub mod RoundTrip
pub mod Checks
mod Tests
use ssh_agent_bridge.Base.{
  ℕ, Bool, true, false, not, ◌&&◌, List, [], ◌∷◌, ◌++◌, Option, none, some, equal, if◌then◌else◌,
}
use ssh_agent_bridge.Util.{wide}

abbrev pub Text : Type 0
Text = List ℕ

pub record Options : Type 0 where
  pub local_socket_path : Text
  pub remote_socket_path : Text
  pub remote_address : Text
  pub pid_file_path : Text
  pub background_running : Bool
  pub refcount_flag : Bool
  pub delete_exist_socket : Bool

abbrev pub defaults : Options
defaults = record {
  local_socket_path = [];
  remote_socket_path = [];
  remote_address = [];
  pid_file_path = [];
  background_running = false;
  refcount_flag = false;
  delete_exist_socket = false;
}

-- What an argument asks for: a value to be stored, a flag, or the early return.
pub data Kind : Type 0 where
  takes_local takes_remote takes_address takes_pid_file : Kind
  sets_delete sets_background sets_refcount : Kind
  gives_up : Kind

unfoldable pub kind_of : Text → Kind
unfolding equal
kind_of option =
    if equal option (wide "-l")
    then takes_local
    else if equal option (wide "-r")
    then takes_remote
    else if equal option (wide "-a")
    then takes_address
    else if equal option (wide "-p")
    then takes_pid_file
    else if equal option (wide "-d")
    then sets_delete
    else if equal option (wide "-b")
    then sets_background
    else if equal option (wide "-c")
    then sets_refcount
    else gives_up

-- One round: the early return, on with the next argument, or on behind the value.
pub data Read : Type 0 where
  stops : Read
  goes_on : Options → Read
  skips_one : Options → Read

abbrev store : Option Text → (Text → Options) → Read
store none set = stops
store (some value) set = skips_one (set value)

unfoldable pub read_option : Kind → Option Text → Options → Read
read_option takes_local next o = store next (λ v. record o { local_socket_path = v })
read_option takes_remote next o = store next (λ v. record o { remote_socket_path = v })
read_option takes_address next o = store next (λ v. record o { remote_address = v })
read_option takes_pid_file next o = store next (λ v. record o { pid_file_path = v })
read_option sets_delete next o = goes_on (record o { delete_exist_socket = true })
read_option sets_background next o = goes_on (record o { background_running = true })
read_option sets_refcount next o = goes_on (record o { refcount_flag = true })
read_option gives_up next o = stops

-- The arguments behind the program's name; `none` is false.
unfoldable pub parse_command_line : List Text → Options → Option Options
unfolding read_option kind_of
parse_command_line [] o = some o
parse_command_line (option ∷ []) o = elim (read_option (kind_of option) none o) [
  | stops ↦ none
  | goes_on o' ↦ some o'
  | skips_one o' ↦ some o'
]
parse_command_line (option ∷ next ∷ rest) o = elim (read_option (kind_of option) (some next) o) [
  | stops ↦ none
  | goes_on o' ↦ parse_command_line (next ∷ rest) o'
  | skips_one o' ↦ parse_command_line rest o'
]

unfoldable pub is_empty : Text → Bool
is_empty [] = true
is_empty (c ∷ cs) = false

-- How `main` goes on: `return code`, or with these globals.
pub data Start : Type 0 where
  exits : ℕ → Start
  starts : Options → Start

-- `std::tmpnam`, `GetDefaultGateway` and `inet_pton` are parameters: the name, or none; the address,
-- or the empty text; and whether an address is valid.
module _ (tmpnam : Option Text) (gateway : Text) (is_address : Text → Bool) where
  unfoldable pub get_temp_filename : Text
  get_temp_filename = elim tmpnam [ none ↦ [] | some name ↦ name ++ wide ".socket" ]

  unfoldable pub check_address : Options → Start
  check_address o = if is_address o.remote_address then starts o else exits 1

  unfoldable pub set_address : Options → Start
  unfolding check_address is_empty
  set_address o = check_address (
      if is_empty o.remote_address
      then record o { remote_address = if is_empty gateway then wide "127.0.0.1" else gateway }
      else o)

  unfoldable pub set_local : Options → Start
  unfolding set_address get_temp_filename is_empty
  set_local o =
      if is_empty o.local_socket_path
      then (if is_empty get_temp_filename
          then exits 1
          else set_address (record o { local_socket_path = get_temp_filename }))
      else set_address o

  -- `main` up to the forks.
  unfoldable pub prepare : Options → Start
  unfolding set_local is_empty
  prepare o =
      if is_empty o.remote_socket_path
      then exits 1
      else if o.refcount_flag && not o.background_running
      then exits 1
      else if o.refcount_flag && is_empty o.pid_file_path
      then exits 1
      else set_local o

  unfoldable pub main_until_fork : List Text → Start
  unfolding parse_command_line prepare
  main_until_fork [] = exits 1
  main_until_fork (arg ∷ args) = elim (parse_command_line (arg ∷ args) defaults) [
    | none ↦ exits 1
    | some o ↦ prepare o
  ]
