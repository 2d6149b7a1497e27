-- ===== src/Wsl2Helper/Options/RoundTrip.antt =====
-- Every setting can be given on the command line.
use ssh_agent_bridge.Base.{
  ◌≡◌, refl, sym, ap, ◌∙◌, Bool, true, false, List, [], ◌∷◌, Option, none, some, equal,
  if◌then◌else◌,
}
use ssh_agent_bridge.Util.{wide}
use ssh_agent_bridge.Wsl2Helper.Options.{
  Text, Options, defaults, goes_on, skips_one, kind_of, read_option, parse_command_line,
}

-- An option with its value, if there is one, and a flag.
abbrev with_value : Text → Text → List Text → List Text
with_value option [] rest = rest
with_value option (c ∷ cs) rest = option ∷ (c ∷ cs) ∷ rest

abbrev with_flag : Text → Bool → List Text → List Text
with_flag option flag rest = if flag then option ∷ rest else rest

abbrev pub arguments_of : Options → List Text
arguments_of o = with_value (wide "-l") o.local_socket_path (
    with_value (wide "-r") o.remote_socket_path (
      with_value (wide "-a") o.remote_address (
        with_value (wide "-p") o.pid_file_path (
          with_flag (wide "-d") o.delete_exist_socket (
            with_flag (wide "-b") o.background_running
              (with_flag (wide "-c") o.refcount_flag []))))))

-- A flag behind which the rest is read.
read_flag :
    (option : Text) (o o' : Options) (rest : List Text)
    → ((next : Option Text) → read_option (kind_of option) next o ≡ goes_on o')
    → parse_command_line (option ∷ rest) o ≡ parse_command_line rest o'
unfolding parse_command_line
read_flag option o o' [] e = rw (e none, parse_command_line) refl
read_flag option o o' (next ∷ rest) e = rw (e (some next), parse_command_line) refl

-- A value or a flag that changes the globals by `set`, from those where it is empty or false.
read_with_value :
    (option value : Text) (rest : List Text) (o : Options) (set : Text → Options)
    → set [] ≡ o
    → ((v : Text) → read_option (kind_of option) (some v) o ≡ skips_one (set v))
    → parse_command_line (with_value option value rest) o ≡ parse_command_line rest (set value)
unfolding parse_command_line
read_with_value option [] rest o set e reads = ap (parse_command_line rest) (sym e)
read_with_value option (c ∷ cs) rest o set e reads = rw (reads (c ∷ cs), parse_command_line) refl

read_with_flag :
    (option : Text) (flag : Bool) (rest : List Text) (o : Options) (set : Bool → Options)
    → set false ≡ o
    → ((next : Option Text) → read_option (kind_of option) next o ≡ goes_on (set true))
    → parse_command_line (with_flag option flag rest) o ≡ parse_command_line rest (set flag)
read_with_flag option false rest o set e reads = ap (parse_command_line rest) (sym e)
read_with_flag option true rest o set e reads = read_flag option o (set true) rest reads

-- The arguments that give any settings (each value that is not empty behind its option, and each flag that
-- is set) are read, from the globals as they start, as these settings.
pub parse_command_line-arguments_of :
    (o : Options) → parse_command_line (arguments_of o) defaults ≡ some o
unfolding parse_command_line read_option kind_of equal
parse_command_line-arguments_of o =
    let o1 : Options = record defaults { local_socket_path = o.local_socket_path } in
    let o2 : Options = record o1 { remote_socket_path = o.remote_socket_path } in
    let o3 : Options = record o2 { remote_address = o.remote_address } in
    let o4 : Options = record o3 { pid_file_path = o.pid_file_path } in
    let o5 : Options = record o4 { delete_exist_socket = o.delete_exist_socket } in
    let o6 : Options = record o5 { background_running = o.background_running } in
    read_with_value (wide "-l") o.local_socket_path _ defaults
      (λ v. record defaults { local_socket_path = v }) refl (λ v. refl)
    ∙ read_with_value (wide "-r") o.remote_socket_path _ o1
        (λ v. record o1 { remote_socket_path = v }) refl (λ v. refl)
    ∙ read_with_value (wide "-a") o.remote_address _ o2 (λ v. record o2 { remote_address = v }) refl
        (λ v. refl)
    ∙ read_with_value (wide "-p") o.pid_file_path _ o3 (λ v. record o3 { pid_file_path = v }) refl
        (λ v. refl)
    ∙ read_with_flag (wide "-d") o.delete_exist_socket _ o4
        (λ v. record o4 { delete_exist_socket = v }) refl (λ v. refl)
    ∙ read_with_flag (wide "-b") o.background_running _ o5
        (λ v. record o5 { background_running = v }) refl (λ v. refl)
    ∙ read_with_flag (wide "-c") o.refcount_flag [] o6 (λ v. record o6 { refcount_flag = v }) refl
        (λ v. refl)
