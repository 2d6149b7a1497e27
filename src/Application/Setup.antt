-- ===== src/Application/Setup.antt =====
-- The `Setup` functions of src/application.cpp: a section's properties become the arguments of a
-- listener or a client, with their defaults; `none` is a null pointer.
use ssh_agent_bridge.Base.{
  ℕ, ◌-◌, ◌^◌, Bool, true, false, not, ◌&&◌, [], Option, none, some, if◌then◌else◌,
}
use ssh_agent_bridge.Base.Faults.{◌>>=◌}
use ssh_agent_bridge.Util.{WideString, wide}
use ssh_agent_bridge.Ini.{IniSection, get_property_string, get_property_boolean, is_empty}

-- `std::stoi` with base 0: the 32-bit pattern, or the exception.
pub data Stoi : Type 0 where
  parsed : ℕ → Stoi
  invalid_argument out_of_range : Stoi

-- `LxPermissionInfo` of src/lxperm.h; the fields are the 32-bit patterns of an `int`.
pub record LxPermissionInfo : Type 0 where
  pub uid : ℕ
  pub gid : ℕ
  pub mode : ℕ

abbrev pub no_permission : LxPermissionInfo
no_permission = record { uid = 2 ^ 32 - 1; gid = 2 ^ 32 - 1; mode = 2 ^ 32 - 1 }

pub data Manager : Type 0 where
  proxy gpg : Manager

pub data Listener : Type 0 where
  libassuan_socket_emulation :
      (path address : WideString) (manager : Manager) (permission_check write_metadata : Bool)
      (perm : LxPermissionInfo)
      → Listener
  win32_named_pipe : (path : WideString) (manager : Manager) (permission_check : Bool) → Listener
  pageant : (permission_check allow_non_elevated : Bool) → Listener
  unix_domain_socket :
      (path : WideString) (manager : Manager) (permission_check write_metadata : Bool)
      (perm : LxPermissionInfo)
      → Listener
  hyper_v_socket : (port : WideString) (manager : Manager) (guid template : WideString) → Listener
  cygwin_socket_emulation :
      (path address : WideString) (manager : Manager) (permission_check : Bool) → Listener

pub data Client : Type 0 where
  pageant_client : (restrict_process : WideString) → Client
  win32_named_pipe_client : (path : WideString) → Client

-- A property with what the source puts in its place where it is missing.
unfoldable pub or_default : {A : Type 0} → A × Bool → A → A
or_default (v, true) d = v
or_default (v, false) d = d

-- A number that is there and not empty is read; what `stoi` throws ends the function.
unfoldable pub set_number :
    (WideString → Stoi)
    → WideString × Bool
    → (ℕ → LxPermissionInfo)
    → LxPermissionInfo
    → Option LxPermissionInfo
unfolding is_empty
set_number stoi (text, there) set perm =
    if there && not (is_empty text) then of_number (stoi text) else some perm
  where
    of_number : Stoi → Option LxPermissionInfo
    of_number (parsed n) = some (set n)
    of_number _ = none

-- `none` is false: the callers drop `perm` then.
unfoldable pub get_lx_permission_info :
    (WideString → Stoi) → IniSection → LxPermissionInfo → Option LxPermissionInfo
unfolding set_number
get_lx_permission_info stoi section perm =
    set_number stoi (get_property_string section (wide "metadata-uid"))
      (λ n. record perm { uid = n }) perm
    >>= λ p.
        set_number stoi (get_property_string section (wide "metadata-gid"))
          (λ n. record p { gid = n }) p
        >>= λ q.
            set_number stoi (get_property_string section (wide "metadata-mode"))
              (λ n. record q { mode = n }) q

-- The metadata, read only if it is to be written.
unfoldable pub permission_of : (WideString → Stoi) → IniSection → Bool → Option LxPermissionInfo
unfolding get_lx_permission_info
permission_of stoi section write_metadata =
    if write_metadata then get_lx_permission_info stoi section no_permission else some no_permission

-- `src/util.cpp`
unfoldable pub replace_environment_variables :
    (WideString → Option WideString) → WideString → WideString
replace_environment_variables expand str = elim (expand str) [ none ↦ [] | some s ↦ s ]

-- `path`, without which there is no listener.
unfoldable pub path_of : WideString × Bool → Option WideString
path_of (p, true) = some p
path_of (p, false) = none

abbrev permission_check : IniSection → Bool
permission_check section =
    or_default (get_property_boolean section (wide "enable-permission-check")) true

abbrev write_lxss_metadata : IniSection → Bool
write_lxss_metadata section =
    or_default (get_property_boolean section (wide "write-lxss-metadata")) false

module _ (stoi : WideString → Stoi) (expand : WideString → Option WideString) where
  unfoldable pub setup_wsl2_listener : IniSection → Manager → Option Listener
  unfolding or_default path_of permission_of replace_environment_variables
  setup_wsl2_listener section manager =
      path_of (get_property_string section (wide "path")) >>= λ path.
      permission_of stoi section (write_lxss_metadata section) >>= λ perm. some (
        libassuan_socket_emulation (replace_environment_variables expand path)
          (or_default (get_property_string section (wide "listen-address")) (wide "0.0.0.0"))
          manager (permission_check section) (write_lxss_metadata section) perm)

  unfoldable pub setup_unix_listener : IniSection → Manager → Option Listener
  unfolding or_default path_of permission_of replace_environment_variables
  setup_unix_listener section manager =
      path_of (get_property_string section (wide "path")) >>= λ path.
      permission_of stoi section (write_lxss_metadata section) >>= λ perm. some (
        unix_domain_socket (replace_environment_variables expand path) manager
          (permission_check section) (write_lxss_metadata section) perm)

module _ (expand : WideString → Option WideString) where
  unfoldable pub setup_named_pipe_listener : IniSection → Manager → Option Listener
  unfolding or_default path_of replace_environment_variables
  setup_named_pipe_listener section manager =
      path_of (get_property_string section (wide "path")) >>= λ path. some (
        win32_named_pipe (replace_environment_variables expand path) manager
          (permission_check section))

  unfoldable pub setup_cygwin_listener : IniSection → Manager → Option Listener
  unfolding or_default path_of replace_environment_variables
  setup_cygwin_listener section manager =
      path_of (get_property_string section (wide "path")) >>= λ path. some (
        cygwin_socket_emulation (replace_environment_variables expand path) (wide "127.0.0.1")
          manager (permission_check section))

  unfoldable pub setup_named_pipe_client : IniSection → Option Client
  unfolding path_of replace_environment_variables
  setup_named_pipe_client section = path_of (get_property_string section (wide "path")) >>= λ path.
      some (win32_named_pipe_client (replace_environment_variables expand path))

unfoldable pub setup_pageant_listener : IniSection → Manager → Option Listener
unfolding or_default
setup_pageant_listener section manager = some (
    pageant (permission_check section)
      (or_default (get_property_boolean section (wide "allow-non-elevated-access")) false))

unfoldable pub setup_hyper_v_listener : IniSection → Manager → Option Listener
setup_hyper_v_listener section manager =
    let port = get_property_string section (wide "listen-port") in
    let guid = get_property_string section (wide "listen-address") in
    let template = get_property_string section (wide "listen-service-template") in
    some (hyper_v_socket port.0 manager guid.0 template.0)

unfoldable pub setup_pageant_client : IniSection → Option Client
setup_pageant_client section =
    let restrict = get_property_string section (wide "restrict-process") in
    some (pageant_client restrict.0)
