-- ===== src/Application.antt =====
-- src/application.h and .cpp: the configuration is turned into listeners and clients. `stoi` (of the C++
-- library) and `expand` (`ExpandEnvironmentStringsW`, `none` if it fails) are parameters. The
-- listeners and clients that are made are the arguments of their constructors.
pub mod Setup
pub mod Adds
pub mod Sections
mod Tests
use ssh_agent_bridge.Base.{
  ℕ, Bool, true, false, not, ◌&&◌, ◌||◌, List, [], ◌∷◌, ◌++◌, Option, none, some, if◌then◌else◌,
}
use ssh_agent_bridge.Base.Faults.{◌>>=◌}
use ssh_agent_bridge.Util.{WideString, wide}
use ssh_agent_bridge.CommandLine.{LogLevel, invalid, level_of}
use ssh_agent_bridge.Ini.{IniSection, IniFile, get_property_string, get_property_boolean}
use ssh_agent_bridge.Base.{equal}
use ssh_agent_bridge.Application.Setup.{
  Stoi, Manager, proxy, gpg, Listener, Client, setup_wsl2_listener, setup_named_pipe_listener,
  setup_pageant_listener, setup_unix_listener, setup_hyper_v_listener, setup_cygwin_listener,
  setup_pageant_client, setup_named_pipe_client, replace_environment_variables,
}

-- `TypeAction`; a function that is not there is none.
pub record TypeAction : Type 0 where
  pub name : WideString
  pub create_listener : Option (IniSection → Manager → Option Listener)
  pub create_client : Option (IniSection → Option Client)

pub record NamedClient : Type 0 where
  pub name : WideString
  pub client : Client

-- What `Initialize` changes; `targets` is the forwarding manager's map, with the listener for its
-- pointer, and `log_level` is the logger's.
pub record Application : Type 0 where
  pub listeners : List Listener
  pub targets : List (Listener × WideString)
  pub clients : List NamedClient
  pub log_level : LogLevel
  pub mangle_comment_flag : Bool
  pub client_set_flag : Bool

abbrev pub forward_enabled_list : List WideString
forward_enabled_list = wide "unix" ∷ wide "assuan_emu" ∷ wide "hyperv" ∷ wide "cygwin" ∷ []

unfoldable pub is_forward_enabled : WideString → List WideString → Bool
is_forward_enabled type [] = false
is_forward_enabled type (t ∷ ts) = equal t type || is_forward_enabled type ts

unfoldable pub add_listener : Option Listener → Application → Option Application
add_listener none a = none
add_listener (some l) a = some (record a { listeners = a.listeners ++ l ∷ [] })

set_target : Option Listener → WideString → Application → Application
set_target none target a = a
set_target (some l) target a = record a { targets = a.targets ++ (l, target) ∷ [] }

-- The branch of the role `client`.
unfoldable pub add_client : Option Client → WideString → Application → Option Application
add_client none section_name a = none
add_client (some c) section_name a = some (record a {
  client_set_flag = true;
  clients = a.clients ++ record { name = section_name; client = c } ∷ [];
})

unfoldable pub make_client :
    Option (IniSection → Option Client) → WideString → IniSection → Application → Option Application
unfolding add_client
make_client none section_name section a = none
make_client (some create) section_name section a = add_client (create section) section_name a

unfoldable pub set_mangling : Bool × Bool → Application → Application
set_mangling (flag, false) a = a
set_mangling (flag, true) a = record a { mangle_comment_flag = flag }

module _ (towlower : ℕ → ℕ) (stoi : WideString → Stoi)
    (expand : WideString → Option WideString) where
  abbrev pub named_pipe_action : TypeAction
  named_pipe_action = record {
    name = wide "namedpipe";
    create_listener = some (setup_named_pipe_listener expand);
    create_client = some (setup_named_pipe_client expand);
  }

  abbrev pub pageant_action : TypeAction
  pageant_action = record {
    name = wide "pageant";
    create_listener = some setup_pageant_listener;
    create_client = some setup_pageant_client;
  }

  abbrev pub assuan_emu_action : TypeAction
  assuan_emu_action = record {
    name = wide "assuan_emu";
    create_listener = some (setup_wsl2_listener stoi expand);
    create_client = none;
  }

  abbrev pub unix_action : TypeAction
  unix_action = record {
    name = wide "unix";
    create_listener = some (setup_unix_listener stoi expand);
    create_client = none;
  }

  abbrev pub hyper_v_action : TypeAction
  hyper_v_action = record {
    name = wide "hyperv";
    create_listener = some setup_hyper_v_listener;
    create_client = none;
  }

  abbrev pub cygwin_action : TypeAction
  cygwin_action = record {
    name = wide "cygwin";
    create_listener = some (setup_cygwin_listener expand);
    create_client = none;
  }

  abbrev pub action_list : List TypeAction
  action_list =
      named_pipe_action ∷ pageant_action ∷ assuan_emu_action ∷ unix_action ∷ hyper_v_action
      ∷ cygwin_action ∷ []

  unfoldable pub make_listener :
      Option (IniSection → Manager → Option Listener)
      → WideString
      → IniSection
      → WideString × Bool
      → Application
      → Option Application
  unfolding add_listener is_forward_enabled set_target
  make_listener none type section path a = none
  make_listener (some create) type section (target, true) a =
      if is_forward_enabled type forward_enabled_list
      then (let ptr = create section gpg in
          add_listener ptr (set_target ptr (replace_environment_variables expand target) a))
      else none
  make_listener (some create) type section (target, false) a = add_listener (create section proxy) a

  unfoldable pub configure_listener :
      TypeAction → WideString → IniSection → Application → Option Application
  unfolding make_listener
  configure_listener action type section a =
      make_listener action.create_listener type section
        (get_property_string section (wide "forward-socket-path")) a

  unfoldable pub configure_client :
      TypeAction → WideString → IniSection → Application → Option Application
  unfolding make_client
  configure_client action section_name section a =
      make_client action.create_client section_name section a

  unfoldable pub configure_role :
      TypeAction
      → WideString
      → IniSection
      → WideString
      → WideString
      → Application
      → Option Application
  unfolding configure_listener configure_client
  configure_role action section_name section type role a =
      if equal role (wide "listener")
      then configure_listener action type section a
      else if equal role (wide "client")
      then configure_client action section_name section a
      else none

  -- The loop over `actionList`, which goes on behind a match, with `findFlag`.
  unfoldable pub configure_type :
      List TypeAction
      → WideString
      → IniSection
      → WideString
      → WideString
      → Bool
      → Application
      → Option Application
  unfolding configure_role
  configure_type [] section_name section type role find_flag a = if find_flag then some a else none
  configure_type (action ∷ actions) section_name section type role find_flag a =
      if equal type action.name
      then (configure_role action section_name section type role a >>= λ a'.
          configure_type actions section_name section type role true a')
      else configure_type actions section_name section type role find_flag a

  -- The section `general`.
  unfoldable pub set_level : WideString × Bool → Application → Option Application
  set_level (text, false) a = some a
  set_level (text, true) a = of_level (level_of towlower text)
    where
      of_level : LogLevel → Option Application
      of_level invalid = none
      of_level l = some (record a { log_level = l })

  unfoldable pub configure_general : IniSection → Application → Option Application
  unfolding set_level set_mangling
  configure_general section a =
      set_level (get_property_string section (wide "loglevel")) a >>= λ a'.
      some (set_mangling (get_property_boolean section (wide "mangle-key-comment")) a')

  unfoldable pub configure_section : WideString → IniSection → Application → Option Application
  unfolding configure_general configure_type
  configure_section section_name section a =
      let type = get_property_string section (wide "type") in
      let role = get_property_string section (wide "role") in
      if equal section_name (wide "general")
      then configure_general section a
      else if not type.1 || not role.1
      then none
      else configure_type action_list section_name section type.0 role.0 false a

  unfoldable pub configure : IniFile → Application → Option Application
  unfolding configure_section
  configure [] a = some a
  configure ((section_name, section) ∷ config) a =
      configure_section section_name section a >>= λ a'. configure config a'

  unfoldable pub initialize : IniFile → LogLevel → Option Application
  unfolding configure
  initialize config level =
      configure config (record {
        listeners = [];
        targets = [];
        clients = [];
        log_level = level;
        mangle_comment_flag = true;
        client_set_flag = false;
      })
      >>= λ a. if a.client_set_flag then some a else none
