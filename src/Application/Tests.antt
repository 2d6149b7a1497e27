-- ===== src/Application/Tests.antt =====
-- A configuration with one client and one listener.
use ssh_agent_bridge.Base.{ℕ, ◌<◌, ◌≡◌, refl, true, false, [], ◌∷◌, length, Option, some}
use ssh_agent_bridge.Util.{WideString, wide}
use ssh_agent_bridge.CommandLine.{info}
use ssh_agent_bridge.Ini.{IniFile, get_property_string, get_property_boolean}
use ssh_agent_bridge.Ini.Maps.{find}
use ssh_agent_bridge.Base.{equal}
use ssh_agent_bridge.Application.Setup.{
  Stoi, parsed, proxy, unix_domain_socket, win32_named_pipe_client, no_permission,
  setup_unix_listener, setup_named_pipe_client, path_of, or_default, permission_of,
  replace_environment_variables,
}
use ssh_agent_bridge.Application.{
  Application, initialize, configure, configure_section, configure_type, configure_role,
  configure_listener, configure_client, make_listener, make_client, add_listener, add_client,
  set_level, set_mangling, configure_general,
}
use ssh_agent_bridge.Application.Adds.{client_names, of_role}
use ssh_agent_bridge.Application.Sections.{initialize-client_names}

abbrev small : IniFile
small =
    (
      wide "agent",
      (wide "path", wide "p") ∷ (wide "role", wide "client") ∷ (wide "type", wide "namedpipe") ∷ [],
    )
    ∷ (wide "general", (wide "mangle-key-comment", wide "true") ∷ [])
    ∷ (
      wide "socket",
      (wide "path", wide "s") ∷ (wide "role", wide "listener") ∷ (wide "type", wide "unix") ∷ [],
    )
    ∷ []

abbrev same_letter : ℕ → ℕ
same_letter c = c

abbrev zero_number : WideString → Stoi
zero_number s = parsed 0

abbrev unexpanded : WideString → Option WideString
unexpanded s = some s

abbrev set_up : Application
set_up = record {
  listeners = unix_domain_socket (wide "s") proxy true false no_permission ∷ [];
  targets = [];
  clients = record { name = wide "agent"; client = win32_named_pipe_client (wide "p") } ∷ [];
  log_level = info;
  mangle_comment_flag = true;
  client_set_flag = true;
}

small-set_up : initialize same_letter zero_number unexpanded small info ≡ some set_up
unfolding initialize configure configure_section configure_type configure_role configure_listener
    configure_client make_listener make_client add_listener add_client set_level set_mangling
    configure_general find equal get_property_string get_property_boolean setup_unix_listener
    setup_named_pipe_client path_of or_default permission_of replace_environment_variables
small-set_up = refl

initialize-client_names_example :
    (client_names set_up ≡ of_role (wide "client") small)
    × (length set_up.listeners ≡ length (of_role (wide "listener") small))
    × (0 < length set_up.clients)
initialize-client_names_example =
    initialize-client_names same_letter zero_number unexpanded small info set_up small-set_up
