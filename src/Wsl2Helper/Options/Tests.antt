-- ===== src/Wsl2Helper/Options/Tests.antt =====
-- A start of the helper, and the witnesses.
use ssh_agent_bridge.Base.{◌≡◌, true, List, [], ◌∷◌, some}
use ssh_agent_bridge.Util.{wide}
use ssh_agent_bridge.Wsl2Helper.Options.{
  Text, Options, defaults, parse_command_line, main_until_fork,
}
use ssh_agent_bridge.Wsl2Helper.Options.RoundTrip.{arguments_of, parse_command_line-arguments_of}
use ssh_agent_bridge.Wsl2Helper.Options.Checks.{OnStart, IsReady, main_until_fork-IsReady}

abbrev counting : Options
counting = record defaults {
  remote_socket_path = wide "/mnt/c/agent.sock";
  pid_file_path = wide "/run/helper.pid";
  background_running = true;
  refcount_flag = true;
}

parse_command_line-arguments_of_example :
    parse_command_line (arguments_of counting) defaults ≡ some counting
parse_command_line-arguments_of_example = parse_command_line-arguments_of counting

abbrev command : List Text
command =
    wide "helper" ∷ wide "-r" ∷ wide "/mnt/c/agent.sock" ∷ wide "-l" ∷ wide "/tmp/agent.sock" ∷ []

command_is_accepted :
    OnStart
      (IsReady (some (wide "/tmp/a")) [] (λ a. true))
      (main_until_fork (some (wide "/tmp/a")) [] (λ a. true) command)
command_is_accepted = main_until_fork-IsReady (some (wide "/tmp/a")) [] (λ a. true) command
