-- ===== src/Tests/Places.antt =====
-- Where the files of the command line are.
use btwattch2_rs.Prelude.{◌≡◌, ◌↔◌, refl, arith, if◌then◌else◌, ◌++◌, Option, none, some}
use btwattch2_rs.Prelude.Text.{Text, codes, eq_text}
use btwattch2_rs.Prelude.FilePath.{join, with_extension}
use btwattch2_rs.Agent.Paths.{default_paths}
use btwattch2_rs.Cli.Settings.{Settings, default_settings}
use btwattch2_rs.Cli.Options.Places.{agent_paths, agent_paths-pid, default_config_path}
use btwattch2_rs.Tests.Startup.{power_on}
use btwattch2_rs.Tests.World.{calendar, texts}

abbrev no_variables : Text → Option Text
no_variables name = none

abbrev at_home : Text → Option Text
at_home name = if eq_text name (codes "HOME") then some (codes "/home/a") else none

test_default_paths : (default_paths no_variables).pid ≡ codes "/run/btwattch2/btwattch2.pid"
unfolding default_paths join with_extension
test_default_paths = refl

test_config_path :
    default_config_path at_home ≡ some (codes "/home/a/.config/btwattch2/config.toml")
unfolding default_config_path join
test_config_path = refl

abbrev socket_named_pid : Settings texts
socket_named_pid = record (default_settings texts) { socket = some (codes "/run/x.pid") }

agent_paths-pid_example :
    let paths = agent_paths texts calendar no_variables power_on socket_named_pid in
    (paths.socket ≡ codes "/run/" ++ codes "x.pid")
    × (paths.pid ≡ (codes "/run/" ++ codes "x") ++ codes ".pid")
    × ((paths.pid ≡ paths.socket) ↔ (codes "pid" ≡ codes "pid"))
agent_paths-pid_example =
    agent_paths-pid texts calendar no_variables power_on socket_named_pid (codes "/run/") b'x'
      (codes "pid") refl refl (omega arith) (omega arith) (λ e. cc)
