-- ===== src/Tests/Program.antt =====
-- Tests of whole invocations.
use btwattch2_rs.Prelude.{ℕ, ◌≡◌, refl, true, false, [], ◌∷◌, none, some, ok, err}
use btwattch2_rs.Prelude.Decimal.{decimal}
use btwattch2_rs.Prelude.Text.{codes, eq_text}
use btwattch2_rs.Agent.Protocol.{command_result}
use btwattch2_rs.Cli.Names.{validate_prefix}
use btwattch2_rs.Cli.Options.{
  Cli, explicit_addr, validate_mode_prefix, scan_mode, mode, effective_log_level,
}
use btwattch2_rs.Cli.Settings.{default_settings, adapter_index}
use btwattch2_rs.Connection.Scan.{scan, is_watt_checker}
use btwattch2_rs.Agent.Client.{request}
use btwattch2_rs.Main.{run_cli}
use btwattch2_rs.Main.Session.Direct.{survives}
use btwattch2_rs.Main.Program.{Surroundings, Program, program}
use btwattch2_rs.Main.Report.{print_scan}
use btwattch2_rs.Main.Session.{run_via_daemon}
use btwattch2_rs.Output.Printer.{out, diagnostic}
use btwattch2_rs.Tests.Radio.{radio, steady}
use btwattch2_rs.Tests.Startup.{power_on, at_x}
use btwattch2_rs.Tests.World.{calendar, new_year, texts, whole_numbers}

abbrev here : Surroundings texts whole_numbers calendar radio steady ℕ ℕ
here = record {
  host = 0;
  peripheral = λ d. d;
  bd_addr = λ a. 1;
  probe = some at_x;
  agent = λ request. some (command_result 0) ∷ [];
  serve = λ config. err 0;
  socket = codes "a.sock";
  pid = some 42;
  now = new_year;
  clock = λ n. n;
  expires = false;
  scan_rounds = λ window. 1;
  find_rounds = 1;
  wait_rounds = 1;
  turns = [];
  fate = survives none;
}

abbrev invoke :
    Cli texts calendar
    → Program texts whole_numbers calendar
        (λ entries. err [])
        radio
        steady
        eq_text
        (λ a. a)
        decimal
        here
invoke cli =
    program texts whole_numbers calendar (λ entries. err []) radio steady eq_text (λ a. a) decimal
      here (ok (default_settings texts)) cli

test_power_on : invoke power_on ≡ (ok tt, diagnostic (codes "[INFO] Power on succeeded") ∷ [])
unfolding program validate_mode_prefix validate_prefix scan_mode explicit_addr mode run_cli
    run_via_daemon request effective_log_level
test_power_on = refl

test_scan : invoke (record power_on { on = false; scan = true }) ≡ (
  ok tt,
  out (codes "1\tbtwattch2_1\trssi=5")
      ∷ diagnostic (codes "[INFO] 1 other device(s) hidden; use --scan-all to list them")
      ∷ [],
)
unfolding program validate_mode_prefix validate_prefix scan_mode mode scan print_scan
    is_watt_checker run_cli adapter_index effective_log_level
test_scan = refl
