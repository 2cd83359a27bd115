-- ===== src/Transport/Tests.antt =====
-- Runs of internal/transport, and the theorems at concrete inputs.
use anix_ops_sd_wan.Base.{
  ◌+◌, ◌≤◌, pos, pos_part, Text, str, ◌==◌, Float64, true, false, ◌≡◌, refl, ◌⊎◌, Option, none,
  some, List, [], ◌∷◌, ok, err,
}
use anix_ops_sd_wan.Base.Table.{lookup}
use anix_ops_sd_wan.Transport.{
  Signals, hysteria, reality, link_dedicated, known_protocol, fallbacks_of, selection, is_proven,
  apply_handshake_fallback, link_selection, select, validate_signals, signals_from_probe_results,
  ProbeResult,
}
use anix_ops_sd_wan.Transport.Choice.{IsChosen, select-IsChosen}
use anix_ops_sd_wan.Transport.Switching.{
  SwitchRuntime, SwitchReport, evaluate, is_cooling, reported, evaluate_switches,
}
use anix_ops_sd_wan.Transport.Lifecycle.{
  ProcessCommand, ProtocolLifecycleSpec, Supervisor, Outside, lifecycle_process, failed, activate,
  stop,
}
use anix_ops_sd_wan.Transport.Lifecycle.Supervision.{
  IsRunning, IsSettled, activate-IsSettled, stop-half,
}

abbrev plain_percent : Float64 → Text
plain_percent rate = str "20"

-- 0.2 and 0.75 as float64.
abbrev dedicated : Signals
dedicated = record {
  link_class = link_dedicated;
  udp_available = true;
  qos_risk = false;
  dpi_risk = false;
  rtt_millis = pos 20;
  packet_loss_permil = pos 0;
  jitter_millis = pos 0;
  handshake_success =
      (str "native-wireguard", 0x3FC999999999999A) ∷ (str "reality", 0x3FE8000000000000) ∷ [];
}

dedicated-valid : validate_signals dedicated ≡ ok tt
unfolding validate_signals known_protocol ◌==◌
dedicated-valid = refl

dedicated-select : (select plain_percent dedicated).protocol ≡ reality
unfolding select link_selection apply_handshake_fallback selection is_proven fallbacks_of
    validate_signals known_protocol lookup ◌==◌
dedicated-select = refl

abbrev one_lost : List ProbeResult
one_lost =
    record { network = str "udp4"; success = true; rtt_millis = 30 }
    ∷ record { network = str "tcp"; success = false; rtt_millis = 0 }
    ∷ []

one_lost-signals : (signals_from_probe_results [] one_lost).packet_loss_permil ≡ pos 500
unfolding signals_from_probe_results
one_lost-signals = refl

select-IsChosen_example :
    IsChosen plain_percent dedicated
      (link_selection plain_percent dedicated).protocol
      (select plain_percent dedicated).protocol
select-IsChosen_example = select-IsChosen plain_percent dedicated dedicated-valid

abbrev switcher : SwitchRuntime
switcher = record { active = hysteria; cooldown = pos 30; last_switch = 100 }

abbrev always : Text → Option Text
always p = none

evaluate_switches_example :
    ((evaluate plain_percent switcher 200 dedicated (some always) none).0 ≡ switcher)
    ⊎ ((validate_signals dedicated ≡ ok tt)
        × (always (select plain_percent dedicated).protocol ≡ none)
        × ((switcher.last_switch ≡ 0)
            ⊎ ((pos_part switcher.cooldown ≡ 0)
                ⊎ (switcher.last_switch + pos_part switcher.cooldown ≤ 200)))
        × ((evaluate plain_percent switcher 200 dedicated (some always) none).0 ≡ record switcher {
          active = (select plain_percent dedicated).protocol;
          last_switch = 200;
        }))
evaluate_switches_example = evaluate_switches plain_percent switcher 200 dedicated always none

abbrev switch_report : SwitchReport
switch_report = record {
  previous = hysteria;
  selected = hysteria;
  applied = false;
  suppressed = true;
  rolled_back = false;
  reason = str "switch cooldown active";
  error = [];
  signals = dedicated;
  evaluated_at = 110;
}

switcher-evaluate :
    (evaluate plain_percent switcher 110 dedicated (some always) none).1
    ≡ reported switch_report none
unfolding evaluate is_cooling select link_selection apply_handshake_fallback selection is_proven
    fallbacks_of validate_signals known_protocol lookup ◌==◌
switcher-evaluate = refl

abbrev command_named : Text → ProcessCommand
command_named name = record { name = name; args = [] }

abbrev reality_spec : ProtocolLifecycleSpec
reality_spec = record {
  protocol = reality;
  mode = lifecycle_process;
  start = command_named (str "xray");
  stop = command_named (str "xray-clean");
}

abbrev supervisor : Supervisor
supervisor = record {
  specs = (str "reality", reality_spec) ∷ [];
  active = reality;
  active_set = true;
  process = some 7;
  calls = 3;
}

-- Processes start and stop, and every command fails.
abbrev broken_commands : Outside
broken_commands = record {
  run = λ n command. some (str "exit status 1");
  start = λ n command. ok (some n);
  stop = λ n process. none;
}

activate-IsSettled_example :
    IsSettled broken_commands hysteria supervisor (activate broken_commands supervisor hysteria)
activate-IsSettled_example = activate-IsSettled broken_commands supervisor hysteria

stop-half_example :
    ((stop broken_commands supervisor).1 ≡ err (failed (str "exit status 1")))
    × IsRunning reality (stop broken_commands supervisor).0
    × (activate broken_commands (stop broken_commands supervisor).0 reality
        ≡ ((stop broken_commands supervisor).0, ok tt))
stop-half_example =
    stop-half broken_commands supervisor 7 reality_spec (str "exit status 1") refl refl refl
      (unfold lookup ◌==◌ in refl) (unfold ◌==◌ in refl) refl
