-- ===== src/Client/Lifetime.antt =====
-- A service that a client starts with `checkService`, from the object on.
use service_excutor.Prelude.{ℕ, Option, Text, nat_key, text_key}
use service_excutor.Types.{
  SaceCommand, SaceResult, SaceCommandParams, SaceWriter, service_payload, service_flag_normal,
  service_cmd_start,
}
use service_excutor.Service.State.{World}
use service_excutor.Client.Calls.{init_command}
use service_excutor.Client.Manager.{Defaults, service_param, set_params}
use service_excutor.Client.Daemon.{IsQuiet}

module _ (w : World) (wr : SaceWriter) (self : Text) (other : SaceCommand → SaceResult)
    (d : Defaults) (quiet : IsQuiet w) where
  abbrev pub start_command : Text → Text → Option SaceCommandParams → ℕ → SaceCommand
  start_command name cmd param n = record (init_command self n) {
    name = name;
    command = cmd;
    params = set_params (service_param d) param;
    payload = service_payload service_cmd_start service_flag_normal;
  }
