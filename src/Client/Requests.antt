-- ===== src/Client/Requests.antt =====
-- `SaceManager`: what a client asks of the daemon. A result is undefined where the sender is, or
-- where the extra field does not have the bytes that are copied from it.
use service_excutor.Prelude.{
  ℕ, Bool, true, false, [], ◌∷◌, Option, none, some, Text, if◌then◌else◌, ◌>>=◌,
}
use service_excutor.Types.{
  SaceResult, SaceCommandParams, SaceEventParams, Params, event_params, Payload, ResultType,
  result_type_none, result_type_fd, result_type_extra, result_type_label, normal_payload,
  normal_cmd_start, cmd_flag_in, cmd_flag_out, service_payload, service_cmd_info, service_cmd_start,
  service_flag_normal, event_payload, event_type_add, event_type_del, event_type_info,
  event_flag_none,
}
use service_excutor.Service.Handlers.{service_get_by_name}
use service_excutor.Client.Calls.{CommandSender, send, copied_info, copied_label}
use service_excutor.Client.Objects.{
  ServiceObj, err_not_exists, err_unknown, failed_service, new_service_obj, failed_command,
  new_command_obj, is_ok,
}
use service_excutor.Client.Manager.{
  SaceManager, Defaults, cmd_param, service_param, set_params, add_service_obj, add_command_obj,
  register_service, register_command,
}

unfoldable pub is_fd : ResultType → Bool
is_fd result_type_fd = true
is_fd result_type_none = false
is_fd result_type_extra = false
is_fd result_type_label = false

unfoldable pub is_label : ResultType → Bool
is_label result_type_label = true
is_label result_type_fd = false
is_label result_type_none = false
is_label result_type_extra = false

module _ {S : Type 0} (x : CommandSender S) (d : Defaults) where
  -- The command's object after the daemon answered.
  unfoldable pub command_started :
      Text → Bool → SaceResult → SaceManager S → Option (ℕ × SaceManager S)
  command_started cmd reads r m =
      if is_ok r.result_status
      then if is_fd r.result_type
        then (copied_label r.result_extra >>= λ label.
            some (register_command label (new_command_obj label cmd r.result_fd reads) m))
        else some (add_command_obj (failed_command err_unknown) m)
      else some (add_command_obj (failed_command err_unknown) m)

  unfoldable pub run_command :
      Text → Option SaceCommandParams → Bool → SaceManager S → Option (ℕ × SaceManager S)
  run_command cmd param reads m =
      send x
        (λ c. record c {
          command = cmd;
          params = set_params (cmd_param d) param;
          payload = normal_payload normal_cmd_start (if reads then cmd_flag_in else cmd_flag_out);
        })
        m.sender
      >>= λ (r, t). command_started cmd reads r (record m { sender = t })

  -- A query by name, with the type and the flags of its kind.
  unfoldable pub query : Payload → Text → S → Option (Option ServiceObj × S)
  query kind name s =
      send x (λ c. record c { name = name; command = service_get_by_name; payload = kind }) s
      >>= λ (r, t).
          if is_ok r.result_status
          then (copied_info r.result_extra >>= λ info.
              some (some (new_service_obj info.label info.name info.cmd), t))
          else some (none, t)

  unfoldable pub query_service : Text → S → Option (Option ServiceObj × S)
  query_service = query (service_payload service_cmd_info service_flag_normal)

  unfoldable pub query_event_service : Text → S → Option (Option ServiceObj × S)
  query_event_service = query (event_payload event_type_info event_flag_none)

  -- The service's object after the daemon answered a start.
  unfoldable pub service_started :
      Text → Text → SaceResult → SaceManager S → Option (ℕ × SaceManager S)
  service_started name cmd r m =
      if is_ok r.result_status
      then if is_label r.result_type
        then (copied_label r.result_extra >>= λ label.
            some (register_service label (new_service_obj label name cmd) m))
        else some (add_service_obj (failed_service err_unknown) m)
      else some (add_service_obj (failed_service err_unknown) m)

  unfoldable pub start_service :
      Text → Option Text → Option SaceCommandParams → SaceManager S → Option (ℕ × SaceManager S)
  start_service name none param m = some (add_service_obj (failed_service err_not_exists) m)
  start_service name (some cmd) param m =
      send x
        (λ c. record c {
          name = name;
          command = cmd;
          params = set_params (service_param d) param;
          payload = service_payload service_cmd_start service_flag_normal;
        })
        m.sender
      >>= λ (r, t). service_started name cmd r (record m { sender = t })

  -- The object of a service that a query found. Its label is there, since the query sets it.
  unfoldable pub take_found : ServiceObj → SaceManager S → Option (ℕ × SaceManager S)
  take_found o m = o.label >>= λ label. some (register_service label o m)

  unfoldable pub check_service :
      Text → Option Text → Option SaceCommandParams → SaceManager S → Option (ℕ × SaceManager S)
  check_service name cmd param m = query_service name m.sender >>= λ (found, s). elim found [
    | some o ↦ take_found o (record m { sender = s })
    | none ↦ query_event_service name s >>= λ (event, t). elim event [
      | some o ↦ take_found o (record m { sender = t })
      | none ↦ start_service name cmd param (record m { sender = t })
    ]
  ]

  unfoldable pub given_or : Params → Option SaceEventParams → Params
  given_or default none = default
  given_or default (some p) = event_params p

  -- Whether the daemon did it.
  unfoldable pub add_event :
      Text → Text → Option SaceEventParams → SaceManager S → Option (Bool × SaceManager S)
  add_event name cmd param m =
      send x
        (λ c. record c {
          name = name;
          command = cmd;
          params = some (given_or (service_param d) param);
          payload = event_payload event_type_add event_flag_none;
        })
        m.sender
      >>= λ (r, t). some (is_ok r.result_status, record m { sender = t })

  unfoldable pub delete_event : Text → Bool → SaceManager S → Option (Bool × SaceManager S)
  delete_event name stop m =
      send x
        (λ c. record c {
          name = name;
          extra = (if stop then 1 else 0) ∷ [];
          payload = event_payload event_type_del event_flag_none;
        })
        m.sender
      >>= λ (r, t). some (is_ok r.result_status, record m { sender = t })
