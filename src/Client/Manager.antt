-- ===== src/Client/Manager.antt =====
-- `SaceManager`: the objects that a client was given, by address, and the two indexes by label.
use service_excutor.Prelude.{
  ℕ, zero, suc, Bool, true, false, List, [], ◌∷◌, ◌++◌, Option, none, some, Text, codes, Map,
  lookup, insert, erase, store, nat_key, if◌then◌else◌, ◌>>=◌,
}
use service_excutor.Types.{
  SaceCommandParams, Params, command_params, event_params, ResponseStatus, response_status_exit,
  response_status_signal, response_status_user, response_status_unknown, SaceStatusResponse,
  response_type_normal, response_type_service,
}
use service_excutor.Client.Objects.{
  ErrorCode, err_exit, err_exit_user, err_unknown, ServiceObj, CommandObj,
}

-- What the callback is told: the object, its command line and the label, with the name of a
-- service, whose state is always given as finished.
pub data Told : Type 0 where
  service_told : ℕ → Text → Text → ℕ → Told
  command_told : ℕ → Text → ℕ → Told

-- `next` is the address of the next object; `callback` is whether there is one.
pub record SaceManager (S : Type 0) : Type 0 where
  pub services : Map ℕ ℕ
  pub commands : Map ℕ ℕ
  pub service_objs : Map ℕ ServiceObj
  pub command_objs : Map ℕ CommandObj
  pub next : ℕ
  pub callback : Bool
  pub told : List Told
  pub sender : S

-- The platform's numbers of root and system as texts, and how many capabilities a set has.
pub record Defaults : Type 0 where
  pub cap_count : ℕ
  pub aid_root : Text
  pub aid_system : Text

unfoldable pub no_capabilities : ℕ → List Bool
no_capabilities zero = []
no_capabilities (suc n) = false ∷ no_capabilities n

unfoldable pub identity : ℕ → Text → Text → SaceCommandParams
identity cap_count id label = record {
  uid = id;
  gid = id;
  supp_gids = [];
  rlimits = [];
  seclabel = label;
  capabilities = no_capabilities cap_count;
}

unfoldable pub cmd_param : Defaults → Params
cmd_param d = command_params (identity d.cap_count d.aid_root (codes "u:r:su:s0"))

-- `service_param` and `event_param`, which are both of the class for events.
unfoldable pub service_param : Defaults → Params
service_param d = event_params (record {
  base = identity d.cap_count d.aid_system (codes "u:r:system_server:s0");
  property_key = [];
  property_value = [];
  boot = true;
})

unfoldable pub new_manager : {S : Type 0} → S → SaceManager S
new_manager s = record {
  services = [];
  commands = [];
  service_objs = [];
  command_objs = [];
  next = 1;
  callback = false;
  told = [];
  sender = s;
}

-- `if (!param) mCmd.command_params = …`: parameters that are given are not set.
unfoldable pub set_params : Params → Option SaceCommandParams → Option Params
set_params default none = some default
set_params default (some p) = none

unfoldable pub status_to_error : ResponseStatus → ErrorCode
status_to_error response_status_exit = err_exit
status_to_error response_status_signal = err_exit
status_to_error response_status_user = err_exit_user
status_to_error response_status_unknown = err_unknown

module _ {S : Type 0} where
  -- A service's object at a new address.
  unfoldable pub add_service_obj : ServiceObj → SaceManager S → ℕ × SaceManager S
  add_service_obj o m =
      (m.next, record m { service_objs = insert m.next o m.service_objs; next = suc m.next })

  unfoldable pub add_command_obj : CommandObj → SaceManager S → ℕ × SaceManager S
  add_command_obj o m =
      (m.next, record m { command_objs = insert m.next o m.command_objs; next = suc m.next })

  -- `mServices.insert`, which keeps an object that has the label already.
  unfoldable pub register_service : ℕ → ServiceObj → SaceManager S → ℕ × SaceManager S
  register_service label o m =
      let (a, t) = add_service_obj o m in (a, record t { services = insert label a t.services })

  unfoldable pub register_command : ℕ → CommandObj → SaceManager S → ℕ × SaceManager S
  register_command label o m =
      let (a, t) = add_command_obj o m in (a, record t { commands = insert label a t.commands })

  unfoldable pub tell : Told → SaceManager S → SaceManager S
  tell e m = if m.callback then record m { told = m.told ++ e ∷ [] } else m

  unfoldable pub service_response : ℕ → ErrorCode → SaceManager S → Option (SaceManager S)
  service_response label code m = elim (lookup label m.services) [
    | none ↦ some m
    | some a ↦ lookup a m.service_objs >>= λ o. some (
        tell (service_told a o.name o.command label) (record m {
          services = erase label m.services;
          service_objs = store a (record o { error = code }) m.service_objs;
        }))
  ]

  unfoldable pub command_response : ℕ → ErrorCode → SaceManager S → Option (SaceManager S)
  command_response label code m = elim (lookup label m.commands) [
    | none ↦ some m
    | some a ↦ lookup a m.command_objs >>= λ o. some (
        tell (command_told a o.cmd label) (record m {
          commands = erase label m.commands;
          command_objs = store a (record o { error = code }) m.command_objs;
        }))
  ]

  -- `onResponse`; an index that names no object is not met and would be undefined.
  unfoldable pub on_response : SaceStatusResponse → SaceManager S → Option (SaceManager S)
  on_response r m = elim r.type [
    | response_type_service ↦ service_response r.label (status_to_error r.status) m
    | response_type_normal ↦ command_response r.label (status_to_error r.status) m
  ]
