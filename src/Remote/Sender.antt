-- ===== src/Remote/Sender.antt =====
-- Class `SaceBinderSender` of libsace/SaceSender.h and libsace/SaceSender.cpp. The manager of a null
-- binder is none: a call through it is undefined.
use service_excutor.Prelude.{
  ℕ, Bool, true, false, List, [], ◌∷◌, Option, none, some, if◌then◌else◌, ◌>>=◌,
}
use service_excutor.Types.{
  SaceCommand, SaceResult, SaceStatusResponse, new_result, result_type_none, result_status_fail,
}
use service_excutor.Remote.Binder.{ISaceManager}

-- Whether `manager` and `listener` are set, and `mRlt`.
pub record BinderSender : Type 0 where
  pub manager : Bool
  pub listener : Bool
  pub result : SaceResult

abbrev pub new_sender : BinderSender
new_sender = record { manager = false; listener = false; result = new_result }

-- `SaceListenerService::onResponsed`, which is `onCommandResponse` of the sender.
unfoldable pub on_command_response :
    {S : Type 0} → Option (SaceStatusResponse → S → S) → SaceStatusResponse → S → S
on_command_response none r s = s
on_command_response (some callback) r s = callback r s

-- `service` is the manager that `getService` finds, and `allocated` the listener that `new` gave.
module _ {S : Type 0} (service : Option (ISaceManager S)) (allocated : Option ℕ) where
  unfoldable pub init : BinderSender → S → Option (Bool × BinderSender × S)
  init x s = elim allocated [
    | none ↦ some (false, record x { manager = true }, s)
    | some l ↦ service >>= λ m. m.register_listener (some l) s >>= λ t.
        some (true, record x { manager = true; listener = true }, t)
  ]

  unfoldable pub forward : SaceCommand → BinderSender → S → Option (SaceResult × BinderSender × S)
  forward c x s = service >>= λ m. m.send_command c s >>= λ (r, t). some (r, x, t)

  unfoldable pub failing : BinderSender → BinderSender
  failing x = record x {
    result = record (x.result) {
      result_type = result_type_none;
      result_status = result_status_fail;
    };
  }

  unfoldable pub excute_command :
      SaceCommand → BinderSender → S → Option (SaceResult × BinderSender × S)
  unfolding failing
  excute_command c x s =
      if x.manager
      then forward c (failing x) s
      else (init (failing x) s >>= λ (set, z, t).
          if set then forward c z t else some (z.result, z, t))

  -- `~SaceBinderSender`
  unfoldable pub uninit : BinderSender → S → Option S
  uninit x s = if x.manager then (service >>= λ m. m.unregister_listener s) else some s

  unfoldable pub excute_commands :
      List SaceCommand → BinderSender → S → Option (List SaceResult × BinderSender × S)
  excute_commands [] x s = some ([], x, s)
  excute_commands (c ∷ cs) x s = excute_command c x s >>= λ (r, z, t).
      excute_commands cs z t >>= λ (rs, w, u). some (r ∷ rs, w, u)

  -- A sender from its constructor to its destructor.
  unfoldable pub session : List SaceCommand → S → Option (List SaceResult × S)
  session cs s = excute_commands cs new_sender s >>= λ (rs, x, t). uninit x t >>= λ u. some (rs, u)

-- The commands as calls of the manager.
unfoldable pub send_all :
    {S : Type 0} → ISaceManager S → List SaceCommand → S → Option (List SaceResult × S)
send_all m [] s = some ([], s)
send_all m (c ∷ cs) s =
    m.send_command c s >>= λ (r, t). send_all m cs t >>= λ (rs, u). some (r ∷ rs, u)
