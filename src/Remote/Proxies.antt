-- ===== src/Remote/Proxies.antt =====
-- `BpSaceManager` of libsace/ISaceManager.cpp and `BpSaceListener` of libsace/ISaceListener.cpp:
-- what a call writes, and how its reply is read. `policy` is what the token says of the thread.
use service_excutor.Prelude.{ℕ, List, [], ◌∷◌, ◌++◌, Option, none, some, ◌>>=◌}
use service_excutor.Types.{SaceCommand, SaceResult, SaceStatusResponse}
use service_excutor.Wire.Parcel.{
  Item, uint32, byte, uint64, utf8, bytes, bool, utf8_vector, file_descriptor, interface_token,
  strong_binder, Parcel, write_size,
}
use service_excutor.Wire.Command.{command_items}
use service_excutor.Wire.Result.{response_items, read_result}
use service_excutor.Remote.Binder.{
  ISaceManager, Status, Binder, manager_descriptor, listener_descriptor, transact_sendcommand,
  transact_registerlistener, transact_unregisterlistener,
}

-- A transaction by its code and the writes of its parcel: the status and the writes of the reply.
abbrev pub Remote : Type 0 → Type 0
Remote S = ℕ → List Item → S → Option (Status × List Item × S)

-- The descriptors that a reply brought, which its parcel closes when it goes.
unfoldable pub owned_fds : List Item → List ℕ
owned_fds [] = []
owned_fds (file_descriptor (some n) ∷ is) = n ∷ owned_fds is
owned_fds (file_descriptor none ∷ is) = owned_fds is
owned_fds (uint32 n ∷ is) = owned_fds is
owned_fds (byte n ∷ is) = owned_fds is
owned_fds (uint64 n ∷ is) = owned_fds is
owned_fds (utf8 s ∷ is) = owned_fds is
owned_fds (bytes b ∷ is) = owned_fds is
owned_fds (bool b ∷ is) = owned_fds is
owned_fds (utf8_vector ss ∷ is) = owned_fds is
owned_fds (interface_token n d ∷ is) = owned_fds is
owned_fds (strong_binder l ∷ is) = owned_fds is

-- The state behind the proxy, and the descriptors that the client's process has closed.
abbrev pub Side : Type 0 → Type 0
Side S = S × List ℕ

module _ {P : Type 0} (y : Parcel P) (policy : ℕ) where
  -- The size goes to the start of the parcel, which is the token.
  unfoldable pub send_command_items : SaceCommand → List Item
  send_command_items c =
      write_size y (interface_token policy manager_descriptor ∷ uint32 1 ∷ command_items c)

  unfoldable pub register_listener_items : Option ℕ → List Item
  register_listener_items l = interface_token policy manager_descriptor ∷ strong_binder l ∷ []

  unfoldable pub unregister_listener_items : List Item
  unregister_listener_items = interface_token policy manager_descriptor ∷ []

  -- `BpSaceListener::onResponsed`
  unfoldable pub on_responsed_items : SaceStatusResponse → List Item
  on_responsed_items r =
      write_size y (uint32 1 ∷ interface_token policy listener_descriptor ∷ response_items r)

  module _ {S : Type 0} (b : Binder P) (remote : Remote S) where
    -- The result keeps the number of a descriptor that is closed with `reply` at the end.
    unfoldable pub call_send_command : SaceCommand → Side S → Option (SaceResult × Side S)
    call_send_command c (s, closed) =
        remote (transact_sendcommand b) (send_command_items c) s >>= λ (st, reply, t).
        read_result y (y.holding reply) >>= λ (len, r, p). some (r, (t, closed ++ owned_fds reply))

    unfoldable pub call_register_listener : Option ℕ → Side S → Option (Side S)
    call_register_listener l (s, closed) =
        remote (transact_registerlistener b) (register_listener_items l) s >>= λ (st, reply, t).
        some (t, closed)

    unfoldable pub call_unregister_listener : Side S → Option (Side S)
    call_unregister_listener (s, closed) =
        remote (transact_unregisterlistener b) unregister_listener_items s >>= λ (st, reply, t).
        some (t, closed)

    -- `BpSaceManager`
    unfoldable pub proxy : ISaceManager (Side S)
    proxy = record {
      send_command = call_send_command;
      register_listener = call_register_listener;
      unregister_listener = call_unregister_listener;
    }
