-- ===== src/Remote/Stubs.antt =====
-- `BnSaceManager::onTransact` of libsace/ISaceManager.cpp and `BnSaceListener::onTransact` of
-- libsace/ISaceListener.cpp.
use service_excutor.Prelude.{ℕ, List, [], Option, some, Text, nat_eqb, if◌then◌else◌, ◌>>=◌}
use service_excutor.Types.{SaceCommand, SaceStatusResponse, new_response}
use service_excutor.Wire.Parcel.{Item, Parcel}
use service_excutor.Wire.Command.{read_command}
use service_excutor.Wire.Result.{write_result, read_response}
use service_excutor.Remote.Binder.{
  ISaceManager, Status, no_error, permission_denied, Binder, manager_descriptor,
  listener_descriptor, transact_sendcommand, transact_registerlistener, transact_unregisterlistener,
  transaction_onresponsed,
}

-- A status, the writes of the reply, and the state after it.
abbrev pub Reply : Type 0 → Type 0
Reply S = Option (Status × List Item × S)

module _ {P S : Type 0} (y : Parcel P) (b : Binder P) where
  -- `CHECK_INTERFACE`
  unfoldable pub checked : Text → P → S → (P → Reply S) → Reply S
  checked d p s f =
      let (is, q) = b.check_interface d p in if is then f q else some (permission_denied, [], s)

  unfoldable pub to_base : ℕ → P → S → Reply S
  to_base code p s = let (st, reply) = b.base_transact code p in some (st, reply, s)

  module _ (cap_count : ℕ) (fresh : SaceCommand) (m : ISaceManager S) where
    -- The command of the call, which is as its constructor made it where the number is zero.
    unfoldable pub sent_command : P → Option SaceCommand
    sent_command p =
        let (given, q) = y.read_uint32 p in
        if nat_eqb given 0
        then some fresh
        else (read_command y cap_count q >>= λ (len, c, r). some c)

    unfoldable pub answer_command : S → P → Reply S
    answer_command s p = sent_command p >>= λ c.
        m.send_command c s >>= λ (r, t). some (no_error, write_result y r, t)

    unfoldable pub answer_register : S → P → Reply S
    answer_register s p =
        let (l, q) = b.read_strong_binder p in
        m.register_listener l s >>= λ t. some (no_error, [], t)

    unfoldable pub manager_on_transact : ℕ → P → S → Reply S
    manager_on_transact code p s =
        if nat_eqb code (transact_sendcommand b)
        then checked manager_descriptor p s (answer_command s)
        else if nat_eqb code (transact_registerlistener b)
        then checked manager_descriptor p s (answer_register s)
        else if nat_eqb code (transact_unregisterlistener b)
        then checked manager_descriptor p s
            (λ q. m.unregister_listener s >>= λ t. some (no_error, [], t))
        else to_base code p s

  module _ (on_responsed : SaceStatusResponse → S → S) where
    unfoldable pub sent_response : P → Option SaceStatusResponse
    unfolding new_response
    sent_response p =
        let (given, q) = y.read_uint32 p in
        if nat_eqb given 0 then some new_response else (read_response y q >>= λ (len, r, t). some r)

    unfoldable pub listener_on_transact : ℕ → P → S → Reply S
    listener_on_transact code p s =
        if nat_eqb code (transaction_onresponsed b)
        then checked listener_descriptor p s
            (λ q. sent_response q >>= λ r. some (no_error, [], on_responsed r s))
        else to_base code p s
