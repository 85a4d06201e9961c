-- ===== src/Remote/Binder.antt =====
-- libsace/ISaceManager.h and libsace/ISaceListener.h: the interfaces, their names and codes, and
-- what the stubs use of Binder beyond the parcel.
use service_excutor.Prelude.{ℕ, ◌+◌, ◌≡◌, Bool, true, List, ◌∷◌, Option, Text, codes}
use service_excutor.Types.{SaceCommand, SaceResult}
use service_excutor.Wire.Parcel.{Item, interface_token, strong_binder, Parcel}

-- `ISaceManager`, over the state behind it. A listener is its number, or null; none is where a
-- call is undefined.
pub record ISaceManager (S : Type 0) : Type 0 where
  pub send_command : SaceCommand → S → Option (SaceResult × S)
  pub register_listener : Option ℕ → S → Option S
  pub unregister_listener : S → Option S

abbrev pub manager_descriptor : Text
manager_descriptor = codes "android.sace.ISaceManager"

abbrev pub listener_descriptor : Text
listener_descriptor = codes "android.sace.SaceListener"

-- `status_t`
pub data Status : Type 0 where
  no_error permission_denied : Status
  other_status : ℕ → Status

-- `base_transact` is `BBinder::onTransact`: a status and what it writes to the reply.
pub record Binder (P : Type 0) : Type 0 where
  pub first_call_transaction : ℕ
  pub check_interface : Text → P → Bool × P
  pub read_strong_binder : P → Option ℕ × P
  pub base_transact : ℕ → P → Status × List Item

-- The check reads a token and compares its name.
pub record IsBinder {P : Type 0} (y : Parcel P) (b : Binder P) : Type 0 where
  pub checks :
      (n : ℕ) (d : Text) (r : List Item)
      → b.check_interface d (y.holding (interface_token n d ∷ r)) ≡ (true, y.holding r)
  pub reads_strong_binder :
      (l : Option ℕ) (r : List Item)
      → b.read_strong_binder (y.holding (strong_binder l ∷ r)) ≡ (l, y.holding r)

module _ {P : Type 0} (b : Binder P) where
  unfoldable pub transact_sendcommand : ℕ
  transact_sendcommand = b.first_call_transaction

  unfoldable pub transact_registerlistener : ℕ
  unfolding transact_sendcommand
  transact_registerlistener = transact_sendcommand + 1

  unfoldable pub transact_unregisterlistener : ℕ
  unfolding transact_registerlistener
  transact_unregisterlistener = transact_registerlistener + 1

  unfoldable pub transaction_onresponsed : ℕ
  transaction_onresponsed = b.first_call_transaction
