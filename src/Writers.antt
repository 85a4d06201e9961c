-- ===== src/Writers.antt =====
-- saced/SaceWriter.cpp: what a socket writer gives to `sendmsg`, and the binder writer, through
-- which the thread of a call waits for its result.
use service_excutor.Prelude.{ℕ, zero, suc, List, [], ◌∷◌, ◌++◌, Option, none, some}
use service_excutor.Types.{
  SaceResult, SaceStatusResponse, result_type_none, result_type_fd, result_type_extra,
  result_type_label,
}
use service_excutor.Wire.Parcel.{Item, Parcel}
use service_excutor.Wire.Result.{write_result, write_response}

-- The bytes as a parcel's writes, and the descriptor in the control message.
pub record Packet : Type 0 where
  pub items : List Item
  pub control : Option ℕ

module _ {P : Type 0} (y : Parcel P) where
  -- `SaceSocketWriter::sendResult`. The kernel refuses a descriptor of -1, and nothing is sent.
  unfoldable pub result_packet : SaceResult → Option Packet
  result_packet r = elim r.result_type [
    | result_type_fd ↦ elim r.result_fd [
      | none ↦ none
      | some fd ↦ some (record { items = write_result y r; control = some fd })
    ]
    | result_type_none ↦ some (record { items = write_result y r; control = none })
    | result_type_extra ↦ some (record { items = write_result y r; control = none })
    | result_type_label ↦ some (record { items = write_result y r; control = none })
  ]

  -- `SaceSocketWriter::sendResponse`
  unfoldable pub response_packet : SaceStatusResponse → Packet
  response_packet r = record { items = write_response y r; control = none }

-- `listener` is none where it is null; `told` is what its `onResponsed` was called with.
pub record SaceBinderWriter : Type 0 where
  pub listener : Option ℕ
  pub result : SaceResult
  pub sync_sem : ℕ
  pub told : List SaceStatusResponse

unfoldable pub new_binder_writer : Option ℕ → SaceResult → SaceBinderWriter
new_binder_writer listener result = record {
  listener = listener;
  result = result;
  sync_sem = 0;
  told = [];
}

unfoldable pub send_result : SaceResult → SaceBinderWriter → SaceBinderWriter
send_result r w = record w { result = r; sync_sem = suc w.sync_sem }

unfoldable pub send_response : SaceStatusResponse → SaceBinderWriter → SaceBinderWriter
send_response r w = elim w.listener [ none ↦ w | some l ↦ record w { told = w.told ++ r ∷ [] } ]

-- None while the semaphore is zero: the call waits.
unfoldable pub wait_result : SaceBinderWriter → Option (SaceResult × SaceBinderWriter)
wait_result w = elim w.sync_sem [ zero ↦ none | suc n ↦ some (w.result, record w { sync_sem = n }) ]
