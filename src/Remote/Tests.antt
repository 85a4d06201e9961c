-- ===== src/Remote/Tests.antt =====
-- A Binder whose parcels are the lists of their writes, and instances of the theorems over it.
use service_excutor.Prelude.{
  ℕ, ◌+◌, ◌≡◌, refl, Bool, false, List, [], ◌∷◌, Option, none, some, Text, codes, text_eqb,
  text_key, ap, arith, subst, nat_key, lookup,
}
use service_excutor.Types.{
  SaceCommand, SaceResult, SaceReaderMessage, new_result, result_type_fd, payload_type,
}
use service_excutor.Wire.Parcel.{Item, interface_token, strong_binder}
use service_excutor.Wire.Command.{for_event, is_named}
use service_excutor.Wire.Codes.{event_type_named, event_flag_named}
use service_excutor.Wire.Result.{with_fd}
use service_excutor.Wire.Listed.{listed, listed-IsParcel, adding}
use service_excutor.Reader.Binder.{ManagerService, binder_message}
use service_excutor.Remote.Binder.{ISaceManager, Binder, IsBinder, other_status}
use service_excutor.Remote.Calls.{IsSendable, IsAnswer, over_binder, proxy-manager_on_transact}
use service_excutor.Remote.Sender.{session}
use service_excutor.Remote.Daemon.{remote_service, session-posted}

abbrev check : Text → List Item → Bool × List Item
check d (interface_token n e ∷ r) = (text_eqb e d, r)
check d r = (false, r)

abbrev reference : List Item → Option ℕ × List Item
reference (strong_binder l ∷ r) = (l, r)
reference r = (none, r)

abbrev plain : Binder (List Item)
plain = record {
  first_call_transaction = 1;
  check_interface = check;
  read_strong_binder = reference;
  base_transact = λ code p. (other_status code, []);
}

plain-IsBinder : IsBinder listed plain
plain-IsBinder = record {
  checks = λ n d r. ap (λ v. (v, r)) ((text_key.beq_iff d d).1 refl);
  reads_strong_binder = λ l r. refl;
}

-- A result with the descriptor 9 of the daemon.
abbrev answered : SaceResult
answered = record new_result {
  sequence = 65537;
  name = codes "boot_log";
  result_type = result_type_fd;
  result_fd = some 9;
}

answered-IsAnswer : IsAnswer listed answered
unfolding new_result
answered-IsAnswer = record {
  has_fd = with_fd;
  sequence_fits = omega arith;
  extra_fits = omega arith;
}

abbrev pass : ℕ → ℕ
pass n = n + 20

-- The same in the client, where it is closed.
abbrev arrived : SaceResult
arrived = record answered { result_fd = some 29 }

abbrev answer : SaceReaderMessage → SaceResult
answer m = answered

abbrev service : ManagerService
service = record { exit = false; pid_listener = (200, 4) ∷ []; posted = [] }

adding-IsSendable : IsSendable listed 3 adding
unfolding is_named event_type_named event_flag_named payload_type
adding-IsSendable = record {
  named = refl;
  fits = for_event refl;
  sequence_fits = omega arith;
  label_fits = omega arith;
  extra_fits = omega arith;
}

abbrev other : SaceCommand
other = record adding { sequence = 65538; name = codes "other" }

other-IsSendable : IsSendable listed 3 other
unfolding is_named event_type_named event_flag_named payload_type
other-IsSendable = record {
  named = refl;
  fits = for_event refl;
  sequence_fits = omega arith;
  label_fits = omega arith;
  extra_fits = omega arith;
}

-- A manager that keeps the commands it was sent.
abbrev keeping : ISaceManager (List SaceCommand)
keeping = record {
  send_command = λ c s. some (answered, c ∷ s);
  register_listener = λ l s. some s;
  unregister_listener = λ s. some [];
}

proxy-manager_on_transact_example :
    ((over_binder listed plain 3 64 other pass keeping).send_command adding ([], 5 ∷ [])
      ≡ some (arrived, (adding ∷ [], 5 ∷ 29 ∷ [])))
    × ((over_binder listed plain 3 64 other pass keeping).register_listener none ([], 5 ∷ [])
        ≡ some ([], 5 ∷ []))
    × ((over_binder listed plain 3 64 other pass keeping).unregister_listener ([], 5 ∷ [])
        ≡ some ([], 5 ∷ []))
proxy-manager_on_transact_example =
    proxy-manager_on_transact listed plain 3 64 other pass keeping adding none [] (5 ∷ [])
      listed-IsParcel plain-IsBinder (omega arith) adding-IsSendable
      (λ r t e. subst (IsAnswer listed) (ground (arith, e)) answered-IsAnswer)

session-posted_example :
    session
      (some (remote_service 300 answer listed plain 3 64 other pass))
      (some 5)
      (adding ∷ other ∷ [])
      (service, [])
    ≡ some (
      arrived ∷ arrived ∷ [],
      (
        record service { posted = binder_message 300 5 adding ∷ binder_message 300 5 other ∷ [] },
        29 ∷ 29 ∷ [],
      ),
    )
unfolding lookup
session-posted_example =
    session-posted 300 answer listed plain 3 64 other pass 5 adding (other ∷ []) service []
      listed-IsParcel plain-IsBinder (omega arith)
      ((adding-IsSendable, answered-IsAnswer), ((other-IsSendable, answered-IsAnswer), tt)) refl
      refl
