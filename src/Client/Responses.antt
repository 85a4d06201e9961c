-- ===== src/Client/Responses.antt =====
-- What a response does to the objects that a client holds.
use service_excutor.Prelude.{
  ℕ, ◌≡◌, refl, Bool, true, none, some, Map, lookup, insert, erase, store, has, has_of_lookup,
  lookup-insert, lookup-store, lookup-erase, nat_key, nat_eqb_iff, arith,
}
use service_excutor.Types.{
  SaceStatusResponse, ResponseStatus, response_status_exit, response_status_signal,
  response_status_user, response_status_unknown, response_type_service, ServiceCommandType,
  service_cmd_stop, service_cmd_pause, service_cmd_restart,
}
use service_excutor.Client.Calls.{CommandSender}
use service_excutor.Client.Objects.{
  remote_exception, Outcome, threw, terminated, ServiceObj, service_guard, control, stop, pause,
  restart,
}
use service_excutor.Client.Manager.{
  SaceManager, service_told, status_to_error, on_response, service_response, tell, register_service,
  add_service_obj,
}

-- How a call through the object of a service ends after the response.
unfoldable pub later_call : ResponseStatus → Outcome Bool
later_call response_status_exit = threw remote_exception
later_call response_status_signal = threw remote_exception
later_call response_status_unknown = threw remote_exception
later_call response_status_user = terminated

module _ {S : Type 0} (x : CommandSender S) where
  control-later_call :
      (k : ServiceCommandType) (o : ServiceObj) (st : ResponseStatus) (s : S)
      → control x k (record o { error = status_to_error st }) s ≡ some (later_call st, s)
  unfolding control service_guard status_to_error later_call
  control-later_call k o response_status_exit s = refl
  control-later_call k o response_status_signal s = refl
  control-later_call k o response_status_user s = refl
  control-later_call k o response_status_unknown s = refl

  -- The response for a service that the client holds: its object is taken from the index, and each
  -- later stop, pause and restart through it sends nothing; it throws, but after the end that the
  -- client asked for itself it ends the client's process.
  pub on_response-control :
      (r : SaceStatusResponse) (m : SaceManager S) (a : ℕ) (o : ServiceObj)
      → r.type ≡ response_type_service
      → lookup r.label m.services ≡ some a
      → lookup a m.service_objs ≡ some o
      → (t : SaceManager S) × (p : ServiceObj) × (on_response r m ≡ some t)
        × (lookup r.label t.services ≡ none)
        × (lookup a t.service_objs ≡ some p)
        × ((s : S)
            → (stop x p s ≡ some (later_call r.status, s))
              × (pause x p s ≡ some (later_call r.status, s))
              × (restart x p s ≡ some (later_call r.status, s)))
  unfolding on_response service_response tell stop pause restart
  on_response-control r m a o is at holds =
      let p : ServiceObj = record o { error = status_to_error r.status } in
      let t : SaceManager S = tell (service_told a o.name o.command r.label) (record m {
        services = erase r.label m.services;
        service_objs = store a p m.service_objs;
      }) in
      (
        t,
        p,
        ground (arith, is, at, holds),
        ground (arith, lookup-erase r.label r.label m.services, nat_eqb_iff r.label r.label),
        ground (arith, lookup-store a a p m.service_objs, nat_eqb_iff a a),
        λ s. (
          control-later_call service_cmd_stop o r.status s,
          control-later_call service_cmd_pause o r.status s,
          control-later_call service_cmd_restart o r.status s,
        ),
      )

  insert-has : (k v : ℕ) (m : Map ℕ ℕ) → has k m ≡ true → insert k v m ≡ m
  unfolding insert
  insert-has k v m h = ground (arith, h)

  -- A second object under a label that has one: the response marks the first, and through the
  -- second the client still sends commands for a service that has ended.
  pub register_service-on_response :
      (r : SaceStatusResponse) (m : SaceManager S) (a : ℕ) (first second : ServiceObj)
      → r.type ≡ response_type_service
      → lookup r.label m.services ≡ some a
      → lookup a m.service_objs ≡ some first
      → lookup m.next m.service_objs ≡ none
      → (t : SaceManager S) × (on_response r (register_service r.label second m).1 ≡ some t)
        × (lookup a t.service_objs ≡ some (record first { error = status_to_error r.status }))
        × (lookup m.next t.service_objs ≡ some second)
        × (lookup r.label t.services ≡ none)
  unfolding on_response service_response tell register_service add_service_obj
  register_service-on_response r m a first second is at one new =
      let old = has_of_lookup r.label a m.services at in
      let n : SaceManager S = (register_service r.label second m).1 in
      let t : SaceManager S = tell (service_told a first.name first.command r.label) (record n {
        services = erase r.label n.services;
        service_objs = store a (record first { error = status_to_error r.status }) n.service_objs;
      }) in
      let kept : insert r.label m.next m.services ≡ m.services =
        insert-has r.label m.next m.services old in
      let apart = lookup-insert a m.next second m.service_objs new in
      let own = lookup-insert m.next m.next second m.service_objs new in
      let marked : ServiceObj = record first { error = status_to_error r.status } in
      (
        t,
        ground (arith, is, at, one, new, kept, apart, nat_eqb_iff m.next a),
        ground (arith, lookup-store a a marked n.service_objs, nat_eqb_iff a a),
        ground (
          arith,
          lookup-store m.next a marked n.service_objs,
          own,
          one,
          new,
          nat_eqb_iff a m.next,
          nat_eqb_iff m.next m.next,
        ),
        ground (arith, lookup-erase r.label r.label n.services, nat_eqb_iff r.label r.label),
      )
