-- ===== src/Events/Registry.antt =====
-- The event executor as a registry of names: what its clients see of adding and deleting events.
use service_excutor.Prelude.{
  ◌≡◌, Bool, true, false, List, [], ◌∷◌, ◌++◌, some, Text, has, has-insert, has-erase, nat_key,
  text_key, text_eqb, Bool-cases, inl, inr, arith, if◌then◌else◌,
}
use service_excutor.Types.{
  event_type_add, event_type_del, EventFlags, event_payload, SaceReaderMessage, message_type_normal,
  ResultStatus, result_status_ok, result_status_fail, result_status_exists, send_result,
}
use service_excutor.Service.Handlers.{with_status}
use service_excutor.Params.Parsing.{Trigger}
use service_excutor.Events.State.{SaceEvent, World, emit}
use service_excutor.Events.Handlers.{
  answer, stop_flag, delete_event, parse_triggers, add_new, add_event, handle, excute_payload,
  excute_normal,
}
use service_excutor.Events.Saved.{Saves, AllSaved}
use service_excutor.Events.Requests.{delete_lem, add_lem}

-- The specification: a name is registered or not.
abbrev pub Registry : Type 0
Registry = Text → Bool

-- An addition, which says whether it brings triggers, or a deletion.
pub data Request : Type 0 where
  adds : Bool → Text → Request
  deletes : Text → Request

abbrev pub set : Text → Bool → Registry → Registry
set name b r = λ n. if text_eqb name n then b else r n

unfoldable pub serve : Request → Registry → ResultStatus × Registry
serve (adds given name) r =
    if r name
    then (result_status_exists, r)
    else if given
    then (result_status_ok, set name true r)
    else (result_status_fail, r)
serve (deletes name) r =
    if r name then (result_status_ok, set name false r) else (result_status_fail, r)

abbrev pub registered : SaceEvent → Registry
registered s = λ n. has n s.events

abbrev pub is_some_list {ℓ} : {A : Type ℓ} → List A → Bool
is_some_list [] = false
is_some_list (x ∷ xs) = true

-- A message that asks for the request, with what the executor reads of it well formed: the flag
-- of a deletion, the parameters of an addition and lines that fit the file's buffers.
pub data Asks : SaceReaderMessage → Request → Type 0 where
  asks_add :
      {m : SaceReaderMessage} (f : EventFlags) (ts : List Trigger)
      → m.msg_type ≡ message_type_normal
      → m.msg_cmd.payload ≡ event_payload event_type_add f
      → parse_triggers m.msg_cmd.params ≡ some ts
      → Saves m.msg_cmd
      → Asks m (adds (is_some_list ts) m.msg_cmd.name)
  asks_delete :
      {m : SaceReaderMessage} (f : EventFlags) (stop : Bool)
      → m.msg_type ≡ message_type_normal
      → m.msg_cmd.payload ≡ event_payload event_type_del f
      → stop_flag m.msg_cmd.extra ≡ some stop
      → Asks m (deletes m.msg_cmd.name)

-- The state refines the registry after the request, and the client was told the status.
pub record Serves (m : SaceReaderMessage) (q : Request) (s t : SaceEvent) : Type 0 where
  pub saved : AllSaved t
  pub view : (n : Text) → registered t n ≡ (serve q (registered s)).1 n
  pub told :
      t.trace
      ≡ s.trace ++ send_result m.msg_writer (with_status (serve q (registered s)).0 m.msg_cmd) ∷ []

refused :
    (st : ResultStatus) (m : SaceReaderMessage) (q : Request) (s : SaceEvent)
    → serve q (registered s) ≡ (st, registered s)
    → AllSaved s
    → Serves m q s (answer st m.msg_cmd m.msg_writer s)
unfolding answer emit
refused st m q s e v = record { saved = v; view = λ n. ground (arith, e); told = ground (arith, e) }

-- A message that asks for an addition or a deletion, in a state whose events can be saved: the
-- call returns, its events can be saved, and the registry and the answer are the specification's.
pub serve_lem :
    (y : World) (m : SaceReaderMessage) (q : Request) (s : SaceEvent)
    → Asks m q
    → AllSaved s
    → (t : SaceEvent) × (excute_normal y m s ≡ some t) × Serves m q s t
unfolding excute_normal excute_payload handle add_event serve delete_event add_new
serve_lem y m _ s (asks_add f [] nt p e w) v = elim (Bool-cases (has m.msg_cmd.name s.events)) [
  | inl h ↦ (
    answer result_status_exists m.msg_cmd m.msg_writer s,
    ground arith,
    refused result_status_exists m (adds false m.msg_cmd.name) s (ground arith) v,
  )
  | inr h ↦ (
    answer result_status_fail m.msg_cmd m.msg_writer s,
    ground arith,
    refused result_status_fail m (adds false m.msg_cmd.name) s (ground arith) v,
  )
]
serve_lem y m _ s (asks_add f (t0 ∷ ts) nt p e w) v =
    elim (Bool-cases (has m.msg_cmd.name s.events)) [
      | inl h ↦ (
        answer result_status_exists m.msg_cmd m.msg_writer s,
        ground arith,
        refused result_status_exists m (adds true m.msg_cmd.name) s (ground arith) v,
      )
      | inr h ↦
          let (t, r, v', ev, tr) = add_lem y t0 ts m.msg_cmd m.msg_writer s w v in
          (
            t,
            ground (arith, r),
            record {
              saved = v';
              view = λ n. ground (arith, ev, has-insert n m.msg_cmd.name y.fresh s.events);
              told = ground (arith, tr);
            },
          )
    ]
serve_lem y m _ s (asks_delete f stop nt p e) v = elim (Bool-cases (has m.msg_cmd.name s.events)) [
  | inl h ↦
      let (t, r, v', ev, tr) = delete_lem y m.msg_cmd m.msg_writer s stop e v h in
      (
        t,
        ground (arith, r),
        record {
          saved = v';
          view = λ n. ground (arith, ev, has-erase n m.msg_cmd.name s.events);
          told = ground (arith, tr);
        },
      )
  | inr h ↦ (
    answer result_status_fail m.msg_cmd m.msg_writer s,
    ground (arith, e),
    refused result_status_fail m (deletes m.msg_cmd.name) s (ground arith) v,
  )
]
