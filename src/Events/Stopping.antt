-- ===== src/Events/Stopping.antt =====
-- What goes wrong with the one stop message, with a restart, and with a start that is refused.
use service_excutor.Prelude.{
  ℕ, zero, suc, length, ◌≡◌, refl, sym, ◌∙◌, true, false, List, [], ◌∷◌, ◌++◌, Option, some, lookup,
  has, insert, erase, map, has-insert, nat_key, text_key, text_eqb_iff, nat_eqb, nat_eqb_iff, arith,
  ◌>>=◌, append_assoc, append-nil, has_of_lookup,
}
use service_excutor.Types.{
  service_cmd_start, SaceCommand, SaceWriter, SaceResult, SaceStatusResponse, EventType,
  event_payload, event_flag_restart, response_status_signal, result_status_ok, result_type_label,
  of_bytes,
}
use service_excutor.Events.State.{
  Event, SaceEvent, World, Posted, own_message, stop_message, post, post_start, start_event,
  stop_event, delivered, to_services, clone_service_command, pipe_writer,
}
use service_excutor.Events.Handlers.{stop_running, add_writers}
use service_excutor.Events.Monitor.{
  handle_response, is_current, is_signal, restart_event, restarts, handle_result, is_ok, is_label,
  started, copied_label, forward, start_failed,
}

-- The label that the service executor finds in each message, when the dispatcher gets to them.
abbrev labels : SaceEvent → List Posted → List ℕ
labels s ms = map (λ m. (delivered s m).msg_cmd.label) ms

stop_running_lem :
    (c : SaceCommand) (w : SaceWriter) (s : SaceEvent) (k : ℕ)
    → lookup c.name s.running_events ≡ some k
    → ((stop_running c w s).posted ≡ s.posted ++ stop_message ∷ [])
      × ((stop_running c w s).stop_cmd.label ≡ k)
      × ((stop_running c w s).running_events ≡ s.running_events)
unfolding stop_running add_writers stop_event post
stop_running_lem c w s k p = ground arith

-- Two clients delete two running events with a stop, before the dispatcher has taken the first
-- message: both messages carry the second label, so nothing stops the first service.
pub stop_running_twice :
    (c d : SaceCommand) (v w : SaceWriter) (s : SaceEvent) (k l : ℕ)
    → lookup c.name s.running_events ≡ some k
    → lookup d.name s.running_events ≡ some l
    → let t = stop_running d w (stop_running c v s) in
      (t.posted ≡ (s.posted ++ stop_message ∷ []) ++ stop_message ∷ [])
      × (labels t (stop_message ∷ stop_message ∷ []) ≡ l ∷ l ∷ [])
unfolding delivered
stop_running_twice c d v w s k l p q =
    let (p1, _, same) = stop_running_lem c v s k p in
    let s1 = stop_running c v s in
    let (p2, label, _) = stop_running_lem d w s1 l (ground arith) in (ground arith, ground arith)

-- An event with the restart flag whose process is killed: it is started again, but keeps running
-- under the label of the process that was killed, whatever label the new service has.
pub restart_keeps_label :
    (y : World) (s : SaceEvent) (a old : ℕ) (e : Event) (k : EventType) (r : SaceStatusResponse)
    (result : SaceResult)
    → lookup r.name s.events ≡ some a
    → lookup a s.heap ≡ some e
    → e.cmd.name ≡ r.name
    → e.cmd.payload ≡ event_payload k event_flag_restart
    → lookup r.name s.running_events ≡ some old
    → r.label ≡ old
    → r.status ≡ response_status_signal
    → result.name ≡ r.name
    → result.result_status ≡ result_status_ok
    → result.result_type ≡ result_type_label
    → nat_eqb (length result.result_extra) 8 ≡ true
    → (t : SaceEvent) × (handle_response r s >>= start_event y a >>= handle_result y result
        ≡ some t)
      × (lookup r.name t.running_events ≡ some old)
unfolding handle_response restart_event restarts is_current is_signal start_event post_start post
    handle_result is_ok started is_label copied_label forward insert
restart_keeps_label y s a old e k r result ev hp nm fl run lb st rn ro rl len =
    let s1 : SaceEvent = record s { failed_events = insert r.name tt s.failed_events } in
    let s2 = post_start y e s1 in
    let s3 : SaceEvent = record s2 {
      starting_events = erase result.name s2.starting_events;
      running_events = insert result.name (of_bytes result.result_extra) s2.running_events;
    } in
    (
      forward result s3,
      ground (
        arith,
        has-insert r.name e.cmd.name tt s.starting_events,
        text_eqb_iff r.name e.cmd.name,
        nat_eqb_iff old r.label,
      ),
      ground (arith, has_of_lookup r.name old s.running_events run),
    )

-- The same call, as often as the pipe has its result.
unfoldable pub handle_repeatedly : World → SaceResult → ℕ → SaceEvent → Option SaceEvent
handle_repeatedly y r zero s = some s
handle_repeatedly y r (suc n) s = handle_result y r s >>= handle_repeatedly y r n

abbrev pub copies : ℕ → Posted → List Posted
copies zero m = []
copies (suc n) m = m ∷ copies n m

-- An event that starts and is refused, for example as a service of its name exists: each refusal
-- posts the same start again, without an end, and nobody is told.
pub handle_result_retries :
    (y : World) (r : SaceResult) (n a : ℕ) (e : Event) (s : SaceEvent)
    → has r.name s.starting_events ≡ true
    → is_ok r.result_status ≡ false
    → lookup r.name s.events ≡ some a
    → lookup a s.heap ≡ some e
    → (t : SaceEvent) × (handle_repeatedly y r n s ≡ some t)
      × (t.trace ≡ s.trace)
      × (t.posted
          ≡ s.posted
            ++ copies n (
                own_message
                  (to_services (clone_service_command service_cmd_start e.cmd) (pipe_writer y))))
unfolding handle_repeatedly handle_result start_failed start_event post_start post
handle_result_retries y r zero a e s st bad ev hp = (s, refl, refl, sym (append-nil s.posted))
handle_result_retries y r (suc n) a e s st bad ev hp =
    let m : Posted =
      own_message (to_services (clone_service_command service_cmd_start e.cmd) (pipe_writer y)) in
    let s1 = post_start y e s in
    let (t, run_t, tr, ps) =
      handle_result_retries y r n a e s1
        (ground (arith, has-insert r.name e.cmd.name tt s.starting_events)) bad ev hp in
    (t, ground (arith, run_t), tr, ps ∙ append_assoc s.posted (m ∷ []) (copies n m))
