-- ===== src/Dispatch/Routing.antt =====
-- From a client's command to the queue of an executor: `typeCmdToMsg`,
-- `SaceCommandDispatcher::start` and `handleMessage`, `SaceExcutor::excute`.
use service_excutor.Prelude.{
  ◌≡◌, refl, Bool, true, false, List, [], ◌∷◌, ◌++◌, if◌then◌else◌, arith, ◌||◌, suc, append-nil,
  append_assoc, sym, subst, ◌∙◌,
}
use service_excutor.Types.{
  CommandType, type_normal, type_service, type_event, type_other, MessageHandlerType,
  message_handler_unkown, message_handler_normal, message_handler_service, message_handler_event,
  message_handler_all, same_handler,
}
use service_excutor.Dispatch.Queue.{Queue, initial, pushes, posts, step, Reachable, steps}

unfoldable pub type_cmd_to_msg : CommandType → MessageHandlerType
type_cmd_to_msg type_normal = message_handler_normal
type_cmd_to_msg type_service = message_handler_service
type_cmd_to_msg type_event = message_handler_event
type_cmd_to_msg (type_other n) = message_handler_unkown

pub record Excutor (M : Type 0) : Type 0 where
  pub msg_type : MessageHandlerType
  pub queue : Queue M

-- No executor has this kind.
unfoldable pub is_unrouted : MessageHandlerType → Bool
is_unrouted message_handler_unkown = true
is_unrouted message_handler_all = true
is_unrouted message_handler_normal = false
is_unrouted message_handler_service = false
is_unrouted message_handler_event = false

-- `defaults` are the messages that `handleDefaultMessage` got.
pub record Dispatcher (M : Type 0) : Type 0 where
  pub excutors : List (Excutor M)
  pub defaults : List M

module _ {M : Type 0} where
  -- The executors that `start` makes, in its order.
  unfoldable pub start : Dispatcher M
  start = record {
    excutors =
        record { msg_type = message_handler_service; queue = initial }
        ∷ record { msg_type = message_handler_normal; queue = initial }
        ∷ record { msg_type = message_handler_event; queue = initial }
        ∷ [];
    defaults = [];
  }

  -- Both halves of `sendCommandMessage`.
  abbrev pub send_command_message : M → Queue M → Queue M
  send_command_message m q = record q {
    cmd_queue = q.cmd_queue ++ m ∷ [];
    sent = q.sent ++ m ∷ [];
    sync_sem = suc q.sync_sem;
  }

  module _ (handler : M → MessageHandlerType) where
    unfoldable pub excute : M → Excutor M → Bool × Excutor M
    excute m e =
        if same_handler (handler m) e.msg_type
        then (true, record e { queue = send_command_message m e.queue })
        else (false, e)

    -- The loop of `handleMessage`: whether one took it, and the executors.
    unfoldable pub excute_all : M → List (Excutor M) → Bool × List (Excutor M)
    unfolding excute
    excute_all m [] = (false, [])
    excute_all m (e ∷ es) =
        let (took, e') = excute m e in
        let (handle, es') = excute_all m es in (took || handle, e' ∷ es')

    unfoldable pub handle_message : M → Dispatcher M → Dispatcher M
    unfolding excute_all
    handle_message m d =
        let (handle, es) = excute_all m d.excutors in
        record { excutors = es; defaults = if handle then d.defaults else d.defaults ++ m ∷ [] }

    -- The dispatcher after its thread handled the messages, the first one first.
    unfoldable pub dispatch : List M → Dispatcher M → Dispatcher M
    dispatch [] d = d
    dispatch (m ∷ ms) d = dispatch ms (handle_message m d)

  -- The messages that the executors of a kind were sent.
  unfoldable pub sent_to : MessageHandlerType → List (Excutor M) → List M
  sent_to k [] = []
  sent_to k (e ∷ es) = if same_handler k e.msg_type then e.queue.sent else sent_to k es

  abbrev pub keep : (M → Bool) → List M → List M
  keep p [] = []
  keep p (m ∷ ms) = if p m then m ∷ keep p ms else keep p ms

  -- The two steps of a producer, with no other step between them.
  send-Reachable : (m : M) (q : Queue M) → Reachable q → Reachable (send_command_message m q)
  unfolding step
  send-Reachable m q r = steps posts (steps (pushes m) r refl) refl

  abbrev three : Queue M → Queue M → Queue M → List M → Dispatcher M
  three a b c d = record {
    excutors =
        record { msg_type = message_handler_service; queue = a }
        ∷ record { msg_type = message_handler_normal; queue = b }
        ∷ record { msg_type = message_handler_event; queue = c }
        ∷ [];
    defaults = d;
  }

  module _ (handler : M → MessageHandlerType) where
    abbrev for_kind : MessageHandlerType → List M → List M
    for_kind k = keep (λ m. same_handler (handler m) k)

    -- What is sent on top of what was sent.
    record Routes (ms : List M) (a b c : Queue M) (d : List M) (t : Dispatcher M) : Type 0 where
      services :
          sent_to message_handler_service t.excutors ≡ a.sent ++ for_kind message_handler_service ms
      normals :
          sent_to message_handler_normal t.excutors ≡ b.sent ++ for_kind message_handler_normal ms
      events :
          sent_to message_handler_event t.excutors ≡ c.sent ++ for_kind message_handler_event ms
      defaulted : t.defaults ≡ d ++ keep (λ m. is_unrouted (handler m)) ms

    abbrev routed : MessageHandlerType → M → Queue M → Queue M
    routed k m q = if same_handler (handler m) k then send_command_message m q else q

    handle_three :
        (m : M) (a b c : Queue M) (d : List M)
        → handle_message handler m (three a b c d)
          ≡ three
              (routed message_handler_service m a)
              (routed message_handler_normal m b)
              (routed message_handler_event m c)
              (if is_unrouted (handler m) then d ++ m ∷ [] else d)
    unfolding handle_message excute_all excute same_handler is_unrouted
    handle_three m a b c d = ground arith

    sent-routed :
        (k : MessageHandlerType) (m : M) (ms : List M) (q : Queue M)
        → (routed k m q).sent ++ for_kind k ms ≡ q.sent ++ for_kind k (m ∷ ms)
    sent-routed k m ms q = ground (arith, append_assoc q.sent (m ∷ []) (for_kind k ms))

    dispatch-Routes :
        (ms : List M) (a b c : Queue M) (d : List M)
        → Routes ms a b c d (dispatch handler ms (three a b c d))
    unfolding dispatch sent_to same_handler
    dispatch-Routes [] a b c d = record {
      services = sym (append-nil a.sent);
      normals = sym (append-nil b.sent);
      events = sym (append-nil c.sent);
      defaulted = sym (append-nil d);
    }
    dispatch-Routes (m ∷ ms) a b c d =
        let w =
          dispatch-Routes ms (routed message_handler_service m a)
            (routed message_handler_normal m b) (routed message_handler_event m c)
            (if is_unrouted (handler m) then d ++ m ∷ [] else d) in
        subst (λ x. Routes (m ∷ ms) a b c d (dispatch handler ms x)) (sym (handle_three m a b c d))
          (record {
            services = w.services ∙ sent-routed message_handler_service m ms a;
            normals = w.normals ∙ sent-routed message_handler_normal m ms b;
            events = w.events ∙ sent-routed message_handler_event m ms c;
            defaulted = ground (
              arith,
              w.defaulted,
              append_assoc d (m ∷ []) (keep (λ n. is_unrouted (handler n)) ms),
            );
          })

    -- After `start`, each executor was sent exactly the messages of its kind in the order in
    -- which they came, and the default handler got the others.
    pub dispatch-start :
        (ms : List M)
        → let d = dispatch handler ms start in
          (sent_to message_handler_service d.excutors ≡ for_kind message_handler_service ms)
          × (sent_to message_handler_normal d.excutors ≡ for_kind message_handler_normal ms)
          × (sent_to message_handler_event d.excutors ≡ for_kind message_handler_event ms)
          × (d.defaults ≡ keep (λ m. is_unrouted (handler m)) ms)
    unfolding start
    dispatch-start ms =
        let w = dispatch-Routes ms initial initial initial [] in
        (w.services, w.normals, w.events, w.defaulted)
