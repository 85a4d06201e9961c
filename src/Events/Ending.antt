-- ===== src/Events/Ending.antt =====
-- `SaceEvent::onUninit`, after the event thread was joined and its pipe closed.
use service_excutor.Prelude.{
  ℕ, ◌≡◌, refl, sym, ◌∙◌, [], ◌∷◌, ◌++◌, Text, Map, append_assoc, append-nil, length,
}
use service_excutor.Events.State.{SaceEvent, stop_message, stop_event, post, delivered}
use service_excutor.Events.Stopping.{copies}

-- The loop over the running events. It waits 5 ms after each, in which the dispatcher may take the
-- message.
unfoldable pub stop_all : Map Text ℕ → SaceEvent → SaceEvent
stop_all [] s = s
stop_all ((name, label) ∷ rest) s = stop_all rest (stop_event label 0 s)

unfoldable pub on_uninit : SaceEvent → SaceEvent
on_uninit s = stop_all s.running_events s

-- The label of the last of some events, or the one that the stop message has.
unfoldable pub last_label : ℕ → Map Text ℕ → ℕ
last_label l [] = l
last_label l ((name, label) ∷ rest) = last_label label rest

stop_all_lem :
    (m : Map Text ℕ) (s : SaceEvent)
    → ((stop_all m s).posted ≡ s.posted ++ copies (length m) stop_message)
      × ((stop_all m s).stop_cmd.label ≡ last_label s.stop_cmd.label m)
unfolding stop_all stop_event post last_label
stop_all_lem [] s = (sym (append-nil s.posted), refl)
stop_all_lem ((name, label) ∷ rest) s =
    let t = stop_event label 0 s in
    let (p, l) = stop_all_lem rest t in
    (p ∙ append_assoc s.posted (stop_message ∷ []) (copies (length rest) stop_message), l)

-- At the end one stop is posted for each event that runs. Those that the dispatcher has not taken
-- by then all carry the label of the last event.
pub on_uninit-delivered :
    (s : SaceEvent)
    → ((on_uninit s).posted ≡ s.posted ++ copies (length s.running_events) stop_message)
      × ((delivered (on_uninit s) stop_message).msg_cmd.label
          ≡ last_label s.stop_cmd.label s.running_events)
unfolding on_uninit delivered
on_uninit-delivered s = stop_all_lem s.running_events s
