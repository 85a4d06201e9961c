-- ===== src/Events/Refinement.antt =====
-- The event executor over a sequence of requests refines the registry.
use mathlib.Core.Path.{fun_ext}
use service_excutor.Prelude.{
  ◌≡◌, refl, sym, ap, ◌∙◌, List, [], ◌∷◌, ◌++◌, Option, some, All, arith, ◌>>=◌, append_assoc,
  append-nil,
}
use service_excutor.Types.{SaceReaderMessage, Effect, send_result}
use service_excutor.Service.Handlers.{with_status}
use service_excutor.Events.State.{SaceEvent, World}
use service_excutor.Events.Handlers.{excute_normal}
use service_excutor.Events.Saved.{AllSaved}
use service_excutor.Events.Registry.{Registry, Request, serve, registered, Asks, serve_lem}

-- A call: what the system answers, the message, and what it asks for.
pub record Call : Type 0 where
  pub world : World
  pub message : SaceReaderMessage
  pub request : Request

-- The executor's thread on the messages, the first one first.
unfoldable pub run : List Call → SaceEvent → Option SaceEvent
run [] s = some s
run (k ∷ ks) s = excute_normal k.world k.message s >>= run ks

-- The specification on the same requests: the registry at the end, and what the clients are told.
unfoldable pub replay : List Call → Registry → Registry
replay [] r = r
replay (k ∷ ks) r = replay ks (serve k.request r).1

unfoldable pub answers : List Call → Registry → List Effect
answers [] r = []
answers (k ∷ ks) r =
    send_result k.message.msg_writer (with_status (serve k.request r).0 k.message.msg_cmd)
    ∷ answers ks (serve k.request r).1

-- From a state whose events can be saved, any sequence of additions and deletions returns, and
-- ends with the names that the specification has registered and with the answers that it gives,
-- in order.
pub run_refines :
    (ks : List Call) (s : SaceEvent)
    → All (λ k. Asks k.message k.request) ks
    → AllSaved s
    → (t : SaceEvent) × (run ks s ≡ some t)
      × AllSaved t
      × (registered t ≡ replay ks (registered s))
      × (t.trace ≡ s.trace ++ answers ks (registered s))
unfolding run replay answers
run_refines [] s a v = (s, refl, v, refl, sym (append-nil s.trace))
run_refines (k ∷ ks) s (q, a) v =
    let (s1, e, served) = serve_lem k.world k.message k.request s q v in
    let view : registered s1 ≡ (serve k.request (registered s)).1 = fun_ext served.view in
    let (t, r, w, reg, tr) = run_refines ks s1 a served.saved in
    let told : Effect =
      send_result k.message.msg_writer
        (with_status (serve k.request (registered s)).0 k.message.msg_cmd) in
    (
      t,
      ground (arith, e, r),
      w,
      reg ∙ ap (replay ks) view,
      tr
          ∙ (ap (λ x. x ++ answers ks (registered s1)) served.told
              ∙ (append_assoc s.trace (told ∷ []) (answers ks (registered s1))
                  ∙ ap (λ x. s.trace ++ told ∷ answers ks x) view)),
    )
