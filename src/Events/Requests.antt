-- ===== src/Events/Requests.antt =====
-- What an addition, a deletion and the end of each do to the events and to the trace.
use service_excutor.Prelude.{
  ℕ, ◌≡◌, refl, sym, ap, subst, ◌∙◌, Bool, true, false, List, [], ◌∷◌, ◌++◌, some, lookup, has,
  insert, store, erase, lookup-store, insert-Entries, erase-Entries, Entries-map, nat_key, text_key,
  nat_eqb_iff, arith, if◌then◌else◌,
}
use service_excutor.Types.{SaceCommand, SaceWriter, ResultStatus, result_status_ok, send_result}
use service_excutor.Service.Handlers.{with_status}
use service_excutor.Params.Parsing.{Trigger}
use service_excutor.Events.State.{
  Event, SaceEvent, World, emit, post, poll, post_start, start_event, stop_event, triggered,
}
use service_excutor.Events.Handlers.{
  add_writers, answer, save_and_answer, stop_flag, stop_running, delete_event, make_event, add_new,
}
use service_excutor.Events.Saved.{Saves, Saved, AllSaved, Saved-store, write_ini_file_lem}

pub save_lem :
    (y : World) (st : ResultStatus) (c : SaceCommand) (wr : SaceWriter) (s : SaceEvent)
    → AllSaved s
    → (t : SaceEvent) × (save_and_answer y st c wr s ≡ some t)
      × AllSaved t
      × (t.events ≡ s.events)
      × (t.trace ≡ s.trace ++ send_result wr (with_status st c) ∷ [])
unfolding save_and_answer answer emit
save_lem y st c wr s v =
    let (t, e, (f, same)) = write_ini_file_lem y s v in
    (
      record s { ini_file = f; trace = s.trace ++ send_result wr (with_status st c) ∷ [] },
      ground (arith, e),
      v,
      refl,
      refl,
    )

-- What the stop of a running event leaves alone.
stop_running_lem :
    (c : SaceCommand) (wr : SaceWriter) (s : SaceEvent)
    → ((stop_running c wr s).events ≡ s.events)
      × ((stop_running c wr s).heap ≡ s.heap)
      × ((stop_running c wr s).trace ≡ s.trace)
unfolding stop_running add_writers stop_event post
stop_running_lem c wr s = ground arith

abbrev SameView : SaceEvent → SaceEvent → Type 0
SameView s t = (t.events ≡ s.events) × (t.heap ≡ s.heap) × (t.trace ≡ s.trace)

maybe_stop_lem :
    (stop : Bool) (c : SaceCommand) (wr : SaceWriter) (s : SaceEvent)
    → SameView s (if stop then stop_running c wr s else s)
maybe_stop_lem true c wr s = stop_running_lem c wr s
maybe_stop_lem false c wr s = (refl, refl, refl)

SameView-AllSaved : (s t : SaceEvent) → SameView s t → AllSaved s → AllSaved t
SameView-AllSaved s t (e, h, _) v = rw (e, h) v

pub delete_lem :
    (y : World) (c : SaceCommand) (wr : SaceWriter) (s : SaceEvent) (stop : Bool)
    → stop_flag c.extra ≡ some stop
    → AllSaved s
    → has c.name s.events ≡ true
    → (t : SaceEvent) × (delete_event y c wr s ≡ some t)
      × AllSaved t
      × (t.events ≡ erase c.name s.events)
      × (t.trace ≡ s.trace ++ send_result wr (with_status result_status_ok c) ∷ [])
unfolding delete_event
delete_lem y c wr s stop f v h =
    let s0 : SaceEvent = record s { events = erase c.name s.events } in
    let s1 : SaceEvent = if stop then stop_running c wr s0 else s0 in
    let same = maybe_stop_lem stop c wr s0 in
    let v0 : AllSaved s0 = erase-Entries (Saved s.heap) c.name s.events v in
    let (t, e, w, ev, tr) = save_lem y result_status_ok c wr s1 (SameView-AllSaved s0 s1 same v0) in
    (t, ground (arith, f, h, e), w, ev ∙ same.0, ground (arith, tr, same.2))

-- The object is made and its triggers polled once.
polled : (y : World) (ts : List Trigger) (c : SaceCommand) (s : SaceEvent) → SaceEvent
polled y ts c s =
    let (fired, ts') = triggered y.property ts in
    record s {
      heap =
          store y.fresh (record { triggers = ts'; cmd = c })
            (store y.fresh (record { triggers = ts; cmd = c }) s.heap);
    }

poll_lem :
    (y : World) (ts : List Trigger) (c : SaceCommand) (s : SaceEvent)
    → poll y y.fresh (make_event y ts c s) ≡ some ((triggered y.property ts).0, polled y ts c s)
unfolding poll make_event polled
poll_lem y ts c s = ground (
  arith,
  nat_eqb_iff y.fresh y.fresh,
  lookup-store y.fresh y.fresh (record { triggers = ts; cmd = c }) s.heap,
)

polled_view :
    (y : World) (ts : List Trigger) (c : SaceCommand) (s : SaceEvent)
    → ((polled y ts c s).events ≡ s.events) × ((polled y ts c s).trace ≡ s.trace)
unfolding polled
polled_view y ts c s = (refl, refl)

found :
    (y : World) (ts : List Trigger) (c : SaceCommand) (s : SaceEvent)
    → (e : Event) × (lookup y.fresh (polled y ts c s).heap ≡ some e) × (e.cmd ≡ c)
unfolding polled
found y ts c s =
    let e : Event = record { triggers = (triggered y.property ts).1; cmd = c } in
    (
      e,
      ground (
        arith,
        nat_eqb_iff y.fresh y.fresh,
        lookup-store y.fresh y.fresh e (store y.fresh (record { triggers = ts; cmd = c }) s.heap),
      ),
      refl,
    )

-- A start changes the names that are starting and what is posted.
post_start_lem : (y : World) (e : Event) (s : SaceEvent) → SameView s (post_start y e s)
unfolding post_start post
post_start_lem y e s = (refl, refl, refl)

maybe_start_lem :
    (fired : Bool) (y : World) (a : ℕ) (e : Event) (s : SaceEvent)
    → lookup a s.heap ≡ some e
    → (t : SaceEvent) × ((if fired then start_event y a s else some s) ≡ some t) × SameView s t
unfolding start_event
maybe_start_lem true y a e s l = (post_start y e s, ground arith, post_start_lem y e s)
maybe_start_lem false y a e s l = (s, refl, (refl, refl, refl))

polled-AllSaved :
    (y : World) (ts : List Trigger) (c : SaceCommand) (s : SaceEvent)
    → Saves c
    → AllSaved s
    → AllSaved (polled y ts c s)
unfolding polled
polled-AllSaved y ts c s w v =
    let e : Event = record { triggers = ts; cmd = c } in
    let e' : Event = record { triggers = (triggered y.property ts).1; cmd = c } in
    Entries-map (Saved s.heap) (Saved (polled y ts c s).heap)
      (λ n b p.
        Saved-store (store y.fresh e s.heap) y.fresh e' n b w
          (Saved-store s.heap y.fresh e n b w p))
      s.events v

-- A new name with triggers.
pub add_lem :
    (y : World) (t0 : Trigger) (ts : List Trigger) (c : SaceCommand) (wr : SaceWriter)
    (s : SaceEvent)
    → Saves c
    → AllSaved s
    → (t : SaceEvent) × (add_new y (t0 ∷ ts) c wr s ≡ some t)
      × AllSaved t
      × (t.events ≡ insert c.name y.fresh s.events)
      × (t.trace ≡ s.trace ++ send_result wr (with_status result_status_ok c) ∷ [])
unfolding add_new
add_lem y t0 ts c wr s w v =
    let fired : Bool = (triggered y.property (t0 ∷ ts)).0 in
    let s1 = polled y (t0 ∷ ts) c s in
    let (e, l, k) = found y (t0 ∷ ts) c s in
    let (s2, r2, same) = maybe_start_lem fired y y.fresh e s1 l in
    let v2 = SameView-AllSaved s1 s2 same (polled-AllSaved y (t0 ∷ ts) c s w v) in
    let s3 : SaceEvent = record s2 { events = insert c.name y.fresh s2.events } in
    let l2 : lookup y.fresh s2.heap ≡ some e = ap (λ h. lookup y.fresh h) same.1 ∙ l in
    let v3 : AllSaved s3 =
      insert-Entries (Saved s2.heap) c.name y.fresh s2.events (e, l2, subst Saves (sym k) w) v2 in
    let (t, r3, v4, ev, tr) = save_lem y result_status_ok c wr s3 v3 in
    (
      t,
      ground (arith, poll_lem y (t0 ∷ ts) c s, r2, r3),
      v4,
      ev ∙ ap (λ m. insert c.name y.fresh m) (same.0 ∙ (polled_view y (t0 ∷ ts) c s).0),
      tr
          ∙ ap (λ x. x ++ send_result wr (with_status result_status_ok c) ∷ [])
              (same.2 ∙ (polled_view y (t0 ∷ ts) c s).1),
    )
