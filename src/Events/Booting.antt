-- ===== src/Events/Booting.antt =====
-- The first pass of the event thread over the events of the file.
use service_excutor.Prelude.{
  ℕ, suc, ◌<◌, ◌≡◌, refl, sym, ◌∙◌, ap, subst, Bool, true, List, [], ◌∷◌, ◌++◌, map, append_assoc,
  append-nil, Option, none, some, Text, Map, lookup, store, lookup-store, nat_key, nat_eqb_iff,
  text_key, Entries, Bool-cases, ◌||◌, inl, inr, arith,
}
use service_excutor.Types.{SaceEventParams, service_cmd_start}
use service_excutor.Params.Triggers.{property_triggered, boot_triggered}
use service_excutor.Params.Parsing.{Trigger, on_property, on_boot}
use service_excutor.Ini.Attributes.{Stream}
use service_excutor.Ini.Sections.{Draft, Reader, parse_none}
use service_excutor.Ini.File.{read_ini_file}
use service_excutor.Ini.Paired.{Paired}
use service_excutor.Ini.Boot.{boots, opens, read_ini_file-returns}
use service_excutor.Events.State.{
  Event, SaceEvent, World, Posted, own_message, to_services, pipe_writer, clone_service_command,
  triggered, poll, post_start, start_event, post,
}
use service_excutor.Events.Monitor.{snapshot, start_triggered, restart_failed, receive, pass}
use service_excutor.Events.Loading.{Parsed, parsed_event, loaded_events, loaded_heap, load, on_init}

fires_lem :
    (property : Text → Text) (ts : List Trigger)
    → boots ts ≡ true
    → (us : List Trigger) × (triggered property ts ≡ (true, us))
unfolding triggered boot_triggered
fires_lem property [] b = ground (arith, b)
fires_lem property (on_property t ∷ ts) b =
    let (us, e) = fires_lem property ts b in
    let (q, u) = property_triggered (property t.property_name) t in
    elim (Bool-cases q) [
      | inl f ↦ (on_property u ∷ ts, ground (arith, f))
      | inr f ↦ (on_property u ∷ us, ground (arith, f, e))
    ]
fires_lem property (on_boot t ∷ ts) b = elim (Bool-cases t.has_triggered) [
  | inl f ↦
      let (us, e) = fires_lem property ts (ground (arith, b, f)) in
      (on_boot t ∷ us, ground (arith, f, e))
  | inr f ↦ (on_boot (record { has_triggered = true }) ∷ ts, ground (arith, f))
]

module _ (self_name : Text) (number : Text → ℕ) where
  -- The heap has an object with the command of each event, which fires when it is polled.
  abbrev Ready : ℕ → Parsed → Map ℕ Event → Type 0
  Ready a [] h = Unit {0}
  Ready a ((name, (d, ts)) ∷ m) h =
      (lookup a h ≡ some (parsed_event self_name number (d, ts))) × Ready (suc a) m h

  -- The start that is posted for an event of the file.
  abbrev pub file_start : World → Text × (Draft × List Trigger) → Posted
  file_start w (name, p) = own_message (
      to_services (clone_service_command service_cmd_start (parsed_event self_name number p).cmd)
        (pipe_writer w))

  Ready-store :
      (a b : ℕ) (m : Parsed) (e : Event) (h : Map ℕ Event)
      → b < a
      → Ready a m h
      → Ready a m (store b e h)
  Ready-store a b [] e h l v = tt
  Ready-store a b ((name, (d, ts)) ∷ m) e h l (f, v) =
      (ground (arith, l, f, lookup-store a b e h), Ready-store (suc a) b m e h (omega (arith, l)) v)

  Ready-cons :
      (a b : ℕ) (m : Parsed) (e : Event) (h : Map ℕ Event)
      → b < a
      → Ready a m h
      → Ready a m ((b, e) ∷ h)
  unfolding lookup
  Ready-cons a b [] e h l v = tt
  Ready-cons a b ((name, (d, ts)) ∷ m) e h l (f, v) =
      (ground (arith, l, f), Ready-cons (suc a) b m e h (omega (arith, l)) v)

  loaded-Ready : (a : ℕ) (m : Parsed) → Ready a m (loaded_heap self_name number a m)
  unfolding loaded_heap lookup
  loaded-Ready a [] = tt
  loaded-Ready a ((name, (d, ts)) ∷ m) = (
    ground (arith, nat_eqb_iff a a),
    Ready-cons (suc a) a m (parsed_event self_name number (d, ts))
        (loaded_heap self_name number (suc a) m) (omega arith) (loaded-Ready (suc a) m),
  )

  one_lem :
      (w : World) (a : ℕ) (name : Text) (d : Draft) (ts : List Trigger) (s : SaceEvent)
      → boots ts ≡ true
      → lookup a s.heap ≡ some (parsed_event self_name number (d, ts))
      → (us : List Trigger) × (u : SaceEvent) × (poll w a s
          ≡ some (
            true,
            record s {
              heap =
                  store a (record (parsed_event self_name number (d, ts)) { triggers = us }) s.heap;
            },
          ))
        × (start_event w a (record s {
          heap = store a (record (parsed_event self_name number (d, ts)) { triggers = us }) s.heap;
        })
            ≡ some u)
        × (u.posted ≡ s.posted ++ file_start w (name, (d, ts)) ∷ [])
        × (u.heap
            ≡ store a (record (parsed_event self_name number (d, ts)) { triggers = us }) s.heap)
  unfolding poll start_event post_start post parsed_event
  one_lem w a name d ts s b f =
      let (us, fires) = fires_lem w.property ts b in
      let e : Event = record (parsed_event self_name number (d, ts)) { triggers = us } in
      let s1 : SaceEvent = record s { heap = store a e s.heap } in
      let found : lookup a s1.heap ≡ some e =
        ground (arith, lookup-store a a e s.heap, nat_eqb_iff a a) in
      (us, post_start w e s1, ground (arith, f, fires), ground (arith, found), refl, refl)

  start_lem :
      (w : World) (a : ℕ) (m : Parsed) (s : SaceEvent)
      → Entries (λ name (d, ts). boots ts ≡ true) m
      → Ready a m s.heap
      → (u : SaceEvent) × (start_triggered w (loaded_events self_name number a m) s ≡ some u)
        × (u.posted ≡ s.posted ++ map (file_start w) m)
  unfolding start_triggered loaded_events
  start_lem w a [] s b v = (s, refl, sym (append-nil s.posted))
  start_lem w a ((name, (d, ts)) ∷ m) s (b, bs) (f, v) =
      let (us, t, polled, began, posts, heap) = one_lem w a name d ts s b f in
      let e : Event = record (parsed_event self_name number (d, ts)) { triggers = us } in
      let kept : Ready (suc a) m t.heap =
        subst (Ready (suc a) m) (sym heap) (Ready-store (suc a) a m e s.heap (omega arith) v) in
      let (u, rest, more) = start_lem w (suc a) m t bs kept in
      (
        u,
        simp (polled, began, rest) refl,
        more
            ∙ ap (λ l. l ++ map (file_start w) m) posts
            ∙ append_assoc s.posted (file_start w (name, (d, ts)) ∷ []) (map (file_start w) m),
      )

  module _ (isspace : ℕ → Bool) (y : Stream) (caps limits : Map Text ℕ)
      (fresh : SaceEventParams) where
    -- The event executor opens its pipe, parameters have the boot trigger and as many values as
    -- names when they are new, and no event waits to be started again: whatever the event files
    -- hold, their reading returns, the executor then holds the events that were read, and the first
    -- pass of its thread posts a start of each of them, in the order of their names and once,
    -- whatever the properties are and whatever triggers the file gives them.
    pub on_init-pass :
        (data_ini default_ini : Option Text) (w : World) (thread : Bool) (s : SaceEvent)
        → fresh.boot ≡ true
        → Paired fresh
        → s.failed_events ≡ []
        → (r : Reader) × (t : SaceEvent) × (u : SaceEvent) × (read_ini_file isspace y caps limits
              fresh data_ini default_ini
              (record { state = parse_none; events = [] })
            ≡ some (opens data_ini || opens default_ini, r))
          × (on_init self_name number isspace y caps limits fresh true thread data_ini default_ini s
              ≡ some (thread, t))
          × (t.events ≡ loaded_events self_name number 1 r.events)
          × (pass w none t ≡ some u)
          × (u.posted ≡ s.posted ++ map (file_start w) r.events)
    unfolding on_init load pass snapshot restart_failed receive
    on_init-pass data_ini default_ini w thread s b p idle =
        let (r, reads, kept) =
          read_ini_file-returns isspace y caps limits fresh (b, p) data_ini default_ini
            (record { state = parse_none; events = [] }) (tt, tt) in
        let t : SaceEvent = load self_name number r.events s in
        let (u, starts, posts) =
          start_lem w 1 r.events (record t { failed_events = [] }) kept.1
            (loaded-Ready 1 r.events) in
        (r, t, u, reads, simp (reads) refl, refl, simp (idle, starts) refl, posts)
