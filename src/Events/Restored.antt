-- ===== src/Events/Restored.antt =====
-- The events that are saved, and read again when the daemon starts.
use service_excutor.Prelude.{
  ℕ, ◌≡◌, refl, sym, ◌∙◌, ap, Bool, true, false, ◌||◌, List, [], ◌∷◌, ◌++◌, Option, some, Text, Map,
  nat_key, text_key, insert, nat_eqb, All, map, map-append, arith,
}
use service_excutor.Types.{SaceEventParams, SaceCommandParams, c_str}
use service_excutor.Params.Parsing.{
  Trigger, on_boot, trigger_for, parse_event_params, parse-add_properties,
}
use service_excutor.Ini.Attributes.{Stream}
use service_excutor.Ini.Lexing.{
  is_blank, is_quote, next_token, next_token_drops, trim_space_char, trim_left, trim_right,
  trim_end, token_text,
}
use service_excutor.Ini.Sections.{
  Draft, Reader, parse_none, parse_lines, parse_event_from_ini, attributes, is_over, parse-section,
  finish,
}
use service_excutor.Ini.File.{read_ini_file}
use service_excutor.Ini.Whole.{read_ini_file-parse_lines}
use service_excutor.Ini.Lines.{
  joined, with_nul, readable-joined, parse_lines-append, parse_lines-last,
}
use service_excutor.Events.State.{Event, SaceEvent, World}
use service_excutor.Events.Saving.{write_stream, write_ini_file}
use service_excutor.Events.AttributeLines.{
  saved_pairs, identified, restored, SplitsTrigger, SplitsIdentity, Letters, attributes-restored,
  trim-word, identity_texts-Attribute,
}
use service_excutor.Events.Written.{
  first_text, attribute_texts, event_texts, Stands, all_texts, all_texts-IsLine, ini_text-joined,
}

module _ (isspace : ℕ → Bool) (blank : isspace 32 ≡ true) (nul : isspace 0 ≡ false)
    (letters : Letters isspace blank nul) (z : Stream) (caps limits : Map Text ℕ)
    (fresh : SaceEventParams) where
  -- The reader takes the lines for what they are.
  pub record IsReadable (e : Event) (p : SaceCommandParams) : Type 0 where
    pub head : ℕ
    pub tail : Text
    pub is_name : c_str e.cmd.name ≡ head ∷ tail
    pub begins : isspace head ≡ false
    pub is_event : nat_eqb head 35 ≡ false
    pub is_word : All (λ c. (is_blank c || is_quote c) ≡ false) (head ∷ tail)
    pub identity : SplitsIdentity isspace blank nul letters z caps limits fresh p
    pub triggers : All (SplitsTrigger z) e.triggers

  -- What is read for an event.
  abbrev pub restored_event : Event → SaceCommandParams → Draft × List Trigger
  restored_event e p = (
    record {
      name = c_str e.cmd.name;
      command = 32 ∷ c_str e.cmd.command;
      params = restored fresh p e.triggers;
    },
    map trigger_for (saved_pairs e.triggers) ++ on_boot (record { has_triggered = false }) ∷ [],
  )

  long_lem : (c : ℕ) (s t : Text) → is_over (c ∷ ((s ++ 32 ∷ t) ++ 0 ∷ [])) ≡ false
  long_lem c [] t = refl
  long_lem c (d ∷ s) t = refl

  end_lem : is_over (trim_space_char isspace (0 ∷ [])) ≡ true
  unfolding trim_space_char trim_left trim_right trim_end
  end_lem = rw nul refl

  restored_lem :
      (p : SaceCommandParams) (ts : List Trigger)
      → fresh.boot ≡ true
      → fresh.property_key ≡ []
      → fresh.property_value ≡ []
      → parse_event_params (restored fresh p ts)
        ≡ some (map trigger_for (saved_pairs ts) ++ on_boot (record { has_triggered = false }) ∷ [])
  restored_lem p ts b nk nv =
      parse-add_properties (saved_pairs ts) (identified p fresh) nk nv ∙ rw b refl

  event_lem :
      (e : Event) (p : SaceCommandParams) (r : Reader)
      → IsReadable e p
      → fresh.boot ≡ true
      → fresh.property_key ≡ []
      → fresh.property_value ≡ []
      → r.state ≡ parse_none
      → (t : Reader) × (parse_lines isspace z caps limits fresh (map with_nul (event_texts e p)) r
          ≡ some t)
        × (t.state ≡ parse_none)
        × (t.events ≡ insert (c_str e.cmd.name) (restored_event e p) r.events)
  event_lem e p r v b nk nv st =
      let header = with_nul (first_text e) in
      let ls = map with_nul (attribute_texts e p) in
      let made =
        attributes-restored isspace blank nul letters z caps limits fresh p e.triggers v.identity
          v.triggers b in
      let ts =
        map trigger_for (saved_pairs e.triggers)
        ++ on_boot (record { has_triggered = false }) ∷ [] in
      let word = trim-word isspace blank nul v.head (v.tail ++ 32 ∷ c_str e.cmd.command) v.begins in
      let found : trim_space_char isspace header
          ≡ ((v.head ∷ v.tail) ++ 32 ∷ c_str e.cmd.command) ++ 0 ∷ [] =
        rw (v.is_name) word in
      let params : parse_event_params (attributes isspace z caps limits fresh ls fresh) ≡ some ts =
        ap parse_event_params made ∙ restored_lem p e.triggers b nk nv in
      let (t, runs, idle, same) =
        parse-section isspace z caps limits fresh ls header (0 ∷ []) (c_str e.cmd.name) 32
          (c_str e.cmd.command) r ts
          (rw found (long_lem v.head v.tail (c_str e.cmd.command), v.is_event))
          (ap (next_token isspace) found
            ∙ next_token_drops isspace v.head v.tail (c_str e.cmd.command) 32 0 refl nul v.is_word
            ∙ ap (λ n. some (token_text, 32 ∷ c_str e.cmd.command, n)) (sym v.is_name))
          (identity_texts-Attribute isspace blank nul letters z caps limits fresh p e.triggers)
          end_lem st params in
      (
        t,
        ap (λ l. parse_lines isspace z caps limits fresh l r)
              (ap (◌∷◌ header) (map-append with_nul (attribute_texts e p) ([] ∷ [])))
            ∙ parse_lines-last isspace z caps limits fresh (header ∷ ls) (0 ∷ []) r
            ∙ runs,
        idle,
        same
            ∙ ap
                (λ q.
                  insert (c_str e.cmd.name)
                    (
                      record {
                        name = c_str e.cmd.name;
                        command = 32 ∷ c_str e.cmd.command;
                        params = q;
                      },
                      ts,
                    )
                    r.events)
                made,
      )

  end_call :
      (r : Reader)
      → r.state ≡ parse_none
      → parse_event_from_ini isspace z caps limits fresh [] r ≡ some r
  unfolding parse_event_from_ini trim_space_char trim_left trim_right finish
  end_call r idle = rw (idle) refl

  -- The same of each of the events.
  abbrev pub AllReadable : List (Event × SaceCommandParams) → Type 0
  AllReadable [] = Unit {0}
  AllReadable ((e, p) ∷ es) = IsReadable e p × AllReadable es

  -- What is read for the events, under their names.
  abbrev pub restored_events :
      List (Event × SaceCommandParams)
      → Map Text (Draft × List Trigger)
      → Map Text (Draft × List Trigger)
  restored_events [] m = m
  restored_events ((e, p) ∷ es) m =
      restored_events es (insert (c_str e.cmd.name) (restored_event e p) m)

  events_lem :
      (es : List (Event × SaceCommandParams)) (r : Reader)
      → AllReadable es
      → fresh.boot ≡ true
      → fresh.property_key ≡ []
      → fresh.property_value ≡ []
      → r.state ≡ parse_none
      → (t : Reader) × (parse_lines isspace z caps limits fresh (map with_nul (all_texts es)) r
          ≡ some t)
        × (t.state ≡ parse_none)
        × (t.events ≡ restored_events es r.events)
  unfolding parse_lines
  events_lem [] r v b nk nv st = (r, refl, st, refl)
  events_lem ((e, p) ∷ es) r (v, vs) b nk nv st =
      let (q, runs, idle, same) = event_lem e p r v b nk nv st in
      let (t, more, done, rest) = events_lem es q vs b nk nv idle in
      let split =
        ap (λ l. parse_lines isspace z caps limits fresh l r)
          (map-append with_nul (event_texts e p) (all_texts es)) in
      (
        t,
        split
            ∙ parse_lines-append isspace z caps limits fresh (map with_nul (event_texts e p))
                (map with_nul (all_texts es)) r
            ∙ simp (runs, more) refl,
        done,
        rest ∙ ap (restored_events es) same,
      )

  -- For isspace the blank is a space, the NUL and the first letters of the tags are none. The file
  -- can be written, the events have parameters that set a user, a group and a label at most, with
  -- lines that hold no newline and fit the buffers of the writer and of the reader, their names are
  -- words without quotes that begin no comment, the names of their properties have no equal sign,
  -- the stream takes each line of an attribute apart into its tag and one word, and new parameters
  -- have the boot trigger alone: the file that is written is
  -- read to its end, and the events are inserted under their names one after the other, as they
  -- stand in the file. The command of each has a blank before it, user, group and label have a NUL
  -- after them, the names of its properties have a colon before them and the values an equal sign,
  -- with a NUL at their end; and whatever its triggers were, it has one boot trigger, which is the
  -- last and has not fired.
  pub read-write_ini_file :
      (y : World) (s : SaceEvent) (es : List (Event × SaceCommandParams))
      (default_ini : Option Text)
      → y.opens ≡ true
      → y.streams ≡ true
      → Stands s.heap s.events es
      → AllReadable es
      → fresh.boot ≡ true
      → fresh.property_key ≡ []
      → fresh.property_value ≡ []
      → (t : SaceEvent) × (r : Reader) × (write_ini_file y s ≡ some t)
        × (read_ini_file isspace z caps limits fresh
              (some t.ini_file)
              default_ini
              (record { state = parse_none; events = [] })
            ≡ some (true, r))
        × (r.events ≡ restored_events es [])
  unfolding write_ini_file write_stream
  read-write_ini_file y s es default_ini opens streams v w b nk nv =
      let text = joined (all_texts es) in
      let t : SaceEvent = record s { ini_file = text } in
      let start : Reader = record { state = parse_none; events = [] } in
      let (q, runs, idle, same) = events_lem es start w b nk nv refl in
      let (first, second, third) =
        read_ini_file-parse_lines isspace z caps limits fresh text default_ini start in
      let written = ini_text-joined y s.heap s.events es v in
      let lines = readable-joined (all_texts es) (all_texts-IsLine s.heap s.events es v) in
      (
        t,
        q,
        ground (arith, opens, streams, written),
        first ∙ rw (lines, runs) (rw (end_call q idle) refl),
        same,
      )
