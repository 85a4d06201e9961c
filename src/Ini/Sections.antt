-- ===== src/Ini/Sections.antt =====
-- `parse_event_from_ini` of saced/SaceEvent.cpp: the lines of the event file, one call for each.
use service_excutor.Prelude.{
  ℕ, ◌≡◌, refl, Bool, true, false, List, [], ◌∷◌, Option, some, Text, Map, insert, text_key,
  nat_eqb, if◌then◌else◌, arith, ◌>>=◌, All,
}
use service_excutor.Types.{SaceEventParams}
use service_excutor.Params.Parsing.{Trigger, parse_event_params}
use service_excutor.Ini.Lexing.{
  TokenState, token_empty, token_text, token_err, trim_space_char, next_token,
}
use service_excutor.Ini.Attributes.{Stream, parse_service_attr}

-- What the file sets of `parse_command`.
pub record Draft : Type 0 where
  pub name : Text
  pub command : Text
  pub params : SaceEventParams

-- `parse_state`, with `parse_command` where there is one.
pub data ParseState : Type 0 where
  parse_none : ParseState
  parse_service : Draft → ParseState

pub record Reader : Type 0 where
  pub state : ParseState
  pub events : Map Text (Draft × List Trigger)

-- Nothing, or the NUL alone.
abbrev pub is_over : Text → Bool
is_over [] = true
is_over (c ∷ []) = nat_eqb c 0
is_over (c ∷ d ∷ s) = false

abbrev pub is_comment : Text → Bool
is_comment [] = false
is_comment (c ∷ s) = nat_eqb c 35

module _ (isspace : ℕ → Bool) (y : Stream) (caps limits : Map Text ℕ)
    (fresh : SaceEventParams) where
  -- The end of a section.
  unfoldable pub finish : Reader → Option Reader
  finish r = elim r.state [
    | parse_none ↦ some r
    | parse_service d ↦ parse_event_params d.params >>= λ ts.
        some (record { state = parse_none; events = insert d.name (d, ts) r.events })
  ]

  abbrev pub begin : Reader → TokenState × Text × Text → Reader
  begin r (token_empty, line, name) = r
  begin r (token_err, line, name) = r
  begin r (token_text, [], name) = r
  begin r (token_text, c ∷ line, name) = record r {
    state = parse_service (record { name = name; command = c ∷ line; params = fresh });
  }

  -- A line that is neither empty nor a comment.
  unfoldable pub parse_line : Text → Reader → Option Reader
  parse_line line r = elim r.state [
    | parse_none ↦ next_token isspace line >>= λ t. some (begin r t)
    | parse_service d ↦ some (record r {
      state = parse_service (record d { params = parse_service_attr y caps limits line d.params });
    })
  ]

  unfoldable pub parse_event_from_ini : Text → Reader → Option Reader
  parse_event_from_ini line_token r =
      let line = trim_space_char isspace line_token in
      if is_over line then finish r else if is_comment line then some r else parse_line line r

  -- The calls for the lines of a file.
  unfoldable pub parse_lines : List Text → Reader → Option Reader
  parse_lines [] r = some r
  parse_lines (l ∷ ls) r = parse_event_from_ini l r >>= parse_lines ls

  abbrev pub Attribute : Text → Type 0
  Attribute l =
      (is_over (trim_space_char isspace l) ≡ false)
      × (is_comment (trim_space_char isspace l) ≡ false)

  -- The parameters after the attributes, the first one first.
  unfoldable pub attributes : List Text → SaceEventParams → SaceEventParams
  attributes [] p = p
  attributes (l ∷ ls) p =
      attributes ls (parse_service_attr y caps limits (trim_space_char isspace l) p)

  section_lem :
      (ls : List Text) (end : Text) (d : Draft) (r : Reader) (ts : List Trigger)
      → All Attribute ls
      → is_over (trim_space_char isspace end) ≡ true
      → r.state ≡ parse_service d
      → parse_event_params (attributes ls d.params) ≡ some ts
      → (t : Reader) × (parse_lines ls r >>= parse_event_from_ini end ≡ some t)
        × (t.state ≡ parse_none)
        × (t.events ≡ insert d.name (record d { params = attributes ls d.params }, ts) r.events)
  unfolding parse_lines parse_event_from_ini finish parse_line attributes
  section_lem [] end d r ts a over st e = (
    record { state = parse_none; events = insert d.name (d, ts) r.events },
    ground arith,
    refl,
    refl,
  )
  section_lem (l ∷ ls) end d r ts ((o, c), a) over st e =
      let d' : Draft = record d {
        params = parse_service_attr y caps limits (trim_space_char isspace l) d.params;
      } in
      let (t, run_t, idle, same) =
        section_lem ls end d' (record r { state = parse_service d' }) ts a over refl e in
      (t, ground (arith, run_t), idle, same)

  -- A section of the file, with its first line, attributes that are neither empty nor comments,
  -- and an empty line at its end: the reader adds one event, under the token of the first line,
  -- with the rest of that line as its command and the attributes applied in their order, and is
  -- ready for the next section; an event of that name that is there stays.
  pub parse-section :
      (ls : List Text) (header end name : Text) (c : ℕ) (command : Text) (r : Reader)
      (ts : List Trigger)
      → Attribute header
      → next_token isspace (trim_space_char isspace header) ≡ some (token_text, c ∷ command, name)
      → All Attribute ls
      → is_over (trim_space_char isspace end) ≡ true
      → r.state ≡ parse_none
      → parse_event_params (attributes ls fresh) ≡ some ts
      → (t : Reader) × (parse_lines (header ∷ ls) r >>= parse_event_from_ini end ≡ some t)
        × (t.state ≡ parse_none)
        × (t.events
            ≡ insert name
                (record { name = name; command = c ∷ command; params = attributes ls fresh }, ts)
                r.events)
  unfolding parse_lines parse_event_from_ini parse_line
  parse-section ls header end name c command r ts (o, k) token a over st e =
      let d : Draft = record { name = name; command = c ∷ command; params = fresh } in
      let (t, run_t, idle, same) =
        section_lem ls end d (record r { state = parse_service d }) ts a over refl e in
      (t, ground (arith, run_t, token, o, k, st), idle, same)
