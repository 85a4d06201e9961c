-- ===== src/Ini/Boot.antt =====
-- What the reading of the event file returns, and what the file can make of the boot trigger,
-- which a new event has.
use service_excutor.Prelude.{
  ℕ, ◌≡◌, refl, Bool, true, false, not, ◌||◌, List, [], ◌∷◌, ◌++◌, Option, none, some, Text, Map,
  text_key, insert, insert-Entries, Entries, ◌∙◌, Bool-cases, Option-cases, inl, inr, arith,
}
use service_excutor.Types.{SaceEventParams}
use service_excutor.Params.Parsing.{
  Trigger, on_property, on_boot, property_triggers, parse_event_params, add_property,
}
use service_excutor.Ini.Attributes.{
  Stream, property_attr, trigger_attr, one_word, limit_attr, tag_attr, parse_service_attr,
}
use service_excutor.Ini.Paired.{Paired, parse_total, words-Paired}
use service_excutor.Ini.Lexing.{
  after_cut, cut, trim_left, trim_right, TokenState, token_empty, token_text, token_err, next_token,
  trim_space_char,
}
use service_excutor.Ini.File.{read_ini_file}
use service_excutor.Ini.Whole.{read_whole, readable, file_lines, read_ini_file-parse_lines}
use service_excutor.Ini.Sections.{
  begin, Draft, ParseState, parse_none, parse_service, Reader, is_over, is_comment, finish,
  parse_line, parse_event_from_ini, parse_lines,
}

-- One of the triggers is a boot trigger that has not fired.
abbrev pub boots : List Trigger → Bool
boots [] = false
boots (on_property t ∷ ts) = boots ts
boots (on_boot t ∷ ts) = not t.has_triggered || boots ts

boots_last :
    (ts : List Trigger) → boots (ts ++ on_boot (record { has_triggered = false }) ∷ []) ≡ true
boots_last [] = refl
boots_last (on_property t ∷ ts) = boots_last ts
boots_last (on_boot t ∷ ts) = ground (arith, boots_last ts)

parse_boots :
    (p : SaceEventParams) (ts : List Trigger)
    → p.boot ≡ true
    → parse_event_params p ≡ some ts
    → boots ts ≡ true
unfolding parse_event_params
parse_boots p ts b e = elim (Option-cases (property_triggers p.property_key p.property_value)) [
  | inl f ↦ ground (arith, f, e)
  | inr (us, f) ↦ ground (arith, f, e, b, boots_last us)
]

property_boot : (s : Text) (p : SaceEventParams) → p.boot ≡ true → (property_attr s p).boot ≡ true
unfolding property_attr add_property
property_boot s p b = ground (arith, b)

trigger_boot : (s : Text) (p : SaceEventParams) → p.boot ≡ true → (trigger_attr s p).boot ≡ true
unfolding trigger_attr
trigger_boot s p b = ground (arith, b, property_boot s p)

tag_boot :
    (y : Stream) (caps limits : Map Text ℕ) (line tag : Text) (ss : List Text) (p : SaceEventParams)
    → p.boot ≡ true
    → (tag_attr y caps limits line tag ss p).boot ≡ true
unfolding tag_attr one_word limit_attr
tag_boot y caps limits line tag [] p b = ground (arith, b)
tag_boot y caps limits line tag (s ∷ ss) p b = ground (arith, b, trigger_boot s p)

words_boot :
    (y : Stream) (caps limits : Map Text ℕ) (line : Text) (ws : List Text) (p : SaceEventParams)
    → y.words line ≡ ws
    → p.boot ≡ true
    → (parse_service_attr y caps limits line p).boot ≡ true
unfolding parse_service_attr
words_boot y caps limits line [] p e b = ground (arith, e, b)
words_boot y caps limits line (tag ∷ ss) p e b =
    ground (arith, e, b, tag_boot y caps limits line tag ss p b)

-- The section that is read has the boot trigger and as many values as names, and every event that
-- was read has a boot trigger that has not fired.
abbrev Booting : ParseState → Type 0
Booting parse_none = Unit {0}
Booting (parse_service d) = (d.params.boot ≡ true) × Paired d.params

abbrev pub IsBooting : Reader → Type 0
IsBooting r = Booting r.state × Entries (λ name (d, ts). boots ts ≡ true) r.events

-- The file is there.
abbrev pub opens : Option Text → Bool
opens none = false
opens (some s) = true

-- The call returns, and what it returns is as above.
abbrev Kept : Option Reader → Type 0
Kept o = (t : Reader) × (o ≡ some t) × IsBooting t

-- Nothing, or it begins with a character that is no space.
abbrev IsTrimmed : (ℕ → Bool) → Text → Type 0
IsTrimmed isspace [] = Unit {0}
IsTrimmed isspace (c ∷ s) = isspace c ≡ false

module _ (isspace : ℕ → Bool) where
  trim_left-IsTrimmed : (s : Text) → IsTrimmed isspace (trim_left isspace s)
  unfolding trim_left
  trim_left-IsTrimmed [] = tt
  trim_left-IsTrimmed (c ∷ s) = elim (Bool-cases (isspace c)) [
    | inl e ↦ rw e (trim_left-IsTrimmed s)
    | inr e ↦ rw e e
  ]

  trim_right-IsTrimmed : (s : Text) → IsTrimmed isspace s → IsTrimmed isspace (trim_right isspace s)
  unfolding trim_right
  trim_right-IsTrimmed [] h = tt
  trim_right-IsTrimmed (c ∷ s) h = h

  trimmed : (s : Text) → IsTrimmed isspace (trim_space_char isspace s)
  unfolding trim_space_char
  trimmed s = trim_right-IsTrimmed (trim_left isspace s) (trim_left-IsTrimmed s)

  token_total :
      (s : Text)
      → is_over s ≡ false
      → IsTrimmed isspace s
      → (x : TokenState × Text × Text) × (next_token isspace s ≡ some x)
  unfolding next_token cut
  token_total [] o h = ground (arith, o)
  token_total (c ∷ s) o h = elim (Option-cases (cut isspace s)) [
    | inl e ↦ ((token_empty, [], []), ground (arith, e, h))
    | inr (t, e) ↦ (after_cut isspace (c ∷ t), ground (arith, e))
  ]

module _ (isspace : ℕ → Bool) (y : Stream) (caps limits : Map Text ℕ) (fresh : SaceEventParams)
    (f : (fresh.boot ≡ true) × Paired fresh) where
  finish_total :
      (s : ParseState) (m : Map Text (Draft × List Trigger))
      → IsBooting (record { state = s; events = m })
      → Kept (finish isspace y caps limits fresh (record { state = s; events = m }))
  unfolding finish
  finish_total parse_none m v = (record { state = parse_none; events = m }, refl, v)
  finish_total (parse_service d) m ((b, p), v) =
      let (ts, parsed) = parse_total d.params p in
      (
        record { state = parse_none; events = insert d.name (d, ts) m },
        simp (parsed) refl,
        (
          tt,
          insert-Entries (λ name (c, us). boots us ≡ true) d.name (d, ts) m
              (parse_boots d.params ts b parsed) v,
        ),
      )

  begin_boot :
      (r : Reader) (x : TokenState × Text × Text)
      → IsBooting r
      → IsBooting (begin isspace y caps limits fresh r x)
  begin_boot r (token_empty, line, name) v = v
  begin_boot r (token_err, line, name) v = v
  begin_boot r (token_text, [], name) v = v
  begin_boot r (token_text, c ∷ line, name) (b, v) = (f, v)

  line_total :
      (line : Text) (s : ParseState) (m : Map Text (Draft × List Trigger))
      → is_over line ≡ false
      → IsTrimmed isspace line
      → IsBooting (record { state = s; events = m })
      → Kept (parse_line isspace y caps limits fresh line (record { state = s; events = m }))
  unfolding parse_line
  line_total line parse_none m o h v =
      let r : Reader = record { state = parse_none; events = m } in
      let (x, e) = token_total isspace line o h in
      (begin isspace y caps limits fresh r x, simp (e) refl, begin_boot r x v)
  line_total line (parse_service d) m o h ((b, p), v) =
      let q = parse_service_attr y caps limits line d.params in
      (
        record { state = parse_service (record d { params = q }); events = m },
        refl,
        (
          (
            words_boot y caps limits line (y.words line) d.params refl b,
            words-Paired y caps limits line (y.words line) d.params refl p,
          ),
          v,
        ),
      )

  event_total :
      (l : Text) (r : Reader)
      → IsBooting r
      → Kept (parse_event_from_ini isspace y caps limits fresh l r)
  unfolding parse_event_from_ini
  event_total l r v =
      let line = trim_space_char isspace l in
      elim (Bool-cases (is_over line)) [
        | inl o ↦ rw o (finish_total r.state r.events v)
        | inr o ↦ elim (Bool-cases (is_comment line)) [
          | inl c ↦ rw (o, c) (r, refl, v)
          | inr c ↦ rw (o, c) (line_total line r.state r.events o (trimmed isspace l) v)
        ]
      ]

  lines_total :
      (ls : List Text) (r : Reader)
      → IsBooting r
      → Kept (parse_lines isspace y caps limits fresh ls r)
  unfolding parse_lines
  lines_total [] r v = (r, refl, v)
  lines_total (l ∷ ls) r v =
      let (q, e, w) = event_total l r v in
      let (t, g, u) = lines_total ls q w in (t, simp (e, g) refl, u)

  whole_total :
      (s : Text) (r : Reader)
      → IsBooting r
      → (t : Reader) × (read_whole isspace y caps limits fresh s r ≡ some (true, t)) × IsBooting t
  whole_total s r v =
      let (q, e, w) = lines_total (readable (file_lines s)) r v in
      let (t, g, u) = event_total [] q w in (t, simp (e, g) refl, u)

  -- New parameters and the reader have the boot trigger and as many values as names: the reading of
  -- the files returns, whatever they hold. It says whether one of them could be opened, and every
  -- event that was read has a boot trigger that has not fired.
  pub read_ini_file-returns :
      (data_ini default_ini : Option Text) (r : Reader)
      → IsBooting r
      → (t : Reader) × (read_ini_file isspace y caps limits fresh data_ini default_ini r
          ≡ some (opens data_ini || opens default_ini, t))
        × IsBooting t
  read_ini_file-returns (some s) default_ini r v =
      let (first, second, third) =
        read_ini_file-parse_lines isspace y caps limits fresh s default_ini r in
      let (t, e, w) = whole_total s r v in (t, first ∙ e, w)
  read_ini_file-returns none (some s) r v =
      let (first, second, third) = read_ini_file-parse_lines isspace y caps limits fresh s none r in
      let (t, e, w) = whole_total s r v in (t, second ∙ e, w)
  read_ini_file-returns none none r v =
      let (first, second, third) =
        read_ini_file-parse_lines isspace y caps limits fresh [] none r in
      (r, third, v)
