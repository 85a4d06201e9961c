-- ===== src/Ini/File.antt =====
-- `read_ini_file` of saced/SaceEvent.cpp: the event file through a buffer of 128 bytes.
use service_excutor.Prelude.{
  ℕ, zero, suc, Bool, true, false, [], ◌∷◌, ◌++◌, Option, none, some, Text, Map, length, nat_eqb,
  if◌then◌else◌, ◌>>=◌,
}
use service_excutor.Types.{SaceEventParams}
use service_excutor.Ini.Attributes.{Stream}
use service_excutor.Ini.Sections.{Reader, parse_event_from_ini}

-- What ended a `getline`: the newline, the end of the file, or a full buffer, which leaves the
-- stream failed.
pub data End : Type 0 where
  at_newline at_eof at_full : End

-- `istream::getline` with room for `n` characters: those it stored, and the file after them. The
-- end of the file is tested first, then the newline, then the room.
unfoldable pub getline : ℕ → Text → Text × Text × End
getline n [] = ([], [], at_eof)
getline zero (c ∷ s) = if nat_eqb c 10 then ([], s, at_newline) else ([], c ∷ s, at_full)
getline (suc n) (c ∷ s) =
    let (l, r, e) = getline n s in if nat_eqb c 10 then ([], s, at_newline) else (c ∷ l, r, e)

-- `sizeof(buf)` less the place of the NUL.
abbrev pub buf_room : ℕ
buf_room = 127

-- `line.assign(buf, conf_in.gcount())`: the newline counts, and the NUL stands in its place.
unfoldable pub assigned : Text × Text × End → Text
assigned (l, r, at_newline) = l ++ 0 ∷ []
assigned (l, r, at_eof) = l
assigned (l, r, at_full) = l

abbrev pub is_empty : Text → Bool
is_empty [] = true
is_empty (c ∷ s) = false

module _ (isspace : ℕ → Bool) (y : Stream) (caps limits : Map Text ℕ)
    (fresh : SaceEventParams) where
  -- A round of the loop after its `getline`. `next` is the round after it, which a failed stream
  -- does not reach.
  unfoldable pub read_round :
      (Text → Reader → Option Reader) → Text × Text × End → Reader → Option Reader
  unfolding assigned
  read_round next (l, s, at_newline) r =
      parse_event_from_ini isspace y caps limits fresh (assigned (l, s, at_newline)) r >>= next s
  read_round next (l, s, at_eof) r =
      if is_empty l
      then some r
      else parse_event_from_ini isspace y caps limits fresh (assigned (l, s, at_eof)) r
  read_round next (l, s, at_full) r =
      parse_event_from_ini isspace y caps limits fresh (assigned (l, s, at_full)) r

  -- The loop. Fuel for one round more than the file has characters is enough.
  unfoldable pub read_loop : ℕ → Text → Reader → Option Reader
  read_loop zero s r = none
  read_loop (suc n) s r = read_round (read_loop n) (getline buf_room s) r

  -- A file that cannot be opened is none. The event that the last lines began is finished by an
  -- empty line.
  unfoldable pub read_opened : Text → Reader → Option (Bool × Reader)
  read_opened s r = read_loop (suc (length s)) s r >>= λ t.
      parse_event_from_ini isspace y caps limits fresh [] t >>= λ u. some (true, u)

  unfoldable pub read_ini_file : Option Text → Option Text → Reader → Option (Bool × Reader)
  read_ini_file (some s) default_ini r = read_opened s r
  read_ini_file none (some s) r = read_opened s r
  read_ini_file none none r = some (false, r)
