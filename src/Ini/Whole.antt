-- ===== src/Ini/Whole.antt =====
-- The reading of the event file against the lines of the file.
use service_excutor.Prelude.{
  ℕ, zero, suc, ◌<◌, ◌≤◌, ◌≡◌, refl, Bool, true, false, List, [], ◌∷◌, ◌++◌, Option, none, some,
  Text, Map, length, take, nat_eqb, leb, if◌then◌else◌, ◌>>=◌, Bool-cases, Option-cases, inl, inr,
  arith,
}
use service_excutor.Types.{SaceEventParams}
use service_excutor.Ini.Attributes.{Stream}
use service_excutor.Ini.Sections.{Reader, parse_event_from_ini, parse_lines}
use service_excutor.Ini.File.{
  End, at_newline, at_eof, at_full, getline, buf_room, assigned, read_round, read_loop, read_opened,
  read_ini_file,
}

-- A line, and whether a newline ends it.
abbrev pub Line : Type 0
Line = Text × Bool

abbrev longer : ℕ → List Line → List Line
longer c [] = (c ∷ [], false) ∷ []
longer c ((l, b) ∷ ls) = (c ∷ l, b) ∷ ls

-- The file split at its newlines.
abbrev pub file_lines : Text → List Line
file_lines [] = []
file_lines (c ∷ s) = if nat_eqb c 10 then ([], true) ∷ file_lines s else longer c (file_lines s)

-- A line as the reader is given it.
abbrev given : Line → Text
given (l, true) = l ++ 0 ∷ []
given (l, false) = l

-- The lines up to the first that is longer than the buffer has room for, and of that one what the
-- buffer holds.
abbrev pub readable : List Line → List Text
readable [] = []
readable ((l, b) ∷ ls) =
    if leb (length l) buf_room then given (l, b) ∷ readable ls else take buf_room l ∷ []

-- What a `getline` took of the lines.
data Took (n : ℕ) (s : Text) : Text × Text × End → Type 0 where
  whole :
      {l r : Text}
      → file_lines s ≡ (l, true) ∷ file_lines r
      → length l ≤ n
      → length r < length s
      → Took n s (l, r, at_newline)
  nothing : {r : Text} → file_lines s ≡ [] → Took n s ([], r, at_eof)
  last :
      {c : ℕ} {l r : Text}
      → file_lines s ≡ (c ∷ l, false) ∷ []
      → length (c ∷ l) ≤ n
      → Took n s (c ∷ l, r, at_eof)
  part :
      {l r : Text} (k : Text) (b : Bool) (ls : List Line)
      → file_lines s ≡ (k, b) ∷ ls
      → take n k ≡ l
      → n < length k
      → Took n s (l, r, at_full)

longer_lem :
    (c : ℕ) (s : Text)
    → (k : Text) × (b : Bool) × (ls : List Line) × (longer c (file_lines s) ≡ (c ∷ k, b) ∷ ls)
longer_lem c s = go c (file_lines s)
  where
    go :
        (c : ℕ) (ls : List Line)
        → (k : Text) × (b : Bool) × (ms : List Line) × (longer c ls ≡ (c ∷ k, b) ∷ ms)
    go c [] = ([], false, [], refl)
    go c ((l, b) ∷ ls) = (l, b, ls, refl)

longer_Took :
    (n c : ℕ) (s : Text) (g : Text × Text × End)
    → nat_eqb c 10 ≡ false
    → Took n s g
    → Took (suc n) (c ∷ s) (c ∷ g.0, g.1, g.2)
longer_Took n c s (l, r, at_newline) d (whole e h f) =
    whole (ground (arith, e)) (omega (arith, h)) (omega (arith, f))
longer_Took n c s (l, r, at_eof) d (nothing e) = last (ground (arith, e)) (omega arith)
longer_Took n c s (l, r, at_eof) d (last e h) = last (ground (arith, e)) (omega (arith, h))
longer_Took n c s (l, r, at_full) d (part k b ls e t h) =
    part (c ∷ k) b ls (ground (arith, e)) (ground (arith, t)) (omega (arith, h))

getline_lem : (n : ℕ) (s : Text) → Took n s (getline n s)
unfolding getline
getline_lem n [] = nothing refl
getline_lem zero (c ∷ s) = elim (Bool-cases (nat_eqb c 10)) [
  | inl e ↦ rw e (whole (ground (arith, e)) (omega arith) (omega arith))
  | inr d ↦
      let (k, b, ls, e) = longer_lem c s in
      rw d (part (c ∷ k) b ls (ground (arith, d, e)) refl (omega arith))
]
getline_lem (suc n) (c ∷ s) = elim (Bool-cases (nat_eqb c 10)) [
  | inl e ↦ rw e (whole (ground (arith, e)) (omega arith) (omega arith))
  | inr d ↦ rw d (longer_Took n c s (getline n s) d (getline_lem n s))
]

leb_of_le : (a b : ℕ) → a ≤ b → leb a b ≡ true
leb_of_le a b h = ground (arith, h)

leb_of_lt : (a b : ℕ) → b < a → leb a b ≡ false
leb_of_lt a b h = ground (arith, h)

module _ (isspace : ℕ → Bool) (y : Stream) (caps limits : Map Text ℕ)
    (fresh : SaceEventParams) where
  round_lem :
      (n : ℕ) (s : Text) (r : Reader) (g : Text × Text × End)
      → Took buf_room s g
      → ((t : Text) (q : Reader)
          → length t < length s
          → read_loop isspace y caps limits fresh n t q
            ≡ parse_lines isspace y caps limits fresh (readable (file_lines t)) q)
      → read_round isspace y caps limits fresh (read_loop isspace y caps limits fresh n) g r
        ≡ parse_lines isspace y caps limits fresh (readable (file_lines s)) r
  unfolding read_round assigned parse_lines
  round_lem n s r (l, t, at_newline) (whole e h f) more =
      let fits : leb (length l) buf_room ≡ true = leb_of_le (length l) buf_room h in
      elim (Option-cases (parse_event_from_ini isspace y caps limits fresh (l ++ 0 ∷ []) r)) [
        | inl lost ↦ simp (e, fits, lost) refl
        | inr (q, done) ↦ simp (e, fits, done, more t q f) refl
      ]
  round_lem n s r (l, t, at_eof) (nothing e) more = rw e refl
  round_lem n s r (c ∷ l, t, at_eof) (last e h) more =
      let fits : leb (length (c ∷ l)) buf_room ≡ true = leb_of_le (length (c ∷ l)) buf_room h in
      elim (Option-cases (parse_event_from_ini isspace y caps limits fresh (c ∷ l) r)) [
        | inl lost ↦ simp (e, fits, lost) refl
        | inr (q, done) ↦ simp (e, fits, done) refl
      ]
  round_lem n s r (l, t, at_full) (part k b ls e same h) more =
      let long : leb (length k) buf_room ≡ false = leb_of_lt (length k) buf_room h in
      elim (Option-cases (parse_event_from_ini isspace y caps limits fresh l r)) [
        | inl lost ↦ simp (e, long, same, lost) refl
        | inr (q, done) ↦ simp (e, long, same, done) refl
      ]

  loop_lem :
      (n : ℕ) (s : Text) (r : Reader)
      → length s < n
      → read_loop isspace y caps limits fresh n s r
        ≡ parse_lines isspace y caps limits fresh (readable (file_lines s)) r
  unfolding read_loop
  loop_lem zero s r h = ground arith
  loop_lem (suc n) s r h =
      round_lem n s r (getline buf_room s) (getline_lem buf_room s)
        (λ t q f. loop_lem n t q (omega (arith, h, f)))

  -- The calls for the lines, and the one that finishes the last event.
  abbrev pub read_whole : Text → Reader → Option (Bool × Reader)
  read_whole s r = parse_lines isspace y caps limits fresh (readable (file_lines s)) r >>= λ t.
      parse_event_from_ini isspace y caps limits fresh [] t >>= λ u. some (true, u)

  -- Whatever the file holds, reading it returns what the calls for its lines return, each with a
  -- NUL where the newline was and the last one without if no newline ends it, and at last the call
  -- for an empty line; but a line of more than 127 characters is cut there, and nothing that
  -- follows it is read. The first of the two files that opens is read, and without one the reader
  -- stays as it is.
  pub read_ini_file-parse_lines :
      (s : Text) (other : Option Text) (r : Reader)
      → (read_ini_file isspace y caps limits fresh (some s) other r ≡ read_whole s r)
        × (read_ini_file isspace y caps limits fresh none (some s) r ≡ read_whole s r)
        × (read_ini_file isspace y caps limits fresh none none r ≡ some (false, r))
  unfolding read_ini_file read_opened
  read_ini_file-parse_lines s other r =
      let e = loop_lem (suc (length s)) s r (omega arith) in (simp (e) refl, simp (e) refl, refl)
