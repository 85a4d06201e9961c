-- ===== src/Ini/Lines.antt =====
-- A file that is written line by line, as the reader of the event file is given it.
use service_excutor.Prelude.{
  ℕ, ◌≡◌, refl, not, ◌&&◌, Bool, true, List, [], ◌∷◌, ◌++◌, Text, Map, length, nat_eqb, leb, ◌>>=◌,
  All, map, append_assoc, arith, Option-cases, inl, inr,
}
use service_excutor.Types.{SaceEventParams}
use service_excutor.Ini.Attributes.{Stream}
use service_excutor.Ini.Sections.{Reader, parse_event_from_ini, parse_lines}
use service_excutor.Ini.File.{buf_room}
use service_excutor.Ini.Whole.{file_lines, readable}

-- The lines, each with a newline.
abbrev pub joined : List Text → Text
joined [] = []
joined (l ∷ ls) = l ++ 10 ∷ joined ls

-- What the reader is given for a line.
abbrev pub with_nul : Text → Text
with_nul l = l ++ 0 ∷ []

-- Without a newline.
abbrev unbroken : Text → Bool
unbroken [] = true
unbroken (c ∷ l) = not (nat_eqb c 10) && unbroken l

-- A line that the buffer has room for.
abbrev pub IsLine : Text → Type 0
IsLine l = (unbroken l && leb (length l) buf_room) ≡ true

pub joined-append : (ls ms : List Text) → joined (ls ++ ms) ≡ joined ls ++ joined ms
joined-append [] ms = refl
joined-append (l ∷ ls) ms = simp (joined-append ls ms, append_assoc) refl

first_line : (l s : Text) → unbroken l ≡ true → file_lines (l ++ 10 ∷ s) ≡ (l, true) ∷ file_lines s
first_line [] s a = refl
first_line (c ∷ l) s a = ground (arith, a, first_line l s)

pub readable-joined :
    (ls : List Text) → All IsLine ls → readable (file_lines (joined ls)) ≡ map with_nul ls
readable-joined [] a = refl
readable-joined (l ∷ ls) (h, a) =
    let whole : unbroken l ≡ true = ground (arith, h) in
    let fits : leb (length l) buf_room ≡ true = ground (arith, h) in
    rw (first_line l (joined ls) whole, fits, readable-joined ls a) refl

module _ (isspace : ℕ → Bool) (y : Stream) (caps limits : Map Text ℕ)
    (fresh : SaceEventParams) where
  pub parse_lines-append :
      (ls ms : List Text) (r : Reader)
      → parse_lines isspace y caps limits fresh (ls ++ ms) r ≡ (
          parse_lines isspace y caps limits fresh ls r
          >>= parse_lines isspace y caps limits fresh ms)
  unfolding parse_lines
  parse_lines-append [] ms r = refl
  parse_lines-append (l ∷ ls) ms r =
      elim (Option-cases (parse_event_from_ini isspace y caps limits fresh l r)) [
        | inl e ↦ simp (e) refl
        | inr (q, e) ↦ simp (e, parse_lines-append ls ms q) refl
      ]

  pub parse_lines-last :
      (ls : List Text) (l : Text) (r : Reader)
      → parse_lines isspace y caps limits fresh (ls ++ l ∷ []) r ≡ (
          parse_lines isspace y caps limits fresh ls r
          >>= parse_event_from_ini isspace y caps limits fresh l)
  unfolding parse_lines
  parse_lines-last [] l r =
      elim (Option-cases (parse_event_from_ini isspace y caps limits fresh l r)) [
        | inl e ↦ simp (e) refl
        | inr (q, e) ↦ simp (e) refl
      ]
  parse_lines-last (k ∷ ls) l r =
      elim (Option-cases (parse_event_from_ini isspace y caps limits fresh k r)) [
        | inl e ↦ simp (e) refl
        | inr (q, e) ↦ simp (e, parse_lines-last ls l q) refl
      ]
