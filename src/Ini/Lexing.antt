-- ===== src/Ini/Lexing.antt =====
-- A line as the bytes that `getline` counted: with its NUL, unless the file ends without a newline.
-- `isspace` is the C library's.
use service_excutor.Prelude.{
  ℕ, ◌≡◌, refl, Bool, true, false, ◌||◌, [], ◌∷◌, ◌++◌, Option, none, some, Text, length, drop, All,
  nat_eqb, if◌then◌else◌, arith, inl, inr, ◌⊎◌, ap, ◌∙◌,
}

pub data TokenState : Type 0 where
  token_empty token_text token_err : TokenState

abbrev pub is_quote : ℕ → Bool
is_quote c = nat_eqb c 34

-- Tab, space or newline.
abbrev pub is_blank : ℕ → Bool
is_blank c = nat_eqb c 9 || (nat_eqb c 32 || nat_eqb c 10)

-- The loop over the line. It never gets past an opening quote, so each quote is pushed twice.
unfoldable pub scan : Text → Text
scan [] = []
scan (c ∷ s) =
    let rest = scan s in if is_quote c then c ∷ c ∷ rest else if is_blank c then [] else c ∷ rest

module _ (isspace : ℕ → Bool) where
  -- `line.erase(j, …)` for the last `j` with a character that is no space; without one, `erase`
  -- throws.
  unfoldable pub cut : Text → Option Text
  cut [] = none
  cut (c ∷ s) = elim (cut s) [ some t ↦ some (c ∷ t) | none ↦ if isspace c then none else some [] ]

  abbrev pub after_cut : Text → TokenState × Text × Text
  after_cut [] = (token_empty, [], [])
  after_cut (c ∷ s) = let str = scan (c ∷ s) in (token_text, drop (length str) (c ∷ s), str)

  -- The state, the line and the token after the call.
  unfoldable pub next_token : Text → Option (TokenState × Text × Text)
  unfolding cut
  next_token line = elim (cut line) [ none ↦ none | some l ↦ some (after_cut l) ]

  unfoldable pub trim_left : Text → Text
  trim_left [] = []
  trim_left (c ∷ s) = if isspace c then trim_left s else c ∷ s

  unfoldable pub trim_end : Text → Text
  trim_end [] = []
  trim_end (c ∷ s) = elim (trim_end s) [ [] ↦ if isspace c then [] else c ∷ [] | d ∷ t ↦ c ∷ d ∷ t ]

  -- The second loop stops at the first character.
  unfoldable pub trim_right : Text → Text
  unfolding trim_end
  trim_right [] = []
  trim_right (c ∷ s) = c ∷ trim_end s

  unfoldable pub trim_space_char : Text → Text
  trim_space_char line = trim_right (trim_left line)

  cut_lem : (s : Text) (last : ℕ) → isspace last ≡ false → cut (s ++ last ∷ []) ≡ some s
  unfolding cut
  cut_lem [] last e = ground arith
  cut_lem (c ∷ s) last e = ground (arith, cut_lem s last e)

  scan_lem :
      (word rest : Text) (blank : ℕ)
      → is_blank blank ≡ true
      → All (λ c. (is_blank c || is_quote c) ≡ false) word
      → scan (word ++ blank ∷ rest) ≡ word
  unfolding scan
  scan_lem [] rest blank b a = ground arith
  scan_lem (c ∷ word) rest blank b (p, a) = ground (arith, scan_lem word rest blank b a)

  drop_lem : (s t : Text) → drop (length s) (s ++ t) ≡ t
  drop_lem [] t = refl
  drop_lem (c ∷ s) t = drop_lem s t

  -- A line that begins with a word without blanks and quotes, then has a blank, and ends with a
  -- character that is no space: the token is the word, and the line that is left begins with the
  -- blank and lacks the last character, whether this is the NUL or a character of the text.
  pub next_token_drops :
      (c : ℕ) (word rest : Text) (blank last : ℕ)
      → is_blank blank ≡ true
      → isspace last ≡ false
      → All (λ c. (is_blank c || is_quote c) ≡ false) (c ∷ word)
      → next_token (((c ∷ word) ++ blank ∷ rest) ++ last ∷ [])
        ≡ some (token_text, blank ∷ rest, c ∷ word)
  unfolding next_token
  next_token_drops c word rest blank last b e a =
      rw
        (
          cut_lem ((c ∷ word) ++ blank ∷ rest) last e,
          scan_lem (c ∷ word) rest blank b a,
          drop_lem (c ∷ word) (blank ∷ rest),
        )
        refl

  trim_end_idem : (s : Text) → trim_end (trim_end s) ≡ trim_end s
  unfolding trim_end
  trim_end_idem [] = refl
  trim_end_idem (c ∷ s) = elim (list_cases (trim_end s)) [
    | inl e ↦ ground arith
    | inr (d, t, e) ↦ ground (arith, trim_end_idem s)
  ]
    where
      list_cases : (l : Text) → (l ≡ []) ⊎ ((d : ℕ) × (t : Text) × (l ≡ d ∷ t))
      list_cases [] = inl refl
      list_cases (d ∷ t) = inr (d, t, refl)

  trim_left_fixed : (s : Text) → trim_left (trim_right (trim_left s)) ≡ trim_right (trim_left s)
  unfolding trim_left trim_right
  trim_left_fixed [] = refl
  trim_left_fixed (c ∷ s) = ground (arith, trim_left_fixed s)

  trim_right_idem : (s : Text) → trim_right (trim_right s) ≡ trim_right s
  unfolding trim_right
  trim_right_idem [] = refl
  trim_right_idem (c ∷ s) = ground (arith, trim_end_idem s)

  -- Trimming a trimmed line changes nothing.
  pub trim_space_char_idem :
      (line : Text) → trim_space_char (trim_space_char line) ≡ trim_space_char line
  unfolding trim_space_char
  trim_space_char_idem line =
      ap trim_right (trim_left_fixed line) ∙ trim_right_idem (trim_left line)
