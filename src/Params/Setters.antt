-- ===== src/Params/Setters.antt =====
-- The setters of `SaceCommandParams` and `SaceEventParams` in libsace/include/sace/SaceParams.h, and
-- what `parseCommandParams` makes of them at the daemon.
use service_excutor.Prelude.{
  ℕ, ◌%◌, ◌^◌, ◌<◌, ◌≡◌, refl, Bool, true, false, List, [], ◌∷◌, ◌++◌, Option, none, some, Text,
  arith,
}
use service_excutor.Types.{SaceCommandParams, SaceEventParams}
use service_excutor.Params.Parsing.{
  Library, decode_uid, parse_groups, parse_command_params, limit_text,
}

-- `show` is `to_string` of the C++ library.
module _ (show : ℕ → Text) where
  unfoldable pub set_uid : ℕ → SaceCommandParams → SaceCommandParams
  set_uid n p = record p { uid = show n }

  unfoldable pub set_gid : ℕ → SaceCommandParams → SaceCommandParams
  set_gid n p = record p { gid = show n }

  unfoldable pub add_gids : ℕ → SaceCommandParams → SaceCommandParams
  add_gids n p = record p { supp_gids = p.supp_gids ++ show n ∷ [] }

  unfoldable pub set_seclabel : Text → SaceCommandParams → SaceCommandParams
  set_seclabel s p = record p { seclabel = s }

  unfoldable pub add_rlimits : (rlimit soft hard : ℕ) → SaceCommandParams → SaceCommandParams
  unfolding limit_text
  add_rlimits rlimit soft hard p = record p {
    rlimits = p.rlimits ++ limit_text show rlimit soft hard ∷ [];
  }

  unfoldable pub set_boot : Bool → SaceEventParams → SaceEventParams
  set_boot b p = record p { boot = b }

  -- Numbers are printed so that `strtoul` reads them, with a first character that is no letter.
  pub record IsShown (y : Library) (n : ℕ) : Type 0 where
    pub first : ℕ
    pub rest : Text
    pub shown : show n ≡ first ∷ rest
    pub no_letter : y.isalpha first ≡ false
    pub reads : y.strtoul (first ∷ rest) ≡ (n, false)

  decode_lem :
      (y : Library) (n : ℕ) → IsShown y n → n < 2 ^ 32 → decode_uid y (show n) ≡ (true, some n)
  unfolding decode_uid
  decode_lem y n v h =
      let same : n % 2 ^ 32 ≡ n = omega (arith, h) in
      simp (v.shown, v.no_letter, v.reads, same) refl

  groups_lem :
      (y : Library) (old : Option ℕ) (gs : List Text) (n : ℕ)
      → IsShown y n
      → n < 2 ^ 32
      → parse_groups y old (gs ++ show n ∷ []) ≡ parse_groups y old gs
  unfolding parse_groups
  groups_lem y old [] n v h = simp (decode_lem y n v h) refl
  groups_lem y old (g ∷ gs) n v h =
      let rest = λ (o : Option ℕ). groups_lem y o gs n v h in simp (rest) refl

  -- Numbers of 32 bits that `strtoul` reads as they are printed: the user and the group that a
  -- client sets are those that the daemon's child is to have, and the number of a group that it
  -- then adds leaves the list of the child's groups as it was without it.
  pub parse-set_ids :
      (y : Library) (u g n : ℕ) (p : SaceCommandParams)
      → IsShown y u
      → IsShown y g
      → IsShown y n
      → u < 2 ^ 32
      → g < 2 ^ 32
      → n < 2 ^ 32
      → let q : SaceCommandParams = add_gids n (set_gid g (set_uid u p)) in
        ((parse_command_params y q).uid ≡ u)
        × ((parse_command_params y q).gid ≡ g)
        × ((parse_command_params y q).supp_gids ≡ (parse_command_params y p).supp_gids)
  unfolding parse_command_params add_gids set_gid set_uid
  parse-set_ids y u g n p vu vg vn hu hg hn = (
    simp (decode_lem y u vu hu) refl,
    simp (decode_lem y g vg hg) refl,
    groups_lem y none p.supp_gids n vn hn,
  )
