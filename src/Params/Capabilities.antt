-- ===== src/Params/Capabilities.antt =====
-- `set_proc_capability` of saced/SaceExcutor.cpp, up to the kernel's `cap_set_proc`. The library of
-- capabilities is a parameter.
use service_excutor.Prelude.{
  ℕ, suc, ◌≡◌, refl, Bool, true, false, List, [], ◌∷◌, ◌++◌, append_assoc, append-nil,
  if◌then◌else◌,
}

pub data Flag : Type 0 where
  cap_permitted cap_effective : Flag

-- The capabilities that were raised, the first one first. The inheritable ones stay clear.
pub record Raised : Type 0 where
  pub permitted : List ℕ
  pub effective : List ℕ

abbrev pub cleared : Raised
cleared = record { permitted = []; effective = [] }

-- `cap_set_flag(…, CAP_SET)`: whether it succeeds, and what is raised after it.
module _ (cap_set_flag : Flag → ℕ → Raised → Bool × Raised) where
  -- The second call is not made where the first fails.
  unfoldable pub raise : ℕ → Raised → Raised
  raise cap f =
      let (ok, g) = cap_set_flag cap_permitted cap f in
      if ok then (cap_set_flag cap_effective cap g).1 else g

  -- The loop over the set from `cap` on.
  unfoldable pub keep_loop : ℕ → List Bool → Raised → Raised
  unfolding raise
  keep_loop cap [] f = f
  keep_loop cap (b ∷ bs) f = keep_loop (suc cap) bs (if b then raise cap f else f)

  -- What `cap_set_proc` is given.
  unfoldable pub to_keep : List Bool → Raised
  unfolding keep_loop
  to_keep bs = keep_loop 0 bs cleared

  -- The numbers of the capabilities that are in the set.
  abbrev pub numbers : ℕ → List Bool → List ℕ
  numbers cap [] = []
  numbers cap (true ∷ bs) = cap ∷ numbers (suc cap) bs
  numbers cap (false ∷ bs) = numbers (suc cap) bs

  keep_lem :
      (cap : ℕ) (bs : List Bool) (f : Raised)
      → ((c : ℕ) (g : Raised)
          → cap_set_flag cap_permitted c g ≡ (true, record g { permitted = g.permitted ++ c ∷ [] }))
      → ((c : ℕ) (g : Raised)
          → cap_set_flag cap_effective c g ≡ (true, record g { effective = g.effective ++ c ∷ [] }))
      → keep_loop cap bs f ≡ record {
        permitted = f.permitted ++ numbers cap bs;
        effective = f.effective ++ numbers cap bs;
      }
  unfolding keep_loop raise
  keep_lem cap [] f p e = simp (append-nil) refl
  keep_lem cap (true ∷ bs) f p e =
      let g : Raised = record {
        permitted = f.permitted ++ cap ∷ [];
        effective = f.effective ++ cap ∷ [];
      } in
      simp (p, e, keep_lem (suc cap) bs g p e, append_assoc) refl
  keep_lem cap (false ∷ bs) f p e = keep_lem (suc cap) bs f p e

  -- Where every call succeeds and does what it is for, the capabilities of the set, and no others,
  -- are permitted and effective.
  pub to_keep_lem :
      (bs : List Bool)
      → ((c : ℕ) (g : Raised)
          → cap_set_flag cap_permitted c g ≡ (true, record g { permitted = g.permitted ++ c ∷ [] }))
      → ((c : ℕ) (g : Raised)
          → cap_set_flag cap_effective c g ≡ (true, record g { effective = g.effective ++ c ∷ [] }))
      → to_keep bs ≡ record { permitted = numbers 0 bs; effective = numbers 0 bs }
  unfolding to_keep
  to_keep_lem bs p e = keep_lem 0 bs cleared p e
