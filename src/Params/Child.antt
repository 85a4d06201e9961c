-- ===== src/Params/Child.antt =====
-- `handle_child_params` and `set_proc_capability`: what a child does between fork and exec to get
-- the credentials that its parameters name. The kernel's calls are parameters.
use service_excutor.Prelude.{
  ℕ, ◌≡◌, ◌≢◌, refl, Bool, true, false, List, [], ◌∷◌, ◌++◌, Option, none, some, Text, get_elem?,
  ltb, if◌then◌else◌, arith, sym, ◌∙◌,
}
use service_excutor.Params.Parsing.{CommandParams, Limit}

pub data Complaint : Type 0 where
  setgid_failed setgroups_failed setuid_failed setexeccon_failed : Complaint

-- The credentials of the child, and the errors that it logged.
pub record Creds : Type 0 where
  pub uid : ℕ
  pub gid : ℕ
  pub groups : List (Option ℕ)
  pub caps : List Bool
  pub seclabel : Text
  pub log : List Complaint

-- Each call gives whether it succeeded, and the credentials after it.
pub record Kernel : Type 0 where
  pub setrlimit : Limit → Creds → Creds
  pub cap_set_proc : List Bool → Creds → Creds
  pub setgid : ℕ → Creds → Bool × Creds
  pub setgroups : List (Option ℕ) → Creds → Bool × Creds
  pub setuid : ℕ → Creds → Bool × Creds
  pub setexeccon : Text → Creds → Bool × Creds
  pub cap_setgid : ℕ
  pub cap_setuid : ℕ

abbrev pub complain : Complaint → Creds → Creds
complain x c = record c { log = c.log ++ x ∷ [] }

abbrev pub has_cap : ℕ → List Bool → Bool
has_cap n cs = elim (get_elem? cs n) [ none ↦ false | some b ↦ b ]

-- `if (wanted && !call(…)) SACE_LOGE(…)`, where a call that succeeds returns 0.
unfoldable pub logged_on_zero : Bool → Complaint → (Creds → Bool × Creds) → Creds → Creds
logged_on_zero wanted x call c =
    if wanted then (let (ok, c') = call c in if ok then complain x c' else c') else c

-- `if (wanted && call(…) < 0) SACE_LOGE(…)`
unfoldable pub logged_on_error : Bool → Complaint → (Creds → Bool × Creds) → Creds → Creds
logged_on_error wanted x call c =
    if wanted then (let (ok, c') = call c in if ok then c' else complain x c') else c

abbrev pub is_some_list {ℓ} : {A : Type ℓ} → List A → Bool
is_some_list [] = false
is_some_list (x ∷ xs) = true

unfoldable pub set_limits : Kernel → List Limit → Creds → Creds
set_limits k [] c = c
set_limits k (l ∷ ls) c = set_limits k ls (k.setrlimit l c)

-- From the groups on: after the limits and the capabilities.
unfoldable pub set_ids : Kernel → CommandParams → Creds → Creds
unfolding logged_on_zero logged_on_error
set_ids k p c =
    let c1 = logged_on_zero (ltb 0 p.gid) setgid_failed (k.setgid p.gid) c in
    let c2 =
      logged_on_zero (is_some_list p.supp_gids) setgroups_failed (k.setgroups p.supp_gids) c1 in
    let c3 = logged_on_zero (ltb 0 p.uid) setuid_failed (k.setuid p.uid) c2 in
    logged_on_error (is_some_list p.seclabel) setexeccon_failed (k.setexeccon p.seclabel) c3

-- The set of capabilities has a fixed size that is not zero, so they are always set.
unfoldable pub handle_child_params : Kernel → Option CommandParams → Creds → Creds
unfolding set_limits set_ids
handle_child_params k none c = c
handle_child_params k (some p) c =
    set_ids k p (k.cap_set_proc p.capabilities (set_limits k p.rlimits c))

-- capabilities(7) and setuid(2), setgid(2), setgroups(2): without the capability a call for
-- another identity, and any call for groups, fails and changes nothing.
--
-- setrlimit(2) and cap_set_proc(3) touch neither identities nor groups; the first leaves the
-- capabilities too.
pub record IsKernel (k : Kernel) : Type 0 where
  pub setrlimit_keeps :
      (l : Limit) (c : Creds)
      → ((k.setrlimit l c).uid ≡ c.uid)
        × ((k.setrlimit l c).gid ≡ c.gid)
        × ((k.setrlimit l c).groups ≡ c.groups)
        × ((k.setrlimit l c).log ≡ c.log)
  pub cap_set_proc_keeps :
      (cs : List Bool) (c : Creds)
      → ((k.cap_set_proc cs c).uid ≡ c.uid)
        × ((k.cap_set_proc cs c).gid ≡ c.gid)
        × ((k.cap_set_proc cs c).groups ≡ c.groups)
        × ((k.cap_set_proc cs c).log ≡ c.log)
  pub no_setgid :
      (g : ℕ) (c : Creds)
      → has_cap k.cap_setgid c.caps ≡ false
      → c.gid ≢ g
      → k.setgid g c ≡ (false, c)
  pub no_setgroups :
      (gs : List (Option ℕ)) (c : Creds)
      → has_cap k.cap_setgid c.caps ≡ false
      → k.setgroups gs c ≡ (false, c)
  pub no_setuid :
      (u : ℕ) (c : Creds)
      → has_cap k.cap_setuid c.caps ≡ false
      → c.uid ≢ u
      → k.setuid u c ≡ (false, c)

-- The identities, the groups and the log.
abbrev pub SameIdentity : Creds → Creds → Type 0
SameIdentity d c = (d.uid ≡ c.uid) × (d.gid ≡ c.gid) × (d.groups ≡ c.groups) × (d.log ≡ c.log)

limits_lem :
    (k : Kernel) (ls : List Limit) (c : Creds) → IsKernel k → SameIdentity (set_limits k ls c) c
unfolding set_limits
limits_lem k [] c law = (refl, refl, refl, refl)
limits_lem k (l ∷ ls) c law =
    let (u, g, s, o) = limits_lem k ls (k.setrlimit l c) law in
    let (u', g', s', o') = law.setrlimit_keeps l c in (u ∙ u', g ∙ g', s ∙ s', o ∙ o')

-- Parameters that name another user and group than the process has, no label, and not the
-- capabilities to change them, where cap_set_proc sets the capabilities it is given: they go
-- first, so the changes are refused; the command runs with the user, the group and the groups that
-- the process had, and nothing is logged.
pub child_keeps_ids :
    (k : Kernel) (p : CommandParams) (c : Creds)
    → IsKernel k
    → (k.cap_set_proc p.capabilities (set_limits k p.rlimits c)).caps ≡ p.capabilities
    → has_cap k.cap_setgid p.capabilities ≡ false
    → has_cap k.cap_setuid p.capabilities ≡ false
    → c.gid ≢ p.gid
    → c.uid ≢ p.uid
    → p.seclabel ≡ []
    → SameIdentity (handle_child_params k (some p) c) c
unfolding handle_child_params set_ids logged_on_zero logged_on_error
child_keeps_ids k p c law caps g u ng nu label =
    let d = k.cap_set_proc p.capabilities (set_limits k p.rlimits c) in
    let (lu, lg, ls, lo) = limits_lem k p.rlimits c law in
    let (cu, cg, cs, co) = law.cap_set_proc_keeps p.capabilities (set_limits k p.rlimits c) in
    let same : handle_child_params k (some p) c ≡ d = ground (
      arith,
      law.no_setgid p.gid d (ground arith) (λ e. ng (sym (cg ∙ lg) ∙ e)),
      law.no_setgroups p.supp_gids d (ground arith),
      law.no_setuid p.uid d (ground arith) (λ e. nu (sym (cu ∙ lu) ∙ e)),
    ) in
    rw same (cu ∙ lu, cg ∙ lg, cs ∙ ls, co ∙ lo)

-- Where every call succeeds and does what it is for, and the identities are not root's, the
-- child has the identity that its parameters name, and each change was logged as a failure.
pub child_complains :
    (k : Kernel) (p : CommandParams) (c d : Creds)
    → k.cap_set_proc p.capabilities (set_limits k p.rlimits c) ≡ d
    → ((g : ℕ) (e : Creds) → k.setgid g e ≡ (true, record e { gid = g }))
    → ((u : ℕ) (e : Creds) → k.setuid u e ≡ (true, record e { uid = u }))
    → ltb 0 p.gid ≡ true
    → ltb 0 p.uid ≡ true
    → p.supp_gids ≡ []
    → p.seclabel ≡ []
    → let t = handle_child_params k (some p) c in
      (t.gid ≡ p.gid)
      × (t.uid ≡ p.uid)
      × (t.log ≡ (d.log ++ setgid_failed ∷ []) ++ setuid_failed ∷ [])
unfolding handle_child_params set_ids logged_on_zero logged_on_error
child_complains k p c d e sg su hg hu groups label =
    let r : handle_child_params k (some p) c
        ≡ complain setuid_failed
            (record (complain setgid_failed (record d { gid = p.gid })) { uid = p.uid }) =
      ground (arith, e, sg p.gid d, su p.uid (complain setgid_failed (record d { gid = p.gid }))) in
    rw r (refl, refl, refl)
