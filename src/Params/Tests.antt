-- ===== src/Params/Tests.antt =====
-- A client's parameters, a C library and a kernel for runs, and instances of the theorems.
use service_excutor.Prelude.{
  ℕ, zero, suc, ◌+◌, ◌-◌, ◌*◌, ◌/◌, ◌%◌, ◌≡◌, refl, Bool, true, false, List, [], ◌∷◌, none, some,
  Text, codes, length, ltb, nat_eqb, if◌then◌else◌, arith,
}
use service_excutor.Types.{SaceCommandParams, SaceEventParams}
use service_excutor.Params.Triggers.{
  property_trigger, property_polls, first_only, matches, polls_once,
}
use service_excutor.Params.Parsing.{Limit, CommandParams, Library, parse_command_params}
use service_excutor.Params.Setters.{add_gids, set_gid, set_uid, IsShown, parse-set_ids}
use service_excutor.Params.Child.{
  Creds, Kernel, IsKernel, SameIdentity, has_cap, handle_child_params, child_keeps_ids,
}

abbrev values : List Text
values = codes "0" ∷ codes "1" ∷ codes "0" ∷ codes "1" ∷ []

polls_once_example :
    property_polls values (property_trigger (codes "sys.ready") (codes "1"))
    ≡ first_only (matches (property_trigger (codes "sys.ready") (codes "1"))) values
polls_once_example = polls_once (codes "sys.ready") (codes "1") values

abbrev no_limit : Limit
no_limit = record { resource = 0; rlim_cur = 0; rlim_max = 0 }

-- Names are known only to be "root"; a number is its first digit.
abbrev library : Library
library = record {
  isalpha = λ c. ltb 57 c;
  getpwnam = λ s. elim (length s) [ zero ↦ none | suc n ↦ if nat_eqb n 3 then some 0 else none ];
  strtoul = λ s. elim s [ [] ↦ (0, false) | c ∷ t ↦ (c, false) ];
  read_limit = λ last s. last;
  aid_system = 1000;
  unread = no_limit;
}

abbrev asked : SaceCommandParams
asked = record {
  uid = codes "7";
  gid = codes "8";
  supp_gids = codes "root" ∷ codes "nobody" ∷ codes "5" ∷ [];
  rlimits = [];
  seclabel = [];
  capabilities = [];
}

abbrev new_event : SaceEventParams
new_event = record { base = asked; property_key = []; property_value = []; boot = true }

abbrev properties : List (Text × Text)
properties = (codes "sys.ready", codes "1") ∷ (codes "usb", codes "on") ∷ []

-- Numbers below 100 in decimal.
abbrev show : ℕ → Text
show n = if ltb n 10 then (48 + n) ∷ [] else (48 + n / 10) ∷ (48 + n % 10) ∷ []

abbrev root : Creds
root = record {
  uid = 0;
  gid = 0;
  groups = [];
  caps = true ∷ true ∷ true ∷ [];
  seclabel = [];
  log = [];
}

-- A kernel that checks the capability 0 for groups and 1 for users.
abbrev checked : ℕ → Creds → Creds → Bool × Creds
checked n c d = if has_cap n c.caps then (true, d) else (false, c)

abbrev strict : Kernel
strict = record {
  setrlimit = λ l c. c;
  cap_set_proc = λ cs c. record c { caps = cs };
  setgid = λ g c. checked 0 c (record c { gid = g });
  setgroups = λ gs c. checked 0 c (record c { groups = gs });
  setuid = λ u c. checked 1 c (record c { uid = u });
  setexeccon = λ l c. (true, record c { seclabel = l });
  cap_setgid = 0;
  cap_setuid = 1;
}

strict-IsKernel : IsKernel strict
strict-IsKernel = record {
  setrlimit_keeps = λ l c. (refl, refl, refl, refl);
  cap_set_proc_keeps = λ cs c. (refl, refl, refl, refl);
  no_setgid = λ g c h _. ground (arith, h);
  no_setgroups = λ gs c h. ground (arith, h);
  no_setuid = λ u c h _. ground (arith, h);
}

abbrev plain : CommandParams
plain = record {
  uid = 1000;
  gid = 1001;
  supp_gids = [];
  rlimits = no_limit ∷ [];
  seclabel = [];
  capabilities = false ∷ false ∷ true ∷ [];
}

child_keeps_ids_example : SameIdentity (handle_child_params strict (some plain) root) root
child_keeps_ids_example =
    child_keeps_ids strict plain root strict-IsKernel refl refl refl (λ e. omega (arith, e))
      (λ e. omega (arith, e)) refl

abbrev lenient : Kernel
lenient = record strict {
  setgid = λ g c. (true, record c { gid = g });
  setuid = λ u c. (true, record c { uid = u });
}

abbrev decimal : ℕ → Text → ℕ
decimal n [] = n
decimal n (c ∷ s) = decimal (10 * n + (c - 48)) s

abbrev decimals : Library
decimals = record library { strtoul = λ s. (decimal 0 s, false) }

IsShown-decimals : IsShown show decimals 12
IsShown-decimals = record {
  first = 49;
  rest = 50 ∷ [];
  shown = refl;
  no_letter = refl;
  reads = refl;
}

parse-set_ids_example :
    ((parse_command_params decimals
        (add_gids show 12 (set_gid show 12 (set_uid show 12 asked)))).uid
      ≡ 12)
    × ((parse_command_params decimals
          (add_gids show 12 (set_gid show 12 (set_uid show 12 asked)))).gid
        ≡ 12)
    × ((parse_command_params decimals
          (add_gids show 12 (set_gid show 12 (set_uid show 12 asked)))).supp_gids
        ≡ (parse_command_params decimals asked).supp_gids)
parse-set_ids_example =
    parse-set_ids show decimals 12 12 12 asked IsShown-decimals IsShown-decimals IsShown-decimals
      (omega arith) (omega arith) (omega arith)
