-- ===== src/Ini/Names.antt =====
-- `cap_map` and `rlimit_map` of saced/SaceEvent.cpp: the names that the event file may use.
use service_excutor.Prelude.{
  ℕ, ◌≡◌, refl, Bool, false, ◌||◌, List, [], ◌∷◌, none, some, Text, codes, Map, lookup, insert,
  contains, lookup-insert, has_of_lookup, text_key, text_eqb, if◌then◌else◌, Option-cases, inl, inr,
  arith,
}
use service_excutor.Ini.Attributes.{parse_capability_name, parse_rlimits_name}

abbrev pub cap_names : List Text
cap_names =
    codes "CHOWN"
    ∷ codes "DAC_OVERRIDE"
    ∷ codes "DAC_READ_SEARCH"
    ∷ codes "FOWNER"
    ∷ codes "FSETID"
    ∷ codes "KILL"
    ∷ codes "SETGID"
    ∷ codes "SETUID"
    ∷ codes "SETPCAP"
    ∷ codes "LINUX_IMMUTABLE"
    ∷ codes "NET_BIND_SERVICE"
    ∷ codes "NET_BROADCAST"
    ∷ codes "NET_ADMIN"
    ∷ codes "NET_RAW"
    ∷ codes "IPC_LOCK"
    ∷ codes "IPC_OWNER"
    ∷ codes "SYS_MODULE"
    ∷ codes "SYS_RAWIO"
    ∷ codes "SYS_CHROOT"
    ∷ codes "SYS_PTRACE"
    ∷ codes "SYS_PACCT"
    ∷ codes "SYS_ADMIN"
    ∷ codes "SYS_BOOT"
    ∷ codes "SYS_NICE"
    ∷ codes "SYS_RESOURCE"
    ∷ codes "SYS_TIME"
    ∷ codes "SYS_TTY_CONFIG"
    ∷ codes "MKNOD"
    ∷ codes "LEASE"
    ∷ codes "AUDIT_WRITE"
    ∷ codes "AUDIT_CONTROL"
    ∷ codes "SETFCAP"
    ∷ codes "MAC_OVERRIDE"
    ∷ codes "MAC_ADMIN"
    ∷ codes "SYSLOG"
    ∷ codes "WAKE_ALARM"
    ∷ codes "BLOCK_SUSPEND"
    ∷ codes "AUDIT_READ"
    ∷ []

abbrev pub rlimit_names : List Text
rlimit_names =
    codes "AS"
    ∷ codes "CORE"
    ∷ codes "CPU"
    ∷ codes "DATA"
    ∷ codes "FSIZE"
    ∷ codes "LOCKS"
    ∷ codes "MEMLOCK"
    ∷ codes "MSGQUEUE"
    ∷ codes "NICE"
    ∷ codes "NOFILE"
    ∷ codes "NPROC"
    ∷ codes "RTPRIO"
    ∷ codes "SIGPENDING"
    ∷ codes "STACK"
    ∷ []

-- The entries of an initializer list; `number` is the constant of the kernel's header with that
-- name.
unfoldable pub entries : (Text → ℕ) → List Text → Map Text ℕ → Map Text ℕ
entries number [] m = m
entries number (s ∷ ss) m = entries number ss (insert s (number s) m)

unfoldable pub cap_map : (Text → ℕ) → Map Text ℕ
unfolding entries
cap_map number = entries number cap_names []

unfoldable pub rlimit_map : (Text → ℕ) → Map Text ℕ
unfolding entries
rlimit_map number = entries number rlimit_names []

-- A map that has the numbers of the names that pass a test.
abbrev Numbers : (Text → ℕ) → (Text → Bool) → Map Text ℕ → Type 0
Numbers number known m = (s : Text) → lookup s m ≡ (if known s then some (number s) else none)

insert_lem :
    (number : Text → ℕ) (k : Text) (known : Text → Bool) (m : Map Text ℕ)
    → Numbers number known m
    → Numbers number (λ s. text_eqb k s || known s) (insert k (number k) m)
unfolding insert
insert_lem number k known m v s = elim (Option-cases (lookup k m)) [
  | inl new ↦ ground (arith, v s, lookup-insert s k (number k) m new, (text_key.beq_iff k s).0)
  | inr (n, old) ↦ ground (arith, v s, v k, old, has_of_lookup k n m old, (text_key.beq_iff k s).0)
]

entries_lem :
    (number : Text → ℕ) (ss : List Text) (known : Text → Bool) (m : Map Text ℕ) (s : Text)
    → Numbers number known m
    → lookup s (entries number ss m) ≡ (if contains s ss || known s then some (number s) else none)
unfolding entries
entries_lem number [] known m s v = v s
entries_lem number (k ∷ ss) known m s v = ground (
  arith,
  entries_lem number ss (λ t. text_eqb k t || known t) (insert k (number k) m) s
      (insert_lem number k known m v),
)

whole_lem :
    (number : Text → ℕ) (ss : List Text) (s : Text)
    → lookup s (entries number ss []) ≡ (if contains s ss then some (number s) else none)
unfolding lookup
whole_lem number ss s = ground (arith, entries_lem number ss (λ t. false) [] s (λ t. refl))

-- A capability and a limit are found under each name of their list, with its number, and under no
-- other.
pub parse_capability_name-cap_map :
    (number : Text → ℕ) (s : Text)
    → (parse_capability_name (cap_map number) s
        ≡ (if contains s cap_names then some (number s) else none))
      × (parse_rlimits_name (rlimit_map number) s
          ≡ (if contains s rlimit_names then some (number s) else none))
unfolding parse_capability_name parse_rlimits_name cap_map rlimit_map
parse_capability_name-cap_map number s =
    (whole_lem number cap_names s, whole_lem number rlimit_names s)
