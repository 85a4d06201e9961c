-- ===== src/Normal/Popen.antt =====
-- `sace_popen` and `sace_pclose`: the list of the children that were started with a pipe.
use service_excutor.Prelude.{
  ℕ, Bool, true, false, List, [], ◌∷◌, ◌++◌, Option, none, some, nat_eqb, if◌then◌else◌, ◌≡◌, arith,
  nat_eqb_iff,
}
use service_excutor.Types.{Effect, close_fd, wait_pid}
use service_excutor.Service.State.{Fork, fork_failed, fork_parent}

-- `struct pid`
pub record PidEntry : Type 0 where
  pub fd : ℕ
  pub pid : ℕ

pub record Children : Type 0 where
  pub pidlist : List PidEntry
  pub trace : List Effect

-- What the system answers: the ends of a new pipe, whether there is memory, `vfork` as the parent
-- sees it, and the status that `waitpid` gives for a child.
pub record Spawn : Type 0 where
  pub fresh : ℕ
  pub pipe : Option (ℕ × ℕ)
  pub memory : Bool
  pub fork : Fork
  pub reap : ℕ → Option ℕ

unfoldable pub closing : List ℕ → Children → Children
closing [] c = c
closing (fd ∷ fds) c = closing fds (record c { trace = c.trace ++ close_fd fd ∷ [] })

-- The parent after `vfork`: it keeps one end of the pipe.
unfoldable pub popen_parent : ℕ × ℕ → Bool → ℕ → Children → Option (ℕ × ℕ) × Children
unfolding closing
popen_parent (r, w) write pid c =
    let fd : ℕ = if write then w else r in
    let c' = closing ((if write then r else w) ∷ []) c in
    (some (fd, pid), record c' { pidlist = record { fd = fd; pid = pid } ∷ c'.pidlist })

unfoldable pub popen_fork : Fork → ℕ × ℕ → Bool → Children → Option (ℕ × ℕ) × Children
unfolding popen_parent closing
popen_fork fork_failed (r, w) write c = (none, closing (r ∷ w ∷ []) c)
popen_fork (fork_parent pid) p write c = popen_parent p write pid c

-- The descriptor and the pid, or nothing for -1; `write` is `strchr(xtype, 'w')`.
unfoldable pub sace_popen : Spawn → Bool → Children → Option (ℕ × ℕ) × Children
unfolding popen_fork closing
sace_popen y write c = elim y.pipe [
  | none ↦ (none, c)
  | some (r, w) ↦
      if y.memory then popen_fork y.fork (r, w) write c else (none, closing (r ∷ w ∷ []) c)
]

-- The search for the descriptor, and the list with the entry unlinked.
unfoldable pub unlink : ℕ → List PidEntry → Option (PidEntry × List PidEntry)
unlink fd [] = none
unlink fd (e ∷ es) =
    if nat_eqb e.fd fd
    then some (e, es)
    else elim (unlink fd es) [ none ↦ none | some (x, rest) ↦ some (x, e ∷ rest) ]

-- The child's status, or nothing for -1.
unfoldable pub sace_pclose : Spawn → ℕ → Children → Option ℕ × Children
unfolding unlink
sace_pclose y fd c = elim (unlink fd c.pidlist) [
  | none ↦ (none, c)
  | some (e, rest) ↦ (
    y.reap e.pid,
    record { pidlist = rest; trace = (c.trace ++ close_fd fd ∷ []) ++ wait_pid e.pid ∷ [] },
  )
]

-- A pipe that was opened and is then closed: the list is the old one again, both ends are closed,
-- and the child that was started is the one that is waited for.
pub pclose-popen :
    (y z : Spawn) (write : Bool) (c : Children) (r w pid : ℕ)
    → y.pipe ≡ some (r, w)
    → y.memory ≡ true
    → y.fork ≡ fork_parent pid
    → let opened = sace_popen y write c in
      let kept : ℕ = if write then w else r in
      let given : ℕ = if write then r else w in
      (opened.0 ≡ some (kept, pid))
      × (sace_pclose z kept opened.1 ≡ (
        z.reap pid,
        record {
          pidlist = c.pidlist;
          trace = ((c.trace ++ close_fd given ∷ []) ++ close_fd kept ∷ []) ++ wait_pid pid ∷ [];
        },
      ))
unfolding sace_popen sace_pclose
pclose-popen y z true c r w pid p m f = (ground arith, ground (arith, nat_eqb_iff w w))
pclose-popen y z false c r w pid p m f = (ground arith, ground (arith, nat_eqb_iff r r))

-- Closing a descriptor that no child has changes nothing.
pub pclose_unknown :
    (y : Spawn) (fd : ℕ) (c : Children)
    → unlink fd c.pidlist ≡ none
    → sace_pclose y fd c ≡ (none, c)
unfolding sace_pclose
pclose_unknown y fd c e = ground arith
