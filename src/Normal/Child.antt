-- ===== src/Normal/Child.antt =====
-- The descriptors of the child that `sace_popen` starts, from `vfork` to the shell.
use service_excutor.Prelude.{
  ℕ, ◌≡◌, ◌≢◌, refl, sym, Bool, true, false, ◌||◌, List, [], ◌∷◌, none, some, Map, lookup, erase,
  store, lookup-erase, lookup-store, nat_key, nat_eqb, if◌then◌else◌, arith, Bool-cases, inl, inr,
}
use service_excutor.Normal.Popen.{PidEntry}

-- Open descriptors and the files that they are for.
abbrev pub Fds : Type 0
Fds = Map ℕ ℕ

-- `dup2`, which closes the new descriptor first; of a closed one it changes nothing.
unfoldable pub dup2 : ℕ → ℕ → Fds → Fds
dup2 old new m = elim (lookup old m) [ none ↦ m | some file ↦ store new file m ]

-- The loop over `pidlist`.
unfoldable pub close_pidlist : List PidEntry → Fds → Fds
close_pidlist [] m = m
close_pidlist (e ∷ es) m = close_pidlist es (erase e.fd m)

abbrev pub stdin_fileno : ℕ
stdin_fileno = 0

abbrev pub stdout_fileno : ℕ
stdout_fileno = 1

-- One end is closed, and the other becomes `std`.
unfoldable pub keep_end : (given kept std : ℕ) → Fds → Fds
unfolding dup2
keep_end given kept std m =
    let m1 = erase given m in if nat_eqb kept std then m1 else erase kept (dup2 kept std m1)

-- `write` is `strchr(xtype, 'w')`; the pipe's ends are those to read from and to write to.
unfoldable pub child_fds : List PidEntry → ℕ × ℕ → Bool → Fds → Fds
unfolding close_pidlist keep_end
child_fds pidlist (r, w) write m =
    let m1 = close_pidlist pidlist m in
    if write then keep_end w r stdin_fileno m1 else keep_end r w stdout_fileno m1

abbrev pub in_pidlist : ℕ → List PidEntry → Bool
in_pidlist fd [] = false
in_pidlist fd (e ∷ es) = nat_eqb e.fd fd || in_pidlist fd es

pidlist_lem :
    (fd : ℕ) (es : List PidEntry) (m : Fds)
    → lookup fd (close_pidlist es m) ≡ (if in_pidlist fd es then none else lookup fd m)
unfolding close_pidlist
pidlist_lem fd [] m = refl
pidlist_lem fd (e ∷ es) m = ground (arith, pidlist_lem fd es (erase e.fd m), lookup-erase fd e.fd m)

keep_lem :
    (given kept std fd file : ℕ) (m : Fds)
    → given ≢ kept
    → lookup kept m ≡ some file
    → lookup fd (keep_end given kept std m) ≡ (
        if nat_eqb std fd
        then some file
        else if nat_eqb given fd || nat_eqb kept fd
        then none
        else lookup fd m)
unfolding keep_end dup2
keep_lem given kept std fd file m d is =
    let held : lookup kept (erase given m) ≡ some file =
      ground (arith, is, d, lookup-erase kept given m) in
    elim (Bool-cases (nat_eqb kept std)) [
      | inl same ↦ ground (arith, same, is, d, lookup-erase fd given m)
      | inr other ↦
          let moved : keep_end given kept std m ≡ erase kept (store std file (erase given m)) =
            ground (arith, other, held) in
          ground (
            arith,
            other,
            moved,
            lookup-erase fd kept (store std file (erase given m)),
            lookup-store fd std file (erase given m),
            lookup-erase fd given m,
          )
    ]

-- The two ends of the pipe differ and none of them is in the list of children, and the end that the
-- child uses is open: in the shell that end is the standard output, or the standard input for a
-- command that is written to, and under no other number; the pipe's other end and every descriptor
-- of an earlier child is closed, unless it is that standard one, and all others are as in the
-- daemon.
pub child_fds_lem :
    (pidlist : List PidEntry) (r w fd file : ℕ) (write : Bool) (m : Fds)
    → r ≢ w
    → in_pidlist r pidlist ≡ false
    → in_pidlist w pidlist ≡ false
    → lookup (if write then r else w) m ≡ some file
    → lookup fd (child_fds pidlist (r, w) write m) ≡ (
        if nat_eqb (if write then stdin_fileno else stdout_fileno) fd
        then some file
        else if nat_eqb r fd || nat_eqb w fd || in_pidlist fd pidlist
        then none
        else lookup fd m)
unfolding child_fds
child_fds_lem pidlist r w fd file true m d nr nw is =
    let open_end : lookup r (close_pidlist pidlist m) ≡ some file =
      ground (arith, is, nr, pidlist_lem r pidlist m) in
    ground (
      arith,
      keep_lem w r stdin_fileno fd file (close_pidlist pidlist m) (λ e. d (sym e)) open_end,
      pidlist_lem fd pidlist m,
    )
child_fds_lem pidlist r w fd file false m d nr nw is =
    let open_end : lookup w (close_pidlist pidlist m) ≡ some file =
      ground (arith, is, nw, pidlist_lem w pidlist m) in
    ground (
      arith,
      keep_lem r w stdout_fileno fd file (close_pidlist pidlist m) d open_end,
      pidlist_lem fd pidlist m,
    )
