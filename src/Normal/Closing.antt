-- ===== src/Normal/Closing.antt =====
-- A command from its start to its close, and what a second close of it does.
use service_excutor.Prelude.{
  ℕ, ◌<◌, ◌^◌, ◌≡◌, refl, ◌∙◌, true, [], ◌∷◌, ◌++◌, none, some, lookup, insert, store,
  lookup-insert, lookup-store, nat_key, nat_eqb_iff, arith, Bool-cases, inl, inr, if◌then◌else◌,
}
use service_excutor.Types.{
  close_fd, wait_pid, send_result, SaceCommand, SaceWriter, CommandFlags, result_status_ok,
  of_bytes, of_bytes-le_bytes,
}
use service_excutor.Service.State.{fork_parent}
use service_excutor.Normal.Popen.{Spawn, sace_popen, sace_pclose, unlink}
use service_excutor.Normal.Handlers.{
  CommandInfo, NormalExcutor, is_out, emit, failed, new_command, fd_result, opened,
  start_normal_cmd, close_found, close_normal_cmd, remove_vecotr_item,
}

-- The system gives a pipe, memory and a child.
pub record Spawns (y : Spawn) (r w pid : ℕ) : Type 0 where
  pub piped : y.pipe ≡ some (r, w)
  pub memory : y.memory ≡ true
  pub forked : y.fork ≡ fork_parent pid

module _ (y : Spawn) (r w pid : ℕ) (spawns : Spawns y r w pid) (f : CommandFlags)
    (s : NormalExcutor) where
  -- The end of the pipe that the daemon keeps, and the child's.
  abbrev kept : ℕ
  kept = if is_out f then w else r

  abbrev given : ℕ
  given = if is_out f then r else w

  abbrev started : SaceCommand → SaceWriter → NormalExcutor
  started c wr = record {
    running = s.running ++ y.fresh ∷ [];
    seq = insert y.fresh y.fresh s.seq;
    heap = store y.fresh (new_command y kept pid c wr) s.heap;
    children = record {
      pidlist = record { fd = kept; pid = pid } ∷ s.children.pidlist;
      trace =
          (s.children.trace ++ close_fd given ∷ [])
          ++ send_result wr (fd_result y.fresh kept c) ∷ [];
    };
  }

  start_lem : (c : SaceCommand) (wr : SaceWriter) → start_normal_cmd y c f wr s ≡ started c wr
  unfolding start_normal_cmd sace_popen opened emit
  start_lem c wr = elim (Bool-cases (is_out f)) [
    | inl o ↦ ground (arith, o)
    | inr o ↦ ground (arith, o)
  ]

  abbrev closed : SaceCommand → SaceWriter → SaceCommand → SaceWriter → NormalExcutor
  closed c wr d other = record (started c wr) {
    children = record {
      pidlist = s.children.pidlist;
      trace =
          (((started c wr).children.trace ++ close_fd kept ∷ []) ++ wait_pid pid ∷ [])
          ++ send_result other (record (failed d) { result_status = result_status_ok }) ∷ [];
    };
  }

  found :
      (z : Spawn) (c d : SaceCommand) (wr other : SaceWriter) (a : ℕ) (i : CommandInfo)
      → i.fd ≡ some kept
      → close_found z d other a i (started c wr) ≡ closed c wr d other
  unfolding close_found sace_pclose unlink emit remove_vecotr_item
  found z c d wr other a i e = ground (arith, nat_eqb_iff kept kept)

  new_closed :
      (z : Spawn) (c d : SaceCommand) (wr other : SaceWriter)
      → lookup y.fresh s.seq ≡ none
      → d.label ≡ y.fresh
      → close_normal_cmd z d other (started c wr) ≡ some (closed c wr d other)
  unfolding close_normal_cmd new_command
  new_closed z c d wr other free l = ground (
    arith,
    nat_eqb_iff y.fresh y.fresh,
    lookup-insert y.fresh y.fresh y.fresh s.seq free,
    lookup-store y.fresh y.fresh (new_command y kept pid c wr) s.heap,
    found z c d wr other y.fresh (new_command y kept pid c wr) refl,
  )

  -- A command whose output is read or whose input is written, with an address that is new: a close
  -- with the label that the result of its start carried closes the daemon's end of its pipe, waits
  -- for its child, takes it off the list of children, and is answered with OK.
  pub start-close :
      (z : Spawn) (c d : SaceCommand) (wr other : SaceWriter)
      → lookup y.fresh s.seq ≡ none
      → y.fresh < 256 ^ 8
      → d.label ≡ of_bytes (fd_result y.fresh kept c).result_extra
      → (t : NormalExcutor) × (close_normal_cmd z d other (start_normal_cmd y c f wr s) ≡ some t)
        × (t.children.pidlist ≡ s.children.pidlist)
        × (t.children.trace ≡ (
            ((((s.children.trace ++ close_fd given ∷ [])
                  ++ send_result wr (fd_result y.fresh kept c) ∷ [])
                ++ close_fd kept ∷ [])
              ++ wait_pid pid ∷ [])
            ++ send_result other (record (failed d) { result_status = result_status_ok }) ∷ []))
  unfolding fd_result
  start-close z c d wr other free bound l =
      let e : d.label ≡ y.fresh = l ∙ of_bytes-le_bytes 8 y.fresh bound in
      (closed c wr d other, rw (start_lem c wr) (new_closed z c d wr other free e), refl, refl)

  -- The same descriptor given to a new command: a second close of the old one, whose object and
  -- label are still there, ends the new command's child instead and is answered with OK.
  pub close_reused :
      (z : Spawn) (c d : SaceCommand) (wr other : SaceWriter) (a : ℕ) (i : CommandInfo)
      → lookup a s.seq ≡ some a
      → lookup a s.heap ≡ some i
      → i.fd ≡ some kept
      → lookup y.fresh s.heap ≡ none
      → lookup y.fresh s.seq ≡ none
      → d.label ≡ a
      → (t : NormalExcutor) × (close_normal_cmd z d other (start_normal_cmd y c f wr s) ≡ some t)
        × (t.children.pidlist ≡ s.children.pidlist)
        × (t.children.trace
            ≡ (((start_normal_cmd y c f wr s).children.trace ++ close_fd kept ∷ [])
                ++ wait_pid pid ∷ [])
              ++ send_result other (record (failed d) { result_status = result_status_ok }) ∷ [])
  unfolding close_normal_cmd
  close_reused z c d wr other a i es eh ef free unknown el =
      let same = found z c d wr other a i ef in
      let e : close_normal_cmd z d other (started c wr) ≡ some (closed c wr d other) = ground (
        arith,
        nat_eqb_iff y.fresh a,
        nat_eqb_iff a y.fresh,
        lookup-insert a y.fresh y.fresh s.seq unknown,
        lookup-store a y.fresh (new_command y kept pid c wr) s.heap,
      ) in
      (closed c wr d other, rw (start_lem c wr) e, refl, rw (start_lem c wr) refl)
