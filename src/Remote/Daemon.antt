-- ===== src/Remote/Daemon.antt =====
-- A binder sender against the service of the binder reader: what the daemon posts for a client.
use service_excutor.Prelude.{
  ℕ, ◌≡◌, refl, ap, ◌∙◌, false, List, [], ◌∷◌, ◌++◌, subst, map, append_assoc, append-nil, none,
  some, All, ◌>>=◌, ◌≤◌, arith, lookup, insert, erase-insert, lookup-insert, nat_key, nat_eqb_iff,
}
use service_excutor.Types.{SaceCommand, SaceResult, SaceReaderMessage}
use service_excutor.Wire.Parcel.{Parcel, IsParcel}
use service_excutor.Reader.Binder.{
  ManagerService, Called, returns, waits_for, binder_message, send_command, register_listener,
  unregister_listener,
}
use service_excutor.Remote.Binder.{ISaceManager, Binder, IsBinder}
use service_excutor.Remote.Proxies.{Side}
use service_excutor.Remote.Calls.{
  IsSendable, IsAnswer, in_client, fd_list, after_reply, over_binder, proxy-manager_on_transact,
  register_lem, unregister_lem,
}
use service_excutor.Remote.Sender.{session, send_all}
use service_excutor.Remote.Session.{session-send_all}

-- `SaceManagerService` for the calls of one process. `answer` is the result that the executors
-- give to the writer of a message, for which the call waits.
module _ (pid : ℕ) (answer : SaceReaderMessage → SaceResult) where
  unfoldable pub wait_called : Called × ManagerService → SaceResult × ManagerService
  wait_called (returns r, s) = (r, s)
  wait_called (waits_for m, s) = (answer m, s)

  abbrev pub manager_service : ISaceManager ManagerService
  manager_service = record {
    send_command = λ c s. send_command pid c s >>= λ called. some (wait_called called);
    register_listener = λ l s. some (register_listener pid l s);
    unregister_listener = λ s. some (unregister_listener pid s);
  }

  posts_lem :
      (l : ℕ) (c : SaceCommand) (s : ManagerService)
      → s.exit ≡ false
      → lookup pid s.pid_listener ≡ some l
      → manager_service.send_command c s
        ≡ some (
          answer (binder_message pid l c),
          record s { posted = s.posted ++ binder_message pid l c ∷ [] },
        )
  unfolding send_command wait_called
  posts_lem l c s running known = simp (running, known) refl

  -- The descriptors that results bring and that are closed with their replies.
  abbrev pub closed_fds : (ℕ → ℕ) → List SaceResult → List ℕ
  closed_fds pass [] = []
  closed_fds pass (r ∷ rs) = fd_list (in_client pass r).result_fd ++ closed_fds pass rs

  module _ {P : Type 0} (y : Parcel P) (b : Binder P) (cap_count policy : ℕ) (fresh : SaceCommand)
      (pass : ℕ → ℕ) where
    abbrev pub remote_service : ISaceManager (Side ManagerService)
    remote_service = over_binder y b cap_count policy fresh pass manager_service

    remote_lem :
        (l : ℕ) (c : SaceCommand) (s : ManagerService) (closed : List ℕ)
        → IsParcel y
        → IsBinder y b
        → cap_count ≤ 64
        → IsSendable y cap_count c
        → IsAnswer y (answer (binder_message pid l c))
        → s.exit ≡ false
        → lookup pid s.pid_listener ≡ some l
        → remote_service.send_command c (s, closed)
          ≡ some (
            in_client pass (answer (binder_message pid l c)),
            (
              record s { posted = s.posted ++ binder_message pid l c ∷ [] },
              closed ++ fd_list (in_client pass (answer (binder_message pid l c))).result_fd,
            ),
          )
    remote_lem l c s closed law tokens bound v q running known =
        let e = posts_lem l c s running known in
        let same =
          λ (r : SaceResult) (t : ManagerService)
              (f : manager_service.send_command c s ≡ some (r, t)).
            subst (IsAnswer y) (ground (arith, e, f)) q in
        (proxy-manager_on_transact y b cap_count policy fresh pass manager_service c none s closed
          law tokens bound v same).0
        ∙ ap (after_reply pass closed) e

    send_all_lem :
        (l : ℕ) (cs : List SaceCommand) (s : ManagerService) (closed : List ℕ)
        → IsParcel y
        → IsBinder y b
        → cap_count ≤ 64
        → All (λ c. IsSendable y cap_count c × IsAnswer y (answer (binder_message pid l c))) cs
        → s.exit ≡ false
        → lookup pid s.pid_listener ≡ some l
        → send_all remote_service cs (s, closed)
          ≡ some (
            map (λ c. in_client pass (answer (binder_message pid l c))) cs,
            (
              record s { posted = s.posted ++ map (binder_message pid l) cs },
              closed ++ closed_fds pass (map (λ c. answer (binder_message pid l c)) cs),
            ),
          )
    unfolding send_all
    send_all_lem l [] s closed law tokens bound vs running known = simp (append-nil) refl
    send_all_lem l (c ∷ cs) s closed law tokens bound ((v, q), vs) running known =
        let t : ManagerService = record s { posted = s.posted ++ binder_message pid l c ∷ [] } in
        let fds = fd_list (in_client pass (answer (binder_message pid l c))).result_fd in
        let first = remote_lem l c s closed law tokens bound v q running known in
        let rest = send_all_lem l cs t (closed ++ fds) law tokens bound vs running known in
        simp (first, rest, append_assoc) refl

    registered_lem :
        (l : ℕ) (s : ManagerService) (closed : List ℕ)
        → IsBinder y b
        → s.exit ≡ false
        → remote_service.register_listener (some l) (s, closed)
          ≡ some (record s { pid_listener = insert pid l s.pid_listener }, closed)
    unfolding register_listener
    registered_lem l s closed tokens running =
        register_lem y b cap_count policy fresh pass manager_service (some l) s closed tokens
        ∙ simp (running) refl

    unregistered_lem :
        (l : ℕ) (ms : List SaceReaderMessage) (s : ManagerService) (closed : List ℕ)
        → IsBinder y b
        → s.exit ≡ false
        → lookup pid s.pid_listener ≡ none
        → remote_service.unregister_listener
            (record s { pid_listener = insert pid l s.pid_listener; posted = ms }, closed)
          ≡ some (record s { posted = ms }, closed)
    unfolding unregister_listener
    unregistered_lem l ms s closed tokens running new =
        unregister_lem y b cap_count policy fresh pass manager_service
          (record s { pid_listener = insert pid l s.pid_listener; posted = ms }) closed tokens
        ∙ simp (running, erase-insert pid l s.pid_listener new) refl

    -- A client whose process has no listener at a manager service that has not been stopped: its
    -- binder sender sends commands that a parcel holds whole, and the results are such too. Each
    -- command is posted once and in order, in a message whose writer has the number of the client's
    -- listener, and after the sender's end the service holds the listeners that it held before. The
    -- client gets the result of each command, where a descriptor has the number that the kernel
    -- gave it in the client's process and is closed when the call for it returns. Whether the
    -- listener is alive is not said: the service keeps a plain pointer to it.
    pub session-posted :
        (l : ℕ) (c : SaceCommand) (cs : List SaceCommand) (s : ManagerService) (closed : List ℕ)
        → IsParcel y
        → IsBinder y b
        → cap_count ≤ 64
        → All
            (λ d. IsSendable y cap_count d × IsAnswer y (answer (binder_message pid l d)))
            (c ∷ cs)
        → s.exit ≡ false
        → lookup pid s.pid_listener ≡ none
        → session (some remote_service) (some l) (c ∷ cs) (s, closed)
          ≡ some (
            map (λ d. in_client pass (answer (binder_message pid l d))) (c ∷ cs),
            (
              record s { posted = s.posted ++ map (binder_message pid l) (c ∷ cs) },
              closed ++ closed_fds pass (map (λ d. answer (binder_message pid l d)) (c ∷ cs)),
            ),
          )
    session-posted l c cs s closed law tokens bound vs running new =
        let t : ManagerService = record s { pid_listener = insert pid l s.pid_listener } in
        let known : lookup pid t.pid_listener ≡ some l =
          ground (arith, lookup-insert pid pid l s.pid_listener new, nat_eqb_iff pid pid) in
        let ms = s.posted ++ map (binder_message pid l) (c ∷ cs) in
        let fds = closed ++ closed_fds pass (map (λ d. answer (binder_message pid l d)) (c ∷ cs)) in
        let registered = registered_lem l s closed tokens running in
        let sent = send_all_lem l (c ∷ cs) t closed law tokens bound vs running known in
        let ended = unregistered_lem l ms s fds tokens running new in
        (session-send_all remote_service l c cs (s, closed)).1 ∙ simp (registered, sent, ended) refl
