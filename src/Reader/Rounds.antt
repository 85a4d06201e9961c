-- ===== src/Reader/Rounds.antt =====
-- A round of the socket reader keeps its table.
use service_excutor.Prelude.{
  ℕ, ◌≡◌, refl, Bool, true, false, List, ◌∷◌, Option, none, some, contains, nat_key, arith,
  nat_eqb_iff, bind-some, Bool-cases, Option-cases, subst, inl, inr,
}
use service_excutor.Wire.Parcel.{Parcel}
use service_excutor.Reader.Sockets.{
  World, SocketReader, recv_clients, accept_client, recv_ready, select_fails, has_socket,
  recv_data_or_connection, recv_selected, Selected, select_timeout, select_failed, select_ready,
}
use service_excutor.Reader.Table.{
  holds_of_closed, IsTable, length-place_client, distinct-place_client, all_open-place_client,
  all_open-cons, length-drop_unknown, distinct-drop_unknown, all_open-drop_unknown,
}
use service_excutor.Reader.Walk.{recv_clients_lem}

module _ {P : Type 0} (y : Parcel P) (cap_count : ℕ) where
  accept_client-IsTable :
      (w : World P) (s : SocketReader) (a : Option ℕ)
      → w.accept ≡ a
      → ((fd : ℕ) → w.accept ≡ some fd → contains fd s.open_fds ≡ false)
      → IsTable s.clients s.open_fds
      → IsTable (accept_client y cap_count w s).clients (accept_client y cap_count w s).open_fds
  unfolding accept_client
  accept_client-IsTable w s none a fresh i = record {
    size = ground (arith, a, i.size);
    apart = ground (arith, a, i.apart);
    known = ground (arith, a, i.known);
  }
  accept_client-IsTable w s (some fd) a fresh i =
      let new = holds_of_closed fd s.clients s.open_fds (fresh fd a) i.known in
      record {
        size = ground (arith, a, i.size, length-place_client fd s.clients);
        apart = ground (arith, a, distinct-place_client fd s.clients new i.apart);
        known = ground (
          arith,
          a,
          all_open-place_client fd s.clients (fd ∷ s.open_fds),
          all_open-cons fd s.clients s.open_fds i.known,
          nat_eqb_iff fd fd,
        );
      }

  recv_ready-IsTable :
      (w : World P) (ready : List ℕ) (s t : SocketReader)
      → ((fd : ℕ) → w.accept ≡ some fd → contains fd s.open_fds ≡ false)
      → IsTable s.clients s.open_fds
      → recv_ready y cap_count w ready s ≡ some t
      → IsTable t.clients t.open_fds
  unfolding recv_ready
  recv_ready-IsTable w ready s t fresh i e = elim (Option-cases s.sock_fd) [
    | inl gone ↦ ground (arith, gone)
    | inr (fd, is) ↦ elim (Bool-cases (contains fd ready)) [
      | inl new ↦
          let et : t.clients ≡ (accept_client y cap_count w s).clients = ground (arith, is, new) in
          let eo : t.open_fds ≡ (accept_client y cap_count w s).open_fds =
            ground (arith, is, new) in
          rw et (rw eo (accept_client-IsTable w s w.accept refl fresh i))
      | inr old ↦
          let ((cs, u), now, end) =
            bind-some {B = SocketReader} (recv_clients y cap_count w ready s.clients s)
              (λ (cs, u). some (record u { clients = cs })) t (ground (arith, is, old)) in
          let k = recv_clients_lem y cap_count w ready s.clients cs s u now i.apart i.known in
          record {
            size = ground (arith, end, k.size, i.size);
            apart = ground (arith, end, k.apart);
            known = ground (arith, end, k.known);
          }
    ]
  ]

  select_fails-IsTable :
      (w : World P) (s : SocketReader)
      → IsTable s.clients s.open_fds
      → IsTable (select_fails y cap_count w s).clients (select_fails y cap_count w s).open_fds
  unfolding select_fails
  select_fails-IsTable w s i = record {
    size = ground (arith, i.size, length-drop_unknown w.unknown s.clients);
    apart = distinct-drop_unknown w.unknown s.clients i.apart;
    known = all_open-drop_unknown w.unknown s.clients s.open_fds i.known;
  }

  recv_selected-IsTable :
      (w : World P) (more : Bool) (s t : SocketReader) (a : Selected)
      → ((fd : ℕ) → w.accept ≡ some fd → contains fd s.open_fds ≡ false)
      → IsTable s.clients s.open_fds
      → recv_selected y cap_count w a s ≡ some (more, t)
      → IsTable t.clients t.open_fds
  unfolding recv_selected
  recv_selected-IsTable w more s t select_timeout fresh i e =
      let es : s ≡ t = ground (arith, e) in subst (λ u. IsTable u.clients u.open_fds) es i
  recv_selected-IsTable w more s t select_failed fresh i e =
      let es : select_fails y cap_count w s ≡ t = ground (arith, e) in
      subst (λ u. IsTable u.clients u.open_fds) es (select_fails-IsTable w s i)
  recv_selected-IsTable w more s t (select_ready ready) fresh i e =
      let (u, now, end) =
        bind-some {B = Bool × SocketReader} (recv_ready y cap_count w ready s) (λ u. some (true, u))
          (more, t) e in
      let es : u ≡ t = ground (arith, end) in
      subst (λ u. IsTable u.clients u.open_fds) es (recv_ready-IsTable w ready s u fresh i now)

  -- A round keeps the table, if `accept` gives a descriptor that the process has not open: five
  -- slots, no descriptor in two of them, and those in slots open.
  pub recv_data_or_connection-IsTable :
      (w : World P) (more : Bool) (s t : SocketReader)
      → ((fd : ℕ) → w.accept ≡ some fd → contains fd s.open_fds ≡ false)
      → IsTable s.clients s.open_fds
      → recv_data_or_connection y cap_count w s ≡ some (more, t)
      → IsTable t.clients t.open_fds
  unfolding recv_data_or_connection
  recv_data_or_connection-IsTable w more s t fresh i e =
      elim (Bool-cases (has_socket y cap_count s)) [
        | inr gone ↦
            let es : s ≡ t = ground (arith, gone) in subst (λ u. IsTable u.clients u.open_fds) es i
        | inl there ↦ recv_selected-IsTable w more s t w.select fresh i (ground (arith, there))
      ]
