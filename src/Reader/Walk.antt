-- ===== src/Reader/Walk.antt =====
-- The walk of a round over the slots of the table.
use service_excutor.Prelude.{
  Bool-cases, ℕ, ◌≡◌, refl, sym, true, false, ◌&&◌, List, [], ◌∷◌, Option, none, some, contains,
  ltb, nat_key, if◌then◌else◌, length, arith, nat_eqb_iff, ◌>>=◌, bind-some, ◌⊎◌, inl, inr,
}
use service_excutor.Wire.Parcel.{Parcel}
use service_excutor.Reader.Sockets.{
  without, World, SocketReader, max_socket_buf, recv_bytes, recv_data, recv_client, recv_clients,
  handle_socket_msg, Input, ended, received,
}
use service_excutor.Reader.Table.{holds, distinct, all_open, contains-without, all_open-without}

-- What a walk over the slots leaves of them and of the descriptors.
pub record Kept (before after : List (Option ℕ)) (opened left : List ℕ) : Type 0 where
  pub size : length after ≡ length before
  pub fewer : (x : ℕ) → holds x before ≡ false → holds x after ≡ false
  pub apart : distinct after ≡ true
  pub known : all_open after left ≡ true
  pub others : (x : ℕ) → holds x before ≡ false → contains x opened ≡ true → contains x left ≡ true

module _ {P : Type 0} (y : Parcel P) (cap_count : ℕ) where
  recv_bytes-open :
      (w : World P) (fd size : ℕ) (p : P) (s t : SocketReader)
      → recv_bytes y cap_count w fd size p s ≡ some t
      → t.open_fds ≡ s.open_fds
  unfolding recv_bytes handle_socket_msg
  recv_bytes-open w fd size p s t e = ground arith

  recv_data-open :
      (w : World P) (fd size : ℕ) (p : P) (s t : SocketReader)
      → recv_data y cap_count w fd size p s ≡ some t
      → t.open_fds ≡ s.open_fds
  unfolding recv_data
  recv_data-open w fd size p s t e = elim (Bool-cases (ltb max_socket_buf size)) [
    | inl h ↦
        recv_bytes-open w fd max_socket_buf (w.first max_socket_buf p) s t (ground (arith, e, h))
    | inr h ↦ recv_bytes-open w fd size p s t (ground (arith, e, h))
  ]

  recv_client-open :
      (w : World P) (fd : ℕ) (c : Option ℕ) (s t : SocketReader) (i : Input P)
      → w.input fd ≡ i
      → recv_client y cap_count w fd s ≡ some (c, t)
      → ((c ≡ some fd) × (t.open_fds ≡ s.open_fds))
        ⊎ ((c ≡ none) × (t.open_fds ≡ without fd s.open_fds))
  unfolding recv_client
  recv_client-open w fd c s t ended i e = ground (arith, i)
  recv_client-open w fd c s t (received size p) i e =
      let (u, now, end) =
        bind-some {B = Option ℕ × SocketReader} (recv_data y cap_count w fd size p s)
          (λ u. some (some fd, u)) (c, t) (ground (arith, i)) in
      ground (arith, recv_data-open w fd size p s u now)

  -- The slot of one client is as it was, or its descriptor is closed and the slot is free.
  slot_lem :
      (w : World P) (ready : List ℕ) (fd : ℕ) (c : Option ℕ) (s t : SocketReader)
      → (if ltb 0 fd && contains fd ready
          then recv_client y cap_count w fd s
          else some (some fd, s))
        ≡ some (c, t)
      → ((c ≡ some fd) × (t.open_fds ≡ s.open_fds))
        ⊎ ((c ≡ none) × (t.open_fds ≡ without fd s.open_fds))
  slot_lem w ready fd c s t e = ground (arith, recv_client-open w fd c s t (w.input fd) refl)

  Kept-none :
      (cs rest : List (Option ℕ)) (opened left : List ℕ)
      → Kept cs rest opened left
      → Kept (none ∷ cs) (none ∷ rest) opened left
  unfolding holds distinct all_open
  Kept-none cs rest opened left k = record {
    size = ground (arith, k.size);
    fewer = k.fewer;
    apart = k.apart;
    known = k.known;
    others = k.others;
  }

  Kept-some :
      (fd : ℕ) (cs rest : List (Option ℕ)) (opened left : List ℕ)
      → holds fd cs ≡ false
      → contains fd opened ≡ true
      → Kept cs rest opened left
      → Kept (some fd ∷ cs) (some fd ∷ rest) opened left
  unfolding holds distinct all_open
  Kept-some fd cs rest opened left n o k = record {
    size = ground (arith, k.size);
    fewer = λ x h. ground (arith, k.fewer x);
    apart = ground (arith, k.apart, k.fewer fd n);
    known = ground (arith, k.known, k.others fd n o);
    others = λ x h. ground (arith, k.others x);
  }

  Kept-closed :
      (fd : ℕ) (cs rest : List (Option ℕ)) (opened left : List ℕ)
      → holds fd cs ≡ false
      → Kept cs rest (without fd opened) left
      → Kept (some fd ∷ cs) (none ∷ rest) opened left
  unfolding holds distinct all_open
  Kept-closed fd cs rest opened left n k = record {
    size = ground (arith, k.size);
    fewer = λ x h. ground (arith, k.fewer x);
    apart = k.apart;
    known = k.known;
    others = λ x h o.
        ground
          (arith, k.others x, contains-without x fd opened, nat_eqb_iff x fd, nat_eqb_iff fd x);
  }

  pub recv_clients_lem :
      (w : World P) (ready : List ℕ) (cs rest : List (Option ℕ)) (s t : SocketReader)
      → recv_clients y cap_count w ready cs s ≡ some (rest, t)
      → distinct cs ≡ true
      → all_open cs s.open_fds ≡ true
      → Kept cs rest s.open_fds t.open_fds
  unfolding recv_clients distinct all_open
  recv_clients_lem w ready [] rest s t e d a =
      let er : rest ≡ [] = ground arith in
      let et : t.open_fds ≡ s.open_fds = ground arith in
      rw er (
        rw et (record { size = refl; fewer = λ x h. h; apart = d; known = a; others = λ x h o. o }))
  recv_clients_lem w ready (none ∷ cs) rest s t e d a =
      let ((r, u), now, end) =
        bind-some {B = List (Option ℕ) × SocketReader} (recv_clients y cap_count w ready cs s)
          (λ (r, u). some (none ∷ r, u)) (rest, t) e in
      let er : rest ≡ none ∷ r = ground (arith, end) in
      let et : t.open_fds ≡ u.open_fds = ground (arith, end) in
      rw er (
        rw et (
          Kept-none cs r s.open_fds u.open_fds
            (recv_clients_lem w ready cs r s u now (ground arith) (ground arith))))
  recv_clients_lem w ready (some fd ∷ cs) rest s t e d a =
      let ((c, s1), first, tail) =
        bind-some {B = List (Option ℕ) × SocketReader}
          (if ltb 0 fd && contains fd ready
            then recv_client y cap_count w fd s
            else some (some fd, s))
          (λ (c, s1). recv_clients y cap_count w ready cs s1 >>= λ (r, u). some (c ∷ r, u))
          (rest, t) e in
      let ((r, u), now, end) =
        bind-some {B = List (Option ℕ) × SocketReader} (recv_clients y cap_count w ready cs s1)
          (λ (r, u). some (c ∷ r, u)) (rest, t) tail in
      let et : t.open_fds ≡ u.open_fds = ground (arith, end) in
      let new : holds fd cs ≡ false = ground (arith, d) in
      elim (slot_lem w ready fd c s s1 first) [
        | inl (ec, eo) ↦
            let er : rest ≡ some fd ∷ r = ground (arith, end, ec) in
            let k : Kept cs r s.open_fds u.open_fds =
              rw (sym eo)
                (recv_clients_lem w ready cs r s1 u now (ground arith) (ground (arith, eo))) in
            rw er (rw et (Kept-some fd cs r s.open_fds u.open_fds new (ground arith) k))
        | inr (ec, eo) ↦
            let er : rest ≡ none ∷ r = ground (arith, end, ec) in
            let k : Kept cs r (without fd s.open_fds) u.open_fds = rw (sym eo) (
              recv_clients_lem w ready cs r s1 u now (ground arith)
                (ground (arith, eo, all_open-without fd cs s.open_fds))) in
            rw er (rw et (Kept-closed fd cs r s.open_fds u.open_fds new k))
      ]
