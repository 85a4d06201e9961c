-- ===== src/Remote/Calls.antt =====
-- A call of the manager through proxy and stub is the call itself.
use service_excutor.Prelude.{
  ℕ, ◌+◌, ◌^◌, ◌%◌, ◌<◌, ◌≤◌, ◌≡◌, refl, true, false, List, [], ◌∷◌, ◌++◌, map, Option, none, some,
  length, nat_eqb, ◌>>=◌, Option-cases, inl, inr, arith,
}
use service_excutor.Types.{
  SaceCommand, SaceResult, ResultType, result_type_fd, result_type_none, result_type_extra,
  result_type_label, payload_type, extra_bufer_len,
}
use service_excutor.Wire.Parcel.{
  Item, uint32, byte, uint64, utf8, bytes, bool, utf8_vector, file_descriptor, interface_token,
  strong_binder, Parcel, IsParcel, write_first, write_size,
}
use service_excutor.Wire.Command.{command_items, is_named, Fits, read_command, read_command_lem}
use service_excutor.Wire.Result.{
  HasFd, with_fd, without_fd, write_fd, result_items, write_result, read_result_lem,
}
use service_excutor.Remote.Binder.{
  ISaceManager, Binder, IsBinder, transact_sendcommand, transact_registerlistener,
  transact_unregisterlistener,
}
use service_excutor.Remote.Proxies.{
  Remote, Side, owned_fds, send_command_items, register_listener_items, unregister_listener_items,
  call_send_command, call_register_listener, call_unregister_listener, proxy,
}
use service_excutor.Remote.Stubs.{
  checked, sent_command, answer_command, answer_register, manager_on_transact,
}

-- A command that a parcel holds whole.
pub record IsSendable {P : Type 0} (y : Parcel P) (cap_count : ℕ) (c : SaceCommand) : Type 0 where
  pub named : is_named c.payload ≡ true
  pub fits : Fits y cap_count (payload_type c.payload) c.params
  pub sequence_fits : c.sequence < 2 ^ 32
  pub label_fits : c.label < 2 ^ 64
  pub extra_fits : length c.extra ≤ extra_bufer_len

-- The same of a result: it has a descriptor exactly if its type says so.
pub record IsAnswer {P : Type 0} (y : Parcel P) (r : SaceResult) : Type 0 where
  pub has_fd : HasFd y r.result_type r.result_fd
  pub sequence_fits : r.sequence < 2 ^ 32
  pub extra_fits : length r.result_extra ≤ extra_bufer_len

-- The kernel gives a descriptor a number of its own in the process that gets it.
abbrev pub arrives : (ℕ → ℕ) → Item → Item
arrives pass (file_descriptor (some n)) = file_descriptor (some (pass n))
arrives pass (file_descriptor none) = file_descriptor none
arrives pass (uint32 n) = uint32 n
arrives pass (byte n) = byte n
arrives pass (uint64 n) = uint64 n
arrives pass (utf8 s) = utf8 s
arrives pass (bytes b) = bytes b
arrives pass (bool b) = bool b
arrives pass (utf8_vector ss) = utf8_vector ss
arrives pass (interface_token n d) = interface_token n d
arrives pass (strong_binder l) = strong_binder l

-- The result in the client's process: the descriptor has its number there.
abbrev passed_fd : (ℕ → ℕ) → Option ℕ → Option ℕ
passed_fd pass none = none
passed_fd pass (some n) = some (pass n)

abbrev pub in_client : (ℕ → ℕ) → SaceResult → SaceResult
in_client pass r = record r { result_fd = passed_fd pass r.result_fd }

abbrev pub fd_list : Option ℕ → List ℕ
fd_list none = []
fd_list (some n) = n ∷ []

-- What the call itself gives, as the client has it after the proxy's reply is gone: the descriptor
-- of the result is one of those that are closed.
abbrev pub after_reply :
    {S : Type 0} → (ℕ → ℕ) → List ℕ → Option (SaceResult × S) → Option (SaceResult × Side S)
after_reply pass closed none = none
after_reply pass closed (some (r, t)) =
    some (in_client pass r, (t, closed ++ fd_list (passed_fd pass r.result_fd)))

abbrev pub beside : {S : Type 0} → List ℕ → Option S → Option (Side S)
beside closed none = none
beside closed (some t) = some (t, closed)

-- The reply in the client's process.
crossed_lem :
    {P : Type 0} (y : Parcel P) (pass : ℕ → ℕ) (r : SaceResult) (t : ResultType) (fd : Option ℕ)
    → r.result_type ≡ t
    → r.result_fd ≡ fd
    → HasFd y t fd
    → HasFd y t (passed_fd pass fd)
      × (map (arrives pass) (write_result y r)
          ≡ write_first (y.data_size (result_items r) % 2 ^ 32) (result_items (in_client pass r)))
      × (owned_fds
            (write_first (y.data_size (result_items r) % 2 ^ 32) (result_items (in_client pass r)))
          ≡ fd_list (passed_fd pass fd))
unfolding write_result result_items write_fd write_size owned_fds
crossed_lem y pass r result_type_fd (some n) e f with_fd =
    (with_fd, simp (e, f) refl, simp (e, f) refl)
crossed_lem y pass r result_type_fd none e f (without_fd d) = absurd (d refl)
crossed_lem y pass r result_type_none none e f (without_fd d) =
    (without_fd d, simp (e) refl, simp (e) refl)
crossed_lem y pass r result_type_extra none e f (without_fd d) =
    (without_fd d, simp (e) refl, simp (e) refl)
crossed_lem y pass r result_type_label none e f (without_fd d) =
    (without_fd d, simp (e) refl, simp (e) refl)
crossed_lem y pass r result_type_none (some n) e f h = elim h [ ]
crossed_lem y pass r result_type_extra (some n) e f h = elim h [ ]
crossed_lem y pass r result_type_label (some n) e f h = elim h [ ]

module _ {P S : Type 0} (y : Parcel P) (b : Binder P) (cap_count policy : ℕ) (fresh : SaceCommand)
    (pass : ℕ → ℕ) (m : ISaceManager S) where
  -- Binder brings the parcel to the stub, and the reply back.
  abbrev pub to_stub : Remote S
  to_stub code items s =
      manager_on_transact y b cap_count fresh m code (y.holding items) s >>= λ (st, reply, t).
      some (st, map (arrives pass) reply, t)

  abbrev pub over_binder : ISaceManager (Side S)
  over_binder = proxy y policy b to_stub

  sent_lem :
      (c : SaceCommand)
      → IsParcel y
      → cap_count ≤ 64
      → IsSendable y cap_count c
      → sent_command y b cap_count fresh m (y.holding (uint32 1 ∷ command_items c)) ≡ some c
  unfolding sent_command command_items
  sent_lem c law bound v =
      let one : 1 < 2 ^ 32 = omega arith in
      let e : read_command y cap_count (y.holding (command_items c)) ≡ some (0, c, y.holding []) =
        read_command_lem y cap_count 0 c law bound (omega arith) v.named v.fits v.sequence_fits
          v.label_fits v.extra_fits in
      simp (law.reads_uint32, one, e) refl

  send_lem :
      (c : SaceCommand) (s : S) (closed : List ℕ)
      → IsParcel y
      → IsBinder y b
      → cap_count ≤ 64
      → IsSendable y cap_count c
      → ((r : SaceResult) (t : S) → m.send_command c s ≡ some (r, t) → IsAnswer y r)
      → over_binder.send_command c (s, closed) ≡ after_reply pass closed (m.send_command c s)
  unfolding proxy call_send_command manager_on_transact checked answer_command send_command_items
      write_size
  send_lem c s closed law tokens bound v answers =
      let code : nat_eqb (transact_sendcommand b) (transact_sendcommand b) ≡ true = ground arith in
      let sent = sent_lem c law bound v in
      elim (Option-cases (m.send_command c s)) [
        | inl lost ↦ simp (code, tokens.checks, sent, lost) refl
        | inr ((r, t), e) ↦
            let q = answers r t e in
            let (has, crossed, owned) =
              crossed_lem y pass r r.result_type r.result_fd refl refl q.has_fd in
            let back =
              read_result_lem y (y.data_size (result_items r) % 2 ^ 32) (in_client pass r) law
                (omega arith) has q.sequence_fits q.extra_fits in
            simp (code, tokens.checks, sent, e, crossed, back, owned) refl
      ]

  pub register_lem :
      (l : Option ℕ) (s : S) (closed : List ℕ)
      → IsBinder y b
      → over_binder.register_listener l (s, closed) ≡ beside closed (m.register_listener l s)
  unfolding proxy call_register_listener manager_on_transact checked answer_register
      register_listener_items transact_registerlistener
  register_lem l s closed tokens =
      let differs : nat_eqb (transact_sendcommand b + 1) (transact_sendcommand b) ≡ false =
        ground arith in
      let code : nat_eqb (transact_sendcommand b + 1) (transact_sendcommand b + 1) ≡ true =
        ground arith in
      elim (Option-cases (m.register_listener l s)) [
        | inl lost ↦ simp (differs, code, tokens.checks, tokens.reads_strong_binder, lost) refl
        | inr (t, e) ↦ simp (differs, code, tokens.checks, tokens.reads_strong_binder, e) refl
      ]

  pub unregister_lem :
      (s : S) (closed : List ℕ)
      → IsBinder y b
      → over_binder.unregister_listener (s, closed) ≡ beside closed (m.unregister_listener s)
  unfolding proxy call_unregister_listener manager_on_transact checked unregister_listener_items
      transact_registerlistener transact_unregisterlistener
  unregister_lem s closed tokens =
      let k = transact_sendcommand b in
      let e1 : nat_eqb (k + 1 + 1) k ≡ false = ground arith in
      let e2 : nat_eqb (k + 1 + 1) (k + 1) ≡ false = ground arith in
      let e3 : nat_eqb (k + 1 + 1) (k + 1 + 1) ≡ true = ground arith in
      elim (Option-cases (m.unregister_listener s)) [
        | inl lost ↦ simp (e1, e2, e3, tokens.checks, lost) refl
        | inr (t, e) ↦ simp (e1, e2, e3, tokens.checks, e) refl
      ]

  -- A manager that is called through the proxy and the stub: a registration with or without a
  -- listener and an unregistration do what they do without them. A command that a parcel holds
  -- whole does too, where the manager's result is one that a parcel holds whole, but for a
  -- descriptor in the result: the client has the number that the kernel gave it in its process, and
  -- that descriptor is closed when the call returns.
  pub proxy-manager_on_transact :
      (c : SaceCommand) (l : Option ℕ) (s : S) (closed : List ℕ)
      → IsParcel y
      → IsBinder y b
      → cap_count ≤ 64
      → IsSendable y cap_count c
      → ((r : SaceResult) (t : S) → m.send_command c s ≡ some (r, t) → IsAnswer y r)
      → (over_binder.send_command c (s, closed) ≡ after_reply pass closed (m.send_command c s))
        × (over_binder.register_listener l (s, closed) ≡ beside closed (m.register_listener l s))
        × (over_binder.unregister_listener (s, closed) ≡ beside closed (m.unregister_listener s))
  proxy-manager_on_transact c l s closed law tokens bound v answers = (
    send_lem c s closed law tokens bound v answers,
    register_lem l s closed tokens,
    unregister_lem s closed tokens,
  )
