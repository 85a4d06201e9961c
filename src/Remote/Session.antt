-- ===== src/Remote/Session.antt =====
-- The calls that a binder sender makes from its constructor to its destructor.
use service_excutor.Prelude.{ℕ, ◌≡◌, refl, true, List, [], ◌∷◌, some, ◌>>=◌, Option-cases, inl, inr}
use service_excutor.Types.{SaceCommand, new_result, result_type_none, result_status_fail}
use service_excutor.Remote.Binder.{ISaceManager}
use service_excutor.Remote.Sender.{
  BinderSender, new_sender, init, forward, failing, excute_command, uninit, excute_commands,
  session, send_all,
}

-- The sender after its first command.
abbrev settled : BinderSender
settled = record {
  manager = true;
  listener = true;
  result = record new_result { result_type = result_type_none; result_status = result_status_fail };
}

module _ {S : Type 0} (m : ISaceManager S) (l : ℕ) where
  again_lem :
      (c : SaceCommand) (s : S)
      → excute_command (some m) (some l) c settled s
        ≡ (m.send_command c s >>= λ (r, t). some (r, settled, t))
  unfolding excute_command forward failing
  again_lem c s = refl

  first_lem :
      (c : SaceCommand) (s : S)
      → excute_command (some m) (some l) c new_sender s ≡ (
          m.register_listener (some l) s >>= λ t.
          m.send_command c t >>= λ (r, u). some (r, settled, u))
  unfolding excute_command forward failing init
  first_lem c s = elim (Option-cases (m.register_listener (some l) s)) [
    | inl e ↦ simp (e) refl
    | inr (t, e) ↦ simp (e) refl
  ]

  excute_commands_lem :
      (cs : List SaceCommand) (s : S)
      → excute_commands (some m) (some l) cs settled s
        ≡ (send_all m cs s >>= λ (rs, t). some (rs, settled, t))
  unfolding excute_commands send_all
  excute_commands_lem [] s = refl
  excute_commands_lem (c ∷ cs) s = elim (Option-cases (m.send_command c s)) [
    | inl e ↦ simp (again_lem c s, e) refl
    | inr ((r, t), e) ↦
        let rest = excute_commands_lem cs t in
        elim (Option-cases (send_all m cs t)) [
          | inl f ↦ simp (again_lem c s, e, rest, f) refl
          | inr ((rs, u), f) ↦ simp (again_lem c s, e, rest, f) refl
        ]
  ]

  -- A sender that finds the manager and can make its listener: one that is never used makes no
  -- call, and one that is used for any commands registers the listener once, before the first,
  -- sends each command once and in order, gives each result as the manager gave it, and
  -- unregisters at the end.
  pub session-send_all :
      (c : SaceCommand) (cs : List SaceCommand) (s : S)
      → (session (some m) (some l) [] s ≡ some ([], s))
        × (session (some m) (some l) (c ∷ cs) s ≡ (
            m.register_listener (some l) s >>= λ t.
            send_all m (c ∷ cs) t >>= λ (rs, u). m.unregister_listener u >>= λ v. some (rs, v)))
  unfolding session excute_commands uninit send_all
  session-send_all c cs s = (
    refl,
    elim (Option-cases (m.register_listener (some l) s)) [
      | inl e ↦ simp (first_lem c s, e) refl
      | inr (t, e) ↦ elim (Option-cases (m.send_command c t)) [
        | inl f ↦ simp (first_lem c s, e, f) refl
        | inr ((r, u), f) ↦ elim (Option-cases (send_all m cs u)) [
          | inl g ↦ simp (first_lem c s, e, f, excute_commands_lem cs u, g) refl
          | inr ((rs, v), g) ↦ simp (first_lem c s, e, f, excute_commands_lem cs u, g) refl
        ]
      ]
    ],
  )
