-- ===== src/Normal/Invariant.antt =====
-- Every command that is listed or that a label finds has its object; each message is answered.
use service_excutor.Prelude.{
  ℕ, ◌≡◌, refl, sym, true, List, [], ◌∷◌, ◌++◌, Option, none, some, Map, lookup, insert, store,
  lookup-insert, lookup-store, contains, contains-append, nat_key, nat_eqb, nat_eqb_iff, arith, ◌⊎◌,
  inl, inr, Bool-cases, Option-cases, append_assoc, append-nil,
}
use service_excutor.Types.{
  Effect, kill, send_result, SaceCommand, SaceResult, SaceWriter, SaceReaderMessage, CommandFlags,
  NormalCommandType, normal_cmd_start, normal_cmd_close, normal_cmd_other, result_status_ok,
  normal_payload,
}
use service_excutor.Service.Handlers.{sigint}
use service_excutor.Normal.Popen.{Children, Spawn, sace_popen, sace_pclose}
use service_excutor.Normal.Handlers.{
  CommandInfo, NormalExcutor, emit, failed, is_out, new_command, fd_result, opened, close_found,
  close_normal_cmd, excute_normal, interrupt_all, on_uninit, remove_vecotr_item,
}

pub record IsLinked (running : List ℕ) (seq : Map ℕ ℕ) (heap : Map ℕ CommandInfo) : Type 0 where
  pub live : (a : ℕ) → contains a running ≡ true → (i : CommandInfo) × (lookup a heap ≡ some i)
  pub by_label : (l a : ℕ) → lookup l seq ≡ some a → (a ≡ l) × (contains a running ≡ true)

abbrev pub Inv : NormalExcutor → Type 0
Inv s = IsLinked s.running s.seq s.heap

add-IsLinked :
    (r : List ℕ) (sq : Map ℕ ℕ) (h : Map ℕ CommandInfo) (a : ℕ) (i : CommandInfo)
    → IsLinked r sq h
    → lookup a h ≡ none
    → IsLinked (r ++ a ∷ []) (insert a a sq) (store a i h)
add-IsLinked r sq h a i v e = record {
  live = λ b c. elim (Bool-cases (nat_eqb a b)) [
    | inl t ↦ (i, ground (arith, lookup-store b a i h))
    | inr t ↦
        let k = v.live b (ground (arith, contains-append b r (a ∷ []))) in
        (k.0, ground (arith, lookup-store b a i h))
  ];
  by_label = λ l b f. ground (
    arith,
    lookup-insert l a a sq (absent r sq h a v e),
    contains-append b r (a ∷ []),
    v.by_label l b,
  );
}
  where
    absent :
        (r : List ℕ) (sq : Map ℕ ℕ) (h : Map ℕ CommandInfo) (a : ℕ)
        → IsLinked r sq h
        → lookup a h ≡ none
        → lookup a sq ≡ none
    absent r sq h a v e = elim (Option-cases (lookup a sq)) [
      | inl n ↦ n
      | inr (b, f) ↦ let m = v.by_label a b f in let k = v.live b m.1 in ground arith
    ]

opened-Inv :
    (y : Spawn) (c : SaceCommand) (wr : SaceWriter) (s : NormalExcutor)
    (q : Option (ℕ × ℕ) × Children)
    → Inv s
    → lookup y.fresh s.heap ≡ none
    → Inv (opened y c wr s q)
unfolding opened emit
opened-Inv y c wr s (none, ch) v e = v
opened-Inv y c wr s (some (fd, pid), ch) v e =
    add-IsLinked s.running s.seq s.heap y.fresh (new_command y fd pid c wr) v e

-- The last thing that a call does is to send its client a result.
abbrev pub Answers : SaceWriter → NormalExcutor → Type 0
Answers wr t =
    (before : List Effect) × (r : SaceResult) × (t.children.trace ≡ before ++ send_result wr r ∷ [])

opened-Answers :
    (y : Spawn) (c : SaceCommand) (wr : SaceWriter) (s : NormalExcutor)
    (q : Option (ℕ × ℕ) × Children)
    → Answers wr (opened y c wr s q)
unfolding opened emit
opened-Answers y c wr s (none, ch) = (ch.trace, failed c, refl)
opened-Answers y c wr s (some (fd, pid), ch) = (ch.trace, fd_result y.fresh fd c, refl)

abbrev SameObjects : NormalExcutor → NormalExcutor → Type 0
SameObjects s t = (t.running ≡ s.running) × (t.heap ≡ s.heap)

close_found-Inv :
    (y : Spawn) (c : SaceCommand) (wr : SaceWriter) (a : ℕ) (i : CommandInfo) (s : NormalExcutor)
    → Inv s
    → Inv (close_found y c wr a i s)
      × Answers wr (close_found y c wr a i s)
      × SameObjects s (close_found y c wr a i s)
unfolding close_found emit remove_vecotr_item
close_found-Inv y c wr a i s v = elim (Option-cases i.fd) [
  | inl n ↦ rw (n, close_found, emit) (v, (s.children.trace, failed c, refl), (refl, refl))
  | inr (fd, n) ↦
      rw (n, close_found, emit)
        (
          v,
          (
            (sace_pclose y fd s.children).1.trace,
            record (failed c) { result_status = result_status_ok },
            refl,
          ),
          (refl, refl),
        )
]

close-Inv :
    (y : Spawn) (c : SaceCommand) (wr : SaceWriter) (s : NormalExcutor)
    → Inv s
    → (t : NormalExcutor) × (close_normal_cmd y c wr s ≡ some t)
      × Inv t
      × Answers wr t
      × SameObjects s t
unfolding close_normal_cmd
close-Inv y c wr s v = elim (Option-cases (lookup c.label s.seq)) [
  | inl n ↦ (
    emit (send_result wr (failed c)) s,
    ground arith,
    unfold emit in v,
    unfold emit in (s.children.trace, failed c, refl),
    unfold emit in (refl, refl),
  )
  | inr (a, n) ↦
      let k = v.live a (v.by_label c.label a n).1 in
      let w = close_found-Inv y c wr a k.0 s v in
      (close_found y c wr a k.0 s, ground arith, w.0, w.1, w.2)
]

-- A start or a close, with an address that is new: the call returns, every listed command and
-- every label that is known still has its object, and the client gets a result.
pub excute_normal_answered :
    (y : Spawn) (m : SaceReaderMessage) (s : NormalExcutor) (k : NormalCommandType)
    (f : CommandFlags)
    → m.msg_cmd.payload ≡ normal_payload k f
    → (k ≡ normal_cmd_start) ⊎ (k ≡ normal_cmd_close)
    → Inv s
    → lookup y.fresh s.heap ≡ none
    → (t : NormalExcutor) × (excute_normal y m s ≡ some t) × Inv t × Answers m.msg_writer t
unfolding excute_normal
excute_normal_answered y m s k f e (inl st) v free =
    let q = sace_popen y (is_out f) s.children in
    (
      opened y m.msg_cmd m.msg_writer s q,
      ground arith,
      opened-Inv y m.msg_cmd m.msg_writer s q v free,
      opened-Answers y m.msg_cmd m.msg_writer s q,
    )
excute_normal_answered y m s k f e (inr cl) v free =
    let r = close-Inv y m.msg_cmd m.msg_writer s v in (r.0, ground (arith, r.1), r.2, r.3)

-- A command type that is neither is logged and never answered: its client gets no result.
pub excute_normal_unanswered :
    (y : Spawn) (m : SaceReaderMessage) (s : NormalExcutor) (n : ℕ) (f : CommandFlags)
    → m.msg_cmd.payload ≡ normal_payload (normal_cmd_other n) f
    → excute_normal y m s ≡ some s
unfolding excute_normal
excute_normal_unanswered y m s n f e = ground arith

-- The signals that `onUninit` sends for a list of commands.
unfoldable pub signals : Map ℕ CommandInfo → List ℕ → List Effect
signals h [] = []
signals h (a ∷ l) = elim (lookup a h) [ none ↦ [] | some i ↦ kill i.pid sigint ∷ [] ] ++ signals h l

interrupt_all_lem :
    (l : List ℕ) (s : NormalExcutor)
    → ((a : ℕ) → contains a l ≡ true → (i : CommandInfo) × (lookup a s.heap ≡ some i))
    → (t : NormalExcutor) × (interrupt_all l s ≡ some t)
      × (t.children.trace ≡ s.children.trace ++ signals s.heap l)
unfolding interrupt_all signals emit
interrupt_all_lem [] s live = (s, refl, sym (append-nil s.children.trace))
interrupt_all_lem (a ∷ l) s live =
    let (i, e) = live a (ground (arith, nat_eqb_iff a a)) in
    let s' : NormalExcutor = emit (kill i.pid sigint) s in
    let (t, r, tr) = interrupt_all_lem l s' (λ b c. live b (ground arith)) in
    (
      t,
      ground arith,
      ground (arith, append_assoc s.children.trace (kill i.pid sigint ∷ []) (signals s.heap l)),
    )

-- At the end every command that was ever started gets a SIGINT under its pid, whether it was
-- closed, and its process waited for, or not.
pub on_uninit_closed :
    (y : Spawn) (c : SaceCommand) (wr : SaceWriter) (s : NormalExcutor)
    → Inv s
    → (u t : NormalExcutor) × (close_normal_cmd y c wr s ≡ some u)
      × (on_uninit u ≡ some t)
      × (t.children.trace ≡ u.children.trace ++ signals s.heap s.running)
unfolding on_uninit
on_uninit_closed y c wr s v =
    let (u, e, vu, _, same) = close-Inv y c wr s v in
    let (t, r, tr) = interrupt_all_lem u.running u vu.live in
    (u, t, e, r, ground (arith, tr, same.0, same.1))
