-- ===== src/Client/Known.antt =====
-- A service that the daemon has already, as `checkService` finds it.
use service_excutor.Prelude.{
  ℕ, suc, ◌<◌, ◌^◌, ◌≡◌, refl, Option, none, some, Text, lookup, store, lookup-insert, nat_key,
  nat_eqb_iff, text_key, text_eqb_iff, take, arith,
}
use service_excutor.Types.{
  SaceCommand, SaceResult, SaceCommandParams, SaceWriter, service_payload, service_cmd_info,
  service_flag_normal, same_flags, c_str,
}
use service_excutor.Service.State.{ServiceInfo, ServiceExcutor, World, add_writer}
use service_excutor.Service.Handlers.{handle, handle_service_info, info_result, service_get_by_name}
use service_excutor.Service.Invariant.{Inv, IsConsistent-store}
use service_excutor.Client.Calls.{init_command, send}
use service_excutor.Client.Objects.{is_ok, new_service_obj}
use service_excutor.Client.Manager.{SaceManager, Defaults, add_service_obj, register_service}
use service_excutor.Client.Requests.{query, query_service, check_service, take_found}
use service_excutor.Client.Info.{copied_info-service_info_bytes}
use service_excutor.Client.Daemon.{IsQuiet, daemon, answer, monitor-quiet}

module _ (w : World) (wr : SaceWriter) (self : Text) (other : SaceCommand → SaceResult)
    (d : Defaults) (quiet : IsQuiet w) where
  -- The executor after it took the client as one that is told of the service's end.
  abbrev pub watching : ℕ → ServiceInfo → ServiceExcutor → ServiceExcutor
  watching a i s = record s { heap = store a (record i { writer = add_writer wr i.writer }) s.heap }

  info_lem :
      (c : SaceCommand) (a : ℕ) (i : ServiceInfo) (s : ServiceExcutor)
      → lookup c.name s.names ≡ some a
      → lookup a s.heap ≡ some i
      → i.flags ≡ service_flag_normal
      → c.command ≡ service_get_by_name
      → handle w service_cmd_info c service_flag_normal wr s
        ≡ some (watching a i s, info_result i c)
  unfolding handle handle_service_info same_flags
  info_lem c a i s known at flags by = ground (arith, text_eqb_iff c.command service_get_by_name)

  answer_lem :
      (c : SaceCommand) (a n : ℕ) (i : ServiceInfo) (s : ServiceExcutor)
      → Inv s
      → lookup c.name s.names ≡ some a
      → lookup a s.heap ≡ some i
      → i.flags ≡ service_flag_normal
      → c.command ≡ service_get_by_name
      → answer w wr self other (service_payload service_cmd_info service_flag_normal) c (n, s)
        ≡ some (info_result i c, (n, watching a i s))
  unfolding answer
  answer_lem c a n i s v known at flags by =
      let j : ServiceInfo = record i { writer = add_writer wr i.writer } in
      let vt : Inv (watching a i s) =
        IsConsistent-store s.running s.seq s.names s.heap a i j v at refl refl in
      ground (arith, info_lem c a i s known at flags by, monitor-quiet w (watching a i s) quiet vt)

  query_service-known :
      (name : Text) (a n : ℕ) (i : ServiceInfo) (s : ServiceExcutor)
      → Inv s
      → lookup name s.names ≡ some a
      → lookup a s.heap ≡ some i
      → i.flags ≡ service_flag_normal
      → i.label < 256 ^ 8
      → query_service (daemon w wr self other) d name (n, s)
        ≡ some (
          some (new_service_obj i.label (take 63 (c_str i.name)) (take 127 (c_str i.cmd_line))),
          (suc n, watching a i s),
        )
  unfolding query_service query send is_ok info_result
  query_service-known name a n i s v known at flags bound =
      let asked : SaceCommand = record (init_command self n) {
        name = name;
        command = service_get_by_name;
        payload = service_payload service_cmd_info service_flag_normal;
      } in
      ground (
        arith,
        answer_lem asked a (suc n) i s v known at flags refl,
        copied_info-service_info_bytes i.name i.cmd_line i.state i.label bound,
      )

  -- The name of a service that a client may see, whatever command line and parameters are given:
  -- nothing is started, the object has the label of the service and its name and command line,
  -- cut to 63 and to 127 characters, and the client is told of the service's end from now on.
  pub check_service-known :
      (name : Text) (cmd : Option Text) (param : Option SaceCommandParams)
      (m : SaceManager (ℕ × ServiceExcutor)) (a n : ℕ) (i : ServiceInfo) (s : ServiceExcutor)
      → Inv s
      → m.sender ≡ (n, s)
      → lookup name s.names ≡ some a
      → lookup a s.heap ≡ some i
      → i.flags ≡ service_flag_normal
      → i.label < 256 ^ 8
      → lookup m.next m.service_objs ≡ none
      → lookup i.label m.services ≡ none
      → (t : SaceManager (ℕ × ServiceExcutor)) × (check_service
            (daemon w wr self other)
            d
            name
            cmd
            param
            m
          ≡ some (m.next, t))
        × (t.sender ≡ (suc n, watching a i s))
        × (lookup i.label t.services ≡ some m.next)
        × (lookup m.next t.service_objs
            ≡ some (new_service_obj i.label (take 63 (c_str i.name)) (take 127 (c_str i.cmd_line))))
  unfolding check_service take_found register_service add_service_obj new_service_obj
  check_service-known name cmd param m a n i s v e known at flags bound new free =
      let o = new_service_obj i.label (take 63 (c_str i.name)) (take 127 (c_str i.cmd_line)) in
      let end : SaceManager (ℕ × ServiceExcutor) = record m { sender = (suc n, watching a i s) } in
      (
        (register_service i.label o end).1,
        ground (arith, e, query_service-known name a n i s v known at flags bound),
        refl,
        ground (
          arith,
          lookup-insert i.label i.label m.next m.services free,
          nat_eqb_iff i.label i.label,
        ),
        ground (arith, lookup-insert m.next m.next o m.service_objs new, nat_eqb_iff m.next m.next),
      )
