-- ===== src/Normal/Handlers.antt =====
-- `SaceNormalExcutor`: its state and its operations. A `CommandInfo*` is the address of an entry
-- of `heap` and is also the command's label. Undefined behaviour is `none`.
use service_excutor.Prelude.{
  ℕ, Bool, true, false, List, [], ◌∷◌, ◌++◌, Option, none, some, Text, Map, lookup, insert, store,
  erase, nat_key, nat_eqb, if◌then◌else◌, ◌>>=◌,
}
use service_excutor.Types.{
  normal_cmd_start, normal_cmd_close, normal_cmd_other, CommandFlags, cmd_flag_in, cmd_flag_out,
  cmd_flag_other, result_status_ok, result_status_fail, result_type_none, result_type_fd,
  response_type_normal, response_status_signal, SaceCommand, SaceResult, SaceWriter,
  SaceReaderMessage, SaceStatusResponse, normal_payload, service_payload, event_payload,
  other_payload, Effect, send_result, send_response, kill, le_bytes,
}
use service_excutor.Service.Handlers.{sigint, sigkill}
use service_excutor.Normal.Popen.{Children, Spawn, sace_popen, sace_pclose}

pub record CommandInfo : Type 0 where
  pub fd : Option ℕ
  pub cmd_line : Text
  pub label : ℕ
  pub writer : SaceWriter
  pub pid : ℕ

-- `mFinishedCmd` is never used.
pub record NormalExcutor : Type 0 where
  pub running : List ℕ
  pub seq : Map ℕ ℕ
  pub heap : Map ℕ CommandInfo
  pub children : Children

unfoldable pub emit : Effect → NormalExcutor → NormalExcutor
emit x s = record s {
  children = record { pidlist = s.children.pidlist; trace = s.children.trace ++ x ∷ [] };
}

abbrev pub failed : SaceCommand → SaceResult
failed c = record {
  sequence = c.sequence;
  name = [];
  result_type = result_type_none;
  result_status = result_status_fail;
  result_extra = [];
  result_fd = none;
}

abbrev pub is_out : CommandFlags → Bool
is_out cmd_flag_out = true
is_out cmd_flag_in = false
is_out (cmd_flag_other n) = false

unfoldable pub new_command : Spawn → ℕ → ℕ → SaceCommand → SaceWriter → CommandInfo
new_command y fd pid c wr = record {
  fd = some fd;
  cmd_line = c.command;
  label = y.fresh;
  writer = wr;
  pid = pid;
}

unfoldable pub fd_result : ℕ → ℕ → SaceCommand → SaceResult
unfolding le_bytes
fd_result a fd c = record (failed c) {
  result_type = result_type_fd;
  result_status = result_status_ok;
  result_extra = le_bytes 8 a;
  result_fd = some fd;
}

-- `startNormalCmd` after `sace_popen`.
unfoldable pub opened :
    Spawn → SaceCommand → SaceWriter → NormalExcutor → Option (ℕ × ℕ) × Children → NormalExcutor
unfolding new_command fd_result emit
opened y c wr s (none, ch) = emit (send_result wr (failed c)) (record s { children = ch })
opened y c wr s (some (fd, pid), ch) = emit (send_result wr (fd_result y.fresh fd c)) (record {
  running = s.running ++ y.fresh ∷ [];
  seq = insert y.fresh y.fresh s.seq;
  heap = store y.fresh (new_command y fd pid c wr) s.heap;
  children = ch;
})

-- `startNormalCmd`
unfoldable pub start_normal_cmd :
    Spawn → SaceCommand → CommandFlags → SaceWriter → NormalExcutor → NormalExcutor
unfolding sace_popen opened
start_normal_cmd y c f wr s = opened y c wr s (sace_popen y (is_out f) s.children)

abbrev erase_first : List ℕ → ℕ → List ℕ
erase_first [] item = []
erase_first (x ∷ list) item = if nat_eqb x item then list else x ∷ erase_first list item

-- The caller's vector after the call, and the parameter's: it is passed by value.
unfoldable pub remove_vecotr_item : List ℕ → ℕ → List ℕ × List ℕ
remove_vecotr_item list item = (list, erase_first list item)

-- `closeNormalCmd` once the object is found.
unfoldable pub close_found :
    Spawn → SaceCommand → SaceWriter → ℕ → CommandInfo → NormalExcutor → NormalExcutor
unfolding sace_pclose remove_vecotr_item emit
close_found y c wr a i s = elim i.fd [
  | none ↦ emit (send_result wr (failed c)) s
  | some fd ↦
      let ch = (sace_pclose y fd s.children).1 in
      emit (send_result wr (record (failed c) { result_status = result_status_ok }))
        (record s { running = (remove_vecotr_item s.running a).0; children = ch })
]

-- `closeNormalCmd`
unfoldable pub close_normal_cmd :
    Spawn → SaceCommand → SaceWriter → NormalExcutor → Option NormalExcutor
unfolding close_found emit
close_normal_cmd y c wr s = elim (lookup c.label s.seq) [
  | none ↦ some (emit (send_result wr (failed c)) s)
  | some a ↦ lookup a s.heap >>= λ i. some (close_found y c wr a i s)
]

-- `excuteNormal` for the arm of the union that `type` names; a command that is neither is only
-- logged.
unfoldable pub excute_normal : Spawn → SaceReaderMessage → NormalExcutor → Option NormalExcutor
unfolding start_normal_cmd close_normal_cmd
excute_normal y m s = elim m.msg_cmd.payload [
  | normal_payload t f ↦ elim t [
    | normal_cmd_start ↦ some (start_normal_cmd y m.msg_cmd f m.msg_writer s)
    | normal_cmd_close ↦ close_normal_cmd y m.msg_cmd m.msg_writer s
    | normal_cmd_other n ↦ some s
  ]
  | service_payload t f ↦ none
  | event_payload t f ↦ none
  | other_payload n ↦ none
]

-- The loop of `onUninit`.
unfoldable pub interrupt_all : List ℕ → NormalExcutor → Option NormalExcutor
unfolding emit
interrupt_all [] s = some s
interrupt_all (a ∷ rest) s =
    lookup a s.heap >>= λ i. interrupt_all rest (emit (kill i.pid sigint) s)

unfoldable pub on_uninit : NormalExcutor → Option NormalExcutor
unfolding interrupt_all
on_uninit s = interrupt_all s.running s

abbrev killed_response : CommandInfo → SaceStatusResponse
killed_response i = record {
  label = i.label;
  name = i.cmd_line;
  type = response_type_normal;
  status = response_status_signal;
  extra = [];
}

-- The loop of the destructor.
unfoldable pub kill_all : List ℕ → NormalExcutor → Option NormalExcutor
unfolding emit
kill_all [] s = some s
kill_all (a ∷ rest) s = lookup a s.heap >>= λ i.
    let t = emit (send_response i.writer (killed_response i)) (emit (kill i.pid sigkill) s) in
    kill_all rest (record t { heap = erase a t.heap })

unfoldable pub destroy : NormalExcutor → Option NormalExcutor
unfolding kill_all
destroy s = kill_all s.running s >>= λ t. some (record t { running = [] })
