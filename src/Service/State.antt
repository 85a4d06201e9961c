-- ===== src/Service/State.antt =====
-- The state of `SaceServiceExcutor`. A `ServiceInfo*` is the address of an entry of `heap`; the
-- source uses the same number as the service's label. A step that has undefined behaviour (a
-- pointer to a freed entry, an invalidated iterator, a write past a buffer) is `none`.
use service_excutor.Prelude.{
  ℕ, Bool, false, ◌||◌, List, [], ◌∷◌, ◌++◌, Text, Map, store, if◌then◌else◌, map, nat_key,
}
use service_excutor.Types.{
  ServiceState, ServiceFlags, SaceWriter, SaceStatusResponse, Effect, send_response, same_writer,
}

pub record ServiceInfo : Type 0 where
  pub name : Text
  pub pid : ℕ
  pub start_time : Text
  pub state : ServiceState
  pub cmd_line : Text
  pub writer : List SaceWriter
  pub label : ℕ
  pub flags : ServiceFlags

pub record ServiceExcutor : Type 0 where
  pub running : List ℕ
  pub seq : Map ℕ ℕ
  pub names : Map Text ℕ
  pub heap : Map ℕ ServiceInfo
  pub trace : List Effect

-- `fork()` as the parent sees it.
pub data Fork : Type 0 where
  fork_failed : Fork
  fork_parent : ℕ → Fork

-- `waitpid(pid, &status, WNOHANG)`: nothing yet, an error (`true` for ECHILD), or a status as the
-- macros WIFEXITED and WIFSIGNALED take it apart.
pub data WaitResult : Type 0 where
  wait_none : WaitResult
  wait_error : Bool → WaitResult
  wait_exited wait_signaled wait_other : ℕ → WaitResult

-- What the operating system answers during one call.
pub record World : Type 0 where
  pub fresh : ℕ
  pub fork : Fork
  pub clock : Text
  pub wait : ℕ → WaitResult

unfoldable pub empty : ServiceExcutor
empty = record { running = []; seq = []; names = []; heap = []; trace = [] }

unfoldable pub emit : Effect → ServiceExcutor → ServiceExcutor
emit x s = record s { trace = s.trace ++ x ∷ [] }

-- A write to `sveInfo->state`.
unfoldable pub set_state : ℕ → ServiceInfo → ServiceState → ServiceExcutor → ServiceExcutor
set_state a i st s = record s { heap = store a (record i { state = st }) s.heap }

-- `for (auto w : writer) if (w->operator==(wr)) return;`
unfoldable pub has_writer : SaceWriter → List SaceWriter → Bool
unfolding same_writer
has_writer wr [] = false
has_writer wr (w ∷ ws) = same_writer w wr || has_writer wr ws

-- `ServiceInfo::add_writer`
unfoldable pub add_writer : SaceWriter → List SaceWriter → List SaceWriter
unfolding has_writer
add_writer wr ws = if has_writer wr ws then ws else ws ++ wr ∷ []

-- `ServiceInfo::sendResponse`
unfoldable pub responses : List SaceWriter → SaceStatusResponse → List Effect
responses ws r = map (λ w. send_response w r) ws

unfoldable pub send_responses : ServiceInfo → SaceStatusResponse → ServiceExcutor → ServiceExcutor
unfolding responses
send_responses i r s = record s { trace = s.trace ++ responses i.writer r }
