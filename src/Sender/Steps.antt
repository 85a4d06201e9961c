-- ===== src/Sender/Steps.antt =====
-- The two threads, step by step. A section under `syncMutex` is one step; `pthread_cond_timedwait`
-- ends one section and begins another.
use service_excutor.Prelude.{
  ℕ, Bool, true, false, List, [], ◌∷◌, ◌++◌, Option, none, some, nat_eqb, if◌then◌else◌, ◌>>=◌,
}
use service_excutor.Types.{
  SaceResult, SaceStatusResponse, new_result, result_status_timeout, result_type_none,
}

-- The client's thread: before a command, after its bytes were written, in the wait, woken, and
-- with the result that it returns.
pub data Phase : Type 0 where
  idle : Phase
  wrote waits is_woken : ℕ → Phase
  returned : SaceResult → Phase

-- `locked` is a mutex that a function left locked when it returned. `receiving` is whether the
-- receiving thread runs, and `handed` are the responses it gave to `onCommandResponse`.
pub record Sender : Type 0 where
  pub locked : Bool
  pub sync_sequence : ℕ
  pub result : SaceResult
  pub phase : Phase
  pub receiving : Bool
  pub handed : List SaceStatusResponse

pub data Event : Type 0 where
  writes : ℕ → Event
  begins_wait times_out wakes spurious : Event
  receives : SaceResult → Event
  responds : SaceStatusResponse → Event
  drops exits : Event

-- The result that `excuteCommand` has at hand until one comes.
abbrev pub timeout_result : SaceResult
timeout_result = record new_result {
  result_type = result_type_none;
  result_status = result_status_timeout;
}

-- Up to the first section: the write of the command's bytes.
unfoldable pub write_command_bytes : ℕ → Sender → Option Sender
write_command_bytes sequence s = elim s.phase [
  | idle ↦ some (record s { phase = wrote sequence })
  | wrote n ↦ none
  | waits n ↦ none
  | is_woken n ↦ none
  | returned r ↦ some (record s { phase = wrote sequence })
]

-- From the lock to the wait.
unfoldable pub begin_wait : Sender → Option Sender
begin_wait s = elim s.phase [
  | idle ↦ none
  | wrote n ↦ if s.locked then none else some (record s { sync_sequence = n; phase = waits n })
  | waits n ↦ none
  | is_woken n ↦ none
  | returned r ↦ none
]

-- From the wait's end to the return; a wait takes the mutex before it ends.
unfoldable pub end_wait : SaceResult → Sender → Option Sender
end_wait r s = if s.locked then none else some (record s { sync_sequence = 0; phase = returned r })

unfoldable pub time_out : Sender → Option Sender
unfolding end_wait new_result
time_out s = elim s.phase [
  | idle ↦ none
  | wrote n ↦ none
  | waits n ↦ end_wait timeout_result s
  | is_woken n ↦ none
  | returned r ↦ none
]

unfoldable pub wake : Sender → Option Sender
unfolding end_wait
wake s = elim s.phase [
  | idle ↦ none
  | wrote n ↦ none
  | waits n ↦ none
  | is_woken n ↦ end_wait s.result s
  | returned r ↦ none
]

-- A wait may end without a signal; the code does not look.
unfoldable pub wake_spuriously : Sender → Option Sender
unfolding end_wait
wake_spuriously s = elim s.phase [
  | idle ↦ none
  | wrote n ↦ none
  | waits n ↦ end_wait s.result s
  | is_woken n ↦ none
  | returned r ↦ none
]

-- `pthread_cond_signal`
abbrev signal : Phase → Phase
signal idle = idle
signal (wrote n) = wrote n
signal (waits n) = is_woken n
signal (is_woken n) = is_woken n
signal (returned r) = returned r

-- `handleResult`; for an older result it returns with the mutex locked.
unfoldable pub handle_result : SaceResult → Sender → Option Sender
handle_result r s =
    if s.locked
    then none
    else if nat_eqb s.sync_sequence 0
    then some s
    else if nat_eqb s.sync_sequence r.sequence
    then some (record s { result = r; phase = signal s.phase })
    else some (record s { locked = true })

-- A round of the receiving thread.
abbrev while_receiving : (Sender → Option Sender) → Sender → Option Sender
while_receiving round s = if s.receiving then round s else none

-- `handleResponse`, which takes no mutex.
unfoldable pub handle_response : SaceStatusResponse → Sender → Option Sender
handle_response r s = some (record s { handed = s.handed ++ r ∷ [] })

-- The ways out of `recv_thread_run`: a failed `select` or `recvmsg`, the end of the socket, or the
-- event.
unfoldable pub exit_thread : Sender → Option Sender
exit_thread s = some (record s { receiving = false })

unfoldable pub step : Event → Sender → Option Sender
step (writes n) s = write_command_bytes n s
step begins_wait s = begin_wait s
step times_out s = time_out s
step wakes s = wake s
step spurious s = wake_spuriously s
step (receives r) s = while_receiving (handle_result r) s
step (responds r) s = while_receiving (handle_response r) s
step drops s = while_receiving (λ t. some t) s
step exits s = while_receiving exit_thread s

unfoldable pub run : List Event → Sender → Option Sender
run [] s = some s
run (e ∷ es) s = step e s >>= run es
