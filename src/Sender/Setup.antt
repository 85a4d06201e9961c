-- ===== src/Sender/Setup.antt =====
-- `SaceSocketSender`: `init` with its ladder of clean-ups, `uninit`, and how a command begins.
use service_excutor.Prelude.{ℕ, ◌≡◌, Bool, true, false, Option, none, some, if◌then◌else◌, arith}
use service_excutor.Types.{SaceResult, new_result, result_type_none, result_status_fail}

-- What the system answers to `init`: two descriptors, and whether the other three succeed.
pub record Sources : Type 0 where
  pub socket : Option ℕ
  pub event : Option ℕ
  pub mutex : Bool
  pub cond : Bool
  pub thread : Bool

-- What is open: the descriptors, and the mutex and the condition after their init.
pub record Connection : Type 0 where
  pub sockfd : Option ℕ
  pub event_fd : Option ℕ
  pub mutex : Bool
  pub cond : Bool
  pub thread : Bool
  pub initlized : Bool

abbrev pub disconnected : Connection
disconnected = record {
  sockfd = none;
  event_fd = none;
  mutex = false;
  cond = false;
  thread = false;
  initlized = false;
}

unfoldable pub init_thread : Sources → Connection → Bool × Connection
init_thread x c =
    if x.thread
    then (true, record c { thread = true; initlized = true })
    -- err4, err3, err2, err1
    else (false, record c { cond = false; mutex = false; event_fd = none; sockfd = none })

unfoldable pub init_cond : Sources → Connection → Bool × Connection
init_cond x c =
    let next = init_thread x (record c { cond = true }) in
    -- err3, err2, err1
    if x.cond then next else (false, record c { mutex = false; event_fd = none; sockfd = none })

unfoldable pub init_mutex : Sources → Connection → Bool × Connection
init_mutex x c =
    let next = init_cond x (record c { mutex = true }) in
    -- err2, err1
    if x.mutex then next else (false, record c { event_fd = none; sockfd = none })

unfoldable pub init_event : Sources → Connection → Bool × Connection
init_event x c = elim x.event [
  -- err1
  | none ↦ (false, record c { sockfd = none })
  | some fd ↦ init_mutex x (record c { event_fd = some fd })
]

unfoldable pub init : Sources → Connection → Bool × Connection
init x c = elim x.socket [
  | none ↦ (false, c)
  | some fd ↦ init_event x (record c { sockfd = some fd })
]

-- The receiving thread closes the event descriptor when it ends.
unfoldable pub uninit : Connection → Connection
uninit c = record c { sockfd = none; cond = false; mutex = false; initlized = false }

unfoldable pub end_thread : Connection → Connection
end_thread c = record c { event_fd = none; thread = false }

-- How `write` of the command's bytes ends.
pub data Written : Type 0 where
  write_failed short whole : Written

abbrev pub failed_at_once : SaceResult
unfolding new_result
failed_at_once = record new_result {
  result_type = result_type_none;
  result_status = result_status_fail;
}

unfoldable pub send_bytes : Written → Connection → Option SaceResult × Connection
unfolding uninit
send_bytes write_failed c = (some failed_at_once, uninit c)
send_bytes short c = (some failed_at_once, c)
send_bytes whole c = (none, c)

-- `excuteCommand` up to the wait: the result that it returns at once, if it does.
unfoldable pub begin_command : Sources → Written → Connection → Option SaceResult × Connection
unfolding send_bytes init init_event init_mutex init_cond init_thread
begin_command x w c =
    let (good, d) = init x c in
    if c.initlized
    then send_bytes w c
    else if good
    then send_bytes w d
    else (some failed_at_once, d)

-- Whatever fails, `init` leaves nothing open, and what it opened is held where it succeeds.
pub init-disconnected :
    (x : Sources)
    → (init x disconnected).1 ≡ (
        if (init x disconnected).0
        then record {
          sockfd = x.socket;
          event_fd = x.event;
          mutex = true;
          cond = true;
          thread = true;
          initlized = true;
        }
        else disconnected)
unfolding init init_event init_mutex init_cond init_thread
init-disconnected x = ground arith
