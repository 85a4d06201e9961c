-- ===== src/Dispatch/Shutdown.antt =====
-- The thread of the dispatcher, and `stop`.
use service_excutor.Prelude.{
  ◌≡◌, Bool, true, false, List, [], ◌∷◌, ◌++◌, reverse, map, if◌then◌else◌,
}
use service_excutor.Types.{MessageHandlerType}
use service_excutor.Dispatch.Routing.{Dispatcher, dispatch, Excutor}

-- How `pollOnce` returns; the messages are those whose handlers it called.
pub data Poll (M : Type 0) : Type 0 where
  poll_error poll_wake poll_timeout : Poll M
  poll_callback : List M → Poll M

-- What the thread sees: how a `pollOnce` of its own returns, and `stop` setting `mExit`.
pub data Turn (M : Type 0) : Type 0 where
  polls : Poll M → Turn M
  sets_exit : Turn M

module _ {M : Type 0} (handler : M → MessageHandlerType) where
  -- `dispatch_thread`: whether the thread has ended, and the dispatcher. The first argument is
  -- `mExit`, which no constructor sets: before `stop` it is what the memory held.
  unfoldable pub dispatch_thread : Bool → List (Turn M) → Dispatcher M → Bool × Dispatcher M
  dispatch_thread exit [] d = (false, d)
  dispatch_thread exit (sets_exit ∷ ts) d = dispatch_thread true ts d
  dispatch_thread exit (polls poll_error ∷ ts) d = dispatch_thread exit ts d
  dispatch_thread exit (polls poll_wake ∷ ts) d = dispatch_thread exit ts d
  dispatch_thread exit (polls (poll_callback ms) ∷ ts) d =
      dispatch_thread exit ts (dispatch handler ms d)
  dispatch_thread exit (polls poll_timeout ∷ ts) d =
      let rest = dispatch_thread exit ts d in if exit then (true, d) else rest

-- What is done at the end, to an executor of a kind and to the thread.
pub data End : Type 0 where
  uninit delete : MessageHandlerType → End
  join : End

unfoldable pub kinds : {M : Type 0} → List (Excutor M) → List MessageHandlerType
kinds [] = []
kinds (e ∷ es) = e.msg_type ∷ kinds es

-- `stop`; `mExit` is set before the thread is joined.
unfoldable pub stop : {M : Type 0} → Dispatcher M → List End × Dispatcher M
stop d = (
  map uninit (reverse (kinds d.excutors)) ++ join ∷ map delete (reverse (kinds d.excutors)),
  record d { excutors = [] },
)

module _ {M : Type 0} where
  -- The messages whose handlers were called.
  abbrev pub messages : List (Poll M) → List M
  messages [] = []
  messages (poll_error ∷ ps) = messages ps
  messages (poll_wake ∷ ps) = messages ps
  messages (poll_callback ms ∷ ps) = ms ++ messages ps
  messages (poll_timeout ∷ ps) = messages ps

  -- A poll that does not time out.
  abbrev pub IsBusy : Poll M → Type 0
  IsBusy poll_error = Unit {0}
  IsBusy poll_wake = Unit {0}
  IsBusy (poll_callback ms) = Unit {0}
  IsBusy poll_timeout = false ≡ true
