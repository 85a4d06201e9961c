-- ===== src/Dispatch/Setup.antt =====
-- `SaceExcutor::init` with its ladder of clean-ups, and `uninit`.
use service_excutor.Prelude.{◌≡◌, Bool, true, false, if◌then◌else◌, arith}

-- Whether the steps of `init` succeed; `on_init` is the executor's own.
pub record Attempts : Type 0 where
  pub mutex : Bool
  pub sem : Bool
  pub thread : Bool
  pub on_init : Bool

-- What an executor holds; `running` is what its `onInit` set up.
pub record Held : Type 0 where
  pub mutex : Bool
  pub sem : Bool
  pub thread : Bool
  pub running : Bool

abbrev pub nothing : Held
nothing = record { mutex = false; sem = false; thread = false; running = false }

-- `destroy_excute_thread`, whose join returns when the thread has read the exit flag.
unfoldable pub destroy_excute_thread : Held → Held
destroy_excute_thread h = record h { thread = false }

unfoldable pub init_on : Attempts → Held → Bool × Held
unfolding destroy_excute_thread
init_on x h =
    if x.on_init
    then (true, record h { running = true })
    else (false, record (destroy_excute_thread h) { sem = false; mutex = false })

unfoldable pub init_thread : Attempts → Held → Bool × Held
init_thread x h =
    let next = init_on x (record h { thread = true }) in
    if x.thread then next else (false, record h { sem = false; mutex = false })

unfoldable pub init_sem : Attempts → Held → Bool × Held
init_sem x h =
    let next = init_thread x (record h { sem = true }) in
    if x.sem then next else (false, record h { mutex = false })

unfoldable pub init : Attempts → Bool × Held
init x =
    let next = init_sem x (record nothing { mutex = true }) in
    if x.mutex then next else (false, nothing)

unfoldable pub uninit : Held → Held
unfolding destroy_excute_thread
uninit h = record (destroy_excute_thread (record h { running = false })) {
  sem = false;
  mutex = false;
}

-- Whatever fails, nothing is held after `init`, and all of it is held where it succeeds; `uninit`
-- gives all of it back.
pub uninit-init :
    (x : Attempts)
    → ((init x).1 ≡ (
        if (init x).0
        then record { mutex = true; sem = true; thread = true; running = true }
        else nothing))
      × (uninit (init x).1 ≡ nothing)
unfolding init init_sem init_thread init_on uninit destroy_excute_thread
uninit-init x = (ground arith, ground arith)
