-- ===== src/Reader/Monitor.antt =====
-- `SaceSocketReader`: its start and its end, and the loop of its thread.
use service_excutor.Prelude.{
  ℕ, Bool, true, false, ◌||◌, not, List, [], ◌∷◌, Option, none, some, ltb, if◌then◌else◌, ◌>>=◌,
}
use service_excutor.Wire.Parcel.{Parcel}
use service_excutor.Reader.Sockets.{World, SocketReader, recv_data_or_connection, without}

-- What the system answers to `setup_socket`.
pub record Setup : Type 0 where
  pub server : Option ℕ
  pub listens : Bool

-- Whether it failed. A socket that is not listened to stays open.
unfoldable pub setup_socket : Setup → SocketReader → Bool × SocketReader
setup_socket x s = elim x.server [
  | none ↦ (true, s)
  | some fd ↦ if x.listens then (false, record s { sock_fd = some fd }) else (true, s)
]

unfoldable pub has_sock : SocketReader → Bool
has_sock s = elim s.sock_fd [ none ↦ false | some fd ↦ true ]

-- A thread that no constructor sets is taken as none.
unfoldable pub start_read : Setup → SocketReader → Bool × SocketReader
start_read x s =
    let tried = setup_socket x s in
    let (failed, t) = if has_sock s then (false, s) else tried in
    if failed then (false, t) else (true, record t { running = true })

-- The descriptor is closed and kept; the clients are shut down and kept.
unfoldable pub stop_read : SocketReader → SocketReader
stop_read s = if s.running then record s { exit_pending = true } else s

-- `threadLoop` over the rounds that the system answers: the reader, and whether the loop is over.
unfoldable pub thread_loop :
    {P : Type 0} → Parcel P → ℕ → List (World P) → SocketReader → Option (Bool × SocketReader)
thread_loop y cap_count [] s = some (false, s)
thread_loop y cap_count (w ∷ ws) s = recv_data_or_connection y cap_count w s >>= λ (more, t).
    if not t.exit_pending || more then thread_loop y cap_count ws t else some (true, t)

-- `close_socket`: the slots are free after it.
unfoldable pub close_socket : List (Option ℕ) → List ℕ → List (Option ℕ) × List ℕ
close_socket [] open_fds = ([], open_fds)
close_socket (none ∷ cs) open_fds =
    let (rest, left) = close_socket cs open_fds in (none ∷ rest, left)
close_socket (some fd ∷ cs) open_fds =
    let (rest, left) = close_socket cs (if ltb 0 fd then without fd open_fds else open_fds) in
    (none ∷ rest, left)
