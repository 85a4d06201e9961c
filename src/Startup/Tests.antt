-- ===== src/Startup/Tests.antt =====
-- A second reader that does not start, and a daemon that gets two signals.
use service_excutor.Prelude.{◌≡◌, refl, true, false, List, [], ◌∷◌}
use service_excutor.Startup.{
  Attempt, dispatcher_started, dispatcher_stopped, reader_started, reader_refused, reader_stopped,
  reader_deleted, start_listen, starts_of, stops_of, start_listen-stops_of, main, main_loop,
  signaled, reads, start_readers, exit_sace, stop_listen, delete_readers,
}

abbrev attempts : List Attempt
attempts = (1, true) ∷ (2, false) ∷ (3, true) ∷ []

start_listen-stops_of_example :
    ((start_listen attempts).0 ≡ false)
    × (starts_of 3 (start_listen attempts).1 ≡ 1)
    × (stops_of 3 (start_listen attempts).1 ≡ 1)
start_listen-stops_of_example = start_listen-stops_of attempts 3

last_first :
    (start_listen attempts).1
    ≡ reader_started 1
      ∷ reader_refused 2
      ∷ reader_started 3
      ∷ reader_stopped 3
      ∷ reader_stopped 1
      ∷ []
unfolding start_listen start_readers
last_first = refl

one_signal :
    main true true ((1, true) ∷ []) (signaled ∷ reads ∷ [])
    ≡ dispatcher_started
      ∷ reader_started 1
      ∷ reader_stopped 1
      ∷ dispatcher_stopped
      ∷ reader_deleted 1
      ∷ []
unfolding main start_listen start_readers main_loop exit_sace stop_listen delete_readers
one_signal = refl
