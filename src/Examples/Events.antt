-- ===== src/Examples/Events.antt =====
-- A run of io/epoll/base/main.c.
use linux_programing_demo.Common.{◌≡◌, refl, some, List, [], ◌∷◌, arith}
use linux_programing_demo.Io.Epoll.{
  data_read, readable, hung_up, Wait, interrupted, timed_out, events, State, start, read_and_show,
  handle, handle_all, close_var, on_timeout, round, leaves, finish, loop, main,
}
use linux_programing_demo.Io.Epoll.Descriptors.{Distinct, AllOpen, main-closes_once}

-- The pipe's data, its write end closed at the first timeout, the hang-up of its read end.
abbrev waits : List Wait
waits =
    interrupted
    ∷ events (readable 3 (data_read (b'a' ∷ [])) ∷ [])
    ∷ timed_out
    ∷ events (hung_up 3 ∷ [])
    ∷ timed_out
    ∷ timed_out
    ∷ []

run : (s : State) × (main 3 4 waits ≡ some s) × (s.closed ≡ 3 ∷ 4 ∷ [])
unfolding main loop round leaves finish on_timeout handle_all handle close_var read_and_show
run = (_, refl, refl)

waits-AllOpen : AllOpen 4 (start 3 4) waits
unfolding round on_timeout handle_all handle read_and_show
waits-AllOpen = ground arith

main-closes_once_example : Distinct run.0.closed
main-closes_once_example = main-closes_once 3 4 waits run.0 (omega arith) waits-AllOpen run.1
