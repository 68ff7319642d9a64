-- ===== src/EventLoop/Tests.antt =====
-- Runs of the loop of events.
use mini_distributed_storage.Base.{
  ℕ, ◌≡◌, ◌≢◌, refl, true, false, List, [], ◌∷◌, arith, some, none, ◌++◌,
}
use mini_distributed_storage.EventLoop.{
  inside, outside, behind, Looping, set_quit, enter, stay, later, epoll, room_after, Callbacks,
  Revents, handle_event,
}
use mini_distributed_storage.EventLoop.Quit.{set_quit-lost}
use mini_distributed_storage.EventLoop.Room.{room_after-all}

abbrev not_started : Looping
not_started = record { place = outside; quit = false }

abbrev endless : Looping
endless = record { place = inside; quit = false }

set_quit-lost_example : endless.place ≢ behind
unfolding set_quit
set_quit-lost_example = set_quit-lost not_started endless refl (later stay (enter refl))

abbrev three : List ℕ
three = 5 ∷ 6 ∷ 7 ∷ []

room_after-all_example : (epoll (room_after 3 1 three) three).0 ≡ three
room_after-all_example = room_after-all three 1 (omega arith)

-- The handlers of a connection, as a list of their letters: the peer has gone, with data to read.
abbrev letters : Callbacks (List ℕ)
letters = record {
  read_callback = some (λ s. s ++ b'r' ∷ []);
  write_callback = some (λ s. s ++ b'w' ∷ []);
  error_callback = none;
  close_callback = some (λ s. s ++ b'c' ∷ []);
}

abbrev hung_up : Revents
hung_up = record {
  pollin = true;
  pollpri = false;
  pollout = true;
  pollerr = true;
  pollhup = true;
  pollnval = false;
  pollrdhup = false;
}

reads_and_writes : handle_event letters hung_up [] ≡ b'r' ∷ b'w' ∷ []
unfolding handle_event
reads_and_writes = refl
