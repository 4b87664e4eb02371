-- ===== src/Acceptor/Tests.antt =====
-- Runs of the definitions of flute/net/Acceptor.cc.
use flute.Prelude.{◌≡◌, ◌≢◌, refl, true, false, some, List, [], ◌∷◌, arith}
use flute.Channel
use flute.Acceptor.{
  Acceptor, new, mark, set_new_conn_callback, listen, Arrival, accepts, too_many_files,
  new_connection, handle_conn_arrival,
}
use flute.Acceptor.Held.{IsTidy, Frees, Reach, Reach-Frees}

abbrev made : Acceptor
made = record {
  accept_sockfd = 3;
  accept_channel = Channel.new 3;
  has_callback = false;
  is_listening = false;
  reserved_fd = some 4;
  held = mark (some 4) true (mark (some 3) true (λ n. false));
  handed_over = [];
}

is_made : new 3 (some 4) ≡ some made
unfolding new
is_made = refl

-- A connection is accepted, then one is refused: the descriptor 4 is given for it and opened again.
abbrev two_arrivals : List Arrival
two_arrivals = accepts 5 ∷ too_many_files (some 4) (some 4) ∷ []

abbrev first : Acceptor
first = handle_conn_arrival (accepts 5) (listen (set_new_conn_callback made))

abbrev second : Acceptor
second = handle_conn_arrival (too_many_files (some 4) (some 4)) first

handed : first.handed_over ≡ 5 ∷ []
unfolding handle_conn_arrival new_connection listen
handed = refl

three : first.accept_sockfd ≡ 3
unfolding handle_conn_arrival new_connection listen
three = refl

not_three : some 4 ≢ some first.accept_sockfd
unfolding handle_conn_arrival new_connection listen
not_three e = ground (arith, e)

arrivals : Reach two_arrivals (listen (set_new_conn_callback made)) second
unfolding listen
arrivals =
    Reach.step (accepts 5) refl
      (Reach.step (too_many_files (some 4) (some 4)) (not_three, not_three) (Reach.stay second))

Reach-Frees_example : IsTidy second × Frees second
Reach-Frees_example =
    Reach-Frees 3 4 made second two_arrivals (λ e. ground (arith, e)) is_made arrivals
