-- ===== src/Tests/Servers.antt =====
-- The theorems on accepting and keeping connections at concrete runs.
use winterfell.Prelude.{ℕ, ◌≡◌, refl, true, false, not, ◌&&◌, List, [], ◌∷◌, codes, done, arith}
use winterfell.Prelude.Int.{pos}
use winterfell.Net.Socket.{new_socket, failed_call}
use winterfell.Net.Channel.{fresh_channel}
use winterfell.Net.Acceptor.{Acceptor, Fate, handle_read}
use winterfell.Net.Acceptor.Ownership.{is_handed, to_close, handle_read-to_close}
use winterfell.Net.SubLoops.{SubLoops}
use winterfell.Net.TcpServer.{Server, fresh_server}
use winterfell.Net.TcpServer.Registry.{
  Event, arrives, closes, run, Book, book_run, Refines, Matches, run-Matches,
}

abbrev listening : Acceptor
listening = record {
  accept_socket = new_socket (pos 3);
  accept_channel = fresh_channel 3;
  has_callback = true;
  listening = true;
}

handle_read-to_close_example :
    (fates : List Fate) × (handle_read (pos 8) listening ≡ done fates)
    × (is_handed fates ≡ (not (failed_call (pos 8)) && listening.has_callback))
    × (to_close fates ≡ pos 8 ∷ [])
handle_read-to_close_example = handle_read-to_close (pos 8) listening

abbrev two_loops : SubLoops ℕ
two_loops = record { started = true; num_threads = 2; next = 0; loops = 11 ∷ 12 ∷ [] }

abbrev pub server : Server
server = record (fresh_server (codes "s") listening false) { sub_loops = two_loops }

abbrev pub first_book : Book
first_book = record { next = 1; alive = λ k. false }

pub server-Refines : Refines server first_book
server-Refines = record {
  same_next = refl;
  ready = record { some_thread = omega arith; all_there = refl };
  entries = λ k h. refl;
}

abbrev come_and_go : List Event
come_and_go = arrives ∷ arrives ∷ closes 12 1 ∷ arrives ∷ []

run-Matches_example : Matches (run come_and_go server) (book_run come_and_go first_book)
run-Matches_example =
    run-Matches come_and_go server first_book server-Refines (omega arith, tt) (omega arith)
