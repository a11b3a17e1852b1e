-- ===== src/Tests/Buffers.antt =====
-- The theorems on buffers at concrete inputs, and runs of a small buffer.
use winterfell.Prelude.{◌≡◌, refl, List, [], ◌∷◌, arith}
use winterfell.Buffer.{empty, Buffer, peek, append, make_space, received, failed, read_fd}
use winterfell.Buffer.Content.{empty-IsValid, IsValid, append_lem}
use winterfell.Buffer.Growth.{Leaves, Fits, run-Fits}
use winterfell.Buffer.Queue.{
  queue_step, Op, appends, reads, retrieves, retrieves_until, takes_all, takes, Shows, run,
  queue_run, run-Shows, read_fd_lem,
}

-- Room for twelve bytes, of which two are read: "hi" at index 10.
abbrev small : Buffer
small = record {
  storage = 0 ∷ 0 ∷ 0 ∷ 0 ∷ 0 ∷ 0 ∷ 0 ∷ 0 ∷ 1 ∷ 2 ∷ 104 ∷ 105 ∷ [];
  reader_index = 10;
  writer_index = 12;
}

small-IsValid : IsValid small
small-IsValid = omega arith

-- Two bytes fit once the content has moved to the front; three make the storage grow.
append_moves : append (33 ∷ 33 ∷ []) small ≡ record {
  storage = 0 ∷ 0 ∷ 0 ∷ 0 ∷ 0 ∷ 0 ∷ 0 ∷ 0 ∷ 104 ∷ 105 ∷ 33 ∷ 33 ∷ [];
  reader_index = 8;
  writer_index = 12;
}
unfolding append make_space
append_moves = refl

append_grows : append (33 ∷ 33 ∷ 33 ∷ []) small ≡ record {
  storage = 0 ∷ 0 ∷ 0 ∷ 0 ∷ 0 ∷ 0 ∷ 0 ∷ 0 ∷ 1 ∷ 2 ∷ 104 ∷ 105 ∷ 33 ∷ 33 ∷ 33 ∷ [];
  reader_index = 10;
  writer_index = 15;
}
unfolding append make_space
append_grows = refl

append_lem_example :
    IsValid (append (33 ∷ []) small) × (peek (append (33 ∷ []) small) ≡ 104 ∷ 105 ∷ 33 ∷ [])
append_lem_example = append_lem (33 ∷ []) small small-IsValid

-- More is asked for at the end than there is.
abbrev script : List Op
script =
    appends (33 ∷ 13 ∷ [])
    ∷ reads (received (10 ∷ 7 ∷ []))
    ∷ retrieves 1
    ∷ takes 2
    ∷ reads (failed 11)
    ∷ takes_all
    ∷ retrieves_until 1
    ∷ []

run-Shows_example : Shows (run script small) (queue_run script (104 ∷ 105 ∷ []))
run-Shows_example = run-Shows script small small-IsValid

read_fd_lem_example :
    IsValid (read_fd (received (1 ∷ 2 ∷ [])) small).1
    × (peek (read_fd (received (1 ∷ 2 ∷ [])) small).1 ≡ 104 ∷ 105 ∷ 1 ∷ 2 ∷ [])
read_fd_lem_example = read_fd_lem (received (1 ∷ 2 ∷ [])) small small-IsValid

run-Fits_example :
    Leaves
      (Fits 512)
      (run (appends (65 ∷ 66 ∷ 67 ∷ []) ∷ takes 2 ∷ reads (received (68 ∷ [])) ∷ []) empty)
unfolding empty queue_step
run-Fits_example =
    run-Fits 512 (appends (65 ∷ 66 ∷ 67 ∷ []) ∷ takes 2 ∷ reads (received (68 ∷ [])) ∷ []) empty
      empty-IsValid (omega arith) refl
