-- ===== src/Tests/Values.antt =====
-- The theorems on `Any` at concrete inputs.
use winterfell.Prelude.{
  ℕ, zero, suc, refl, sym, ap, Bool, List, [], ◌∷◌, Option, some, none, Run, done, aborted, looping,
  set_at,
}
use winterfell.Util.Any.{Data, Memory, fresh_memory, construct_of, allocate, point}
use winterfell.Util.Any.Steps.{Meets}
use winterfell.Util.Any.Meaning.{Operation, constructs_of, copies, moves, destroys}
use winterfell.Util.Any.Refine.{perform_all, meant_all, ArePossible, perform_all-Meets}

-- Two types: numbers and flags.
abbrev Stored : ℕ → Type 0
Stored zero = ℕ
Stored (suc n) = Bool

abbrev seven : Data Stored
seven = record { type = 0; value = 7 }

-- The object 1 is made of 7, the object 2 is a copy of it, the object 3 takes it, and the copy ends.
abbrev operations : List (Operation Stored)
operations = constructs_of 1 100 seven ∷ copies 2 1 101 ∷ moves 3 1 ∷ destroys 2 ∷ []

abbrev cell : ℕ → Run (Memory Stored) → Option (Data Stored)
cell a (done m) = m.cells a
cell a aborted = none
cell a looping = none

operations-ArePossible : ArePossible Stored operations (fresh_memory Stored)
unfolding construct_of point allocate
operations-ArePossible =
    (refl, λ m e. (ap (cell 101) (sym e), λ m' e'. (tt, λ m'' e''. (tt, λ m3 e3. tt))))

perform_all-Meets_example :
    Meets Stored
      (some (
        set_at 2 none (
          set_at 1 (some none) (
            set_at 3
              (some (some seven))
              (set_at 2 (some (some seven)) (set_at 1 (some (some seven)) (λ i. none)))))))
      (perform_all Stored operations (fresh_memory Stored))
unfolding meant_all
perform_all-Meets_example = perform_all-Meets Stored operations operations-ArePossible
