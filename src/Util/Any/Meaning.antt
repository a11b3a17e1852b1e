-- ===== src/Util/Any/Meaning.antt =====
-- The operations of winterfell/util/wf_any.h, and what they mean for the values that the objects hold.
use winterfell.Prelude.{ℕ, ◌≡◌, Option, some, none, Run, done, set_at, ◌==◌, if◌then◌else◌}
use winterfell.Util.Any.{
  Pointer, Data, Memory, release, construct, construct_of, copy, move, copy_assign, move_assign,
  destroy,
}
use winterfell.Util.Any.Values.{Contents}

module _ (T : ℕ → Type 0) where
  -- The operations on objects, by their names, with the addresses that the allocator gives.
  pub data Operation : Type 0 where
    constructs destroys : ℕ → Operation
    constructs_of : ℕ → ℕ → Data T → Operation
    moves move_assigns : ℕ → ℕ → Operation
    copies copy_assigns : ℕ → ℕ → ℕ → Operation

  abbrev pub perform : Operation → Memory T → Run (Memory T)
  perform (constructs i) m = construct T i m
  perform (constructs_of i a v) m = construct_of T i a v m
  perform (copies i j a) m = copy T i j a m
  perform (moves i j) m = move T i j m
  perform (copy_assigns i j a) m = copy_assign T i j a m
  perform (move_assigns i j) m = move_assign T i j m
  perform (destroys i) m = destroy T i m

  -- A place that is not alive, is alive, or has a value.
  abbrev pub if_dead : Option (Option (Data T)) → Option (Contents T) → Option (Contents T)
  if_dead none r = r
  if_dead (some o) r = none

  abbrev pub if_alive :
      Option (Option (Data T)) → (Option (Data T) → Option (Contents T)) → Option (Contents T)
  if_alive none f = none
  if_alive (some o) f = f o

  abbrev pub if_value : Option (Data T) → (Data T → Option (Contents T)) → Option (Contents T)
  if_value none f = none
  if_value (some v) f = f v

  -- What the operations mean for the values: a copy has the value, a move takes it and leaves none; a copy of an
  -- object without a value, and the assignment of a copy of an object to itself, are errors.
  abbrev pub meant : Operation → Contents T → Option (Contents T)
  meant (constructs i) held = if_dead (held i) (some (set_at i (some none) held))
  meant (constructs_of i a v) held = if_dead (held i) (some (set_at i (some (some v)) held))
  meant (copies i j a) held =
      if_dead (held i) (if_alive (held j) λ o. if_value o λ v. some (set_at i (some (some v)) held))
  meant (moves i j) held =
      if_dead (held i) (if_alive (held j) λ o. some (set_at j (some none) (set_at i (some o) held)))
  meant (copy_assigns i j a) held = if_alive (held i) λ old.
      if_alive (held j)
        λ o. if i == j then none else if_value o λ v. some (set_at i (some (some v)) held)
  meant (move_assigns i j) held =
      if_alive (held i)
        λ old. if_alive (held j) λ o. some (set_at j (some none) (set_at i (some o) held))
  meant (destroys i) held = if_alive (held i) λ old. some (set_at i none held)

  -- The allocator gives addresses that are not in use; an assignment gives its old memory back first.
  abbrev pub IsPossible : Operation → Memory T → Type 0
  IsPossible (constructs_of i a v) m = m.cells a ≡ none
  IsPossible (copies i j a) m = m.cells a ≡ none
  IsPossible (copy_assigns i j a) m =
      (old : Pointer) (m' : Memory T)
      → m.objects i ≡ some old
      → release T old m ≡ done m'
      → m'.cells a ≡ none
  IsPossible _ m = Unit
