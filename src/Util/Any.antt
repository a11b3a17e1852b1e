-- ===== src/Util/Any.antt =====
-- The class `Any` of winterfell/util/wf_any.h: a pointer to a copy of a value of any type, on an explicit
-- heap. A use of a null pointer, of memory that was given back, or of a value at a type that it does not have, aborts.
pub mod Meaning
pub mod Made
pub mod Assigned
pub mod Refine
pub mod Steps
pub mod Values
use winterfell.Prelude.{
  subst, ℕ, Bool, true, false, not, List, [], ◌∷◌, Option, some, none, Run, done, aborted, assert,
  follow, ◌>>=◌, ◌>>◌, set_at, ◌==◌, if◌then◌else◌,
}

-- The address of a `Base`; null is `none`.
abbrev pub Pointer : Type 0
Pointer = Option ℕ

-- The types that are stored are known by numbers, and the values of each are a parameter.
module _ (T : ℕ → Type 0) where
  -- `Data<T>`
  pub record Data : Type 0 where
    pub type : ℕ
    pub value : T type

  -- The memory, and the objects of type `Any` that are alive, by their names.
  pub record Memory : Type 0 where
    pub cells : ℕ → Option Data
    pub objects : ℕ → Option Pointer

  abbrev pub fresh_memory : Memory
  fresh_memory = record { cells = λ a. none; objects = λ i. none }

  -- `delete p`, if p is not null.
  unfoldable pub release : Pointer → Memory → Run Memory
  release none m = done m
  release (some a) m = follow (m.cells a) >>= λ v. done (record m { cells = set_at a none m.cells })

  -- `new Data<T>(v)`, at an address that the allocator gives.
  unfoldable pub allocate : ℕ → Data → Memory → Memory
  allocate a v m = record m { cells = set_at a (some v) m.cells }

  -- `ptr = p` in this object.
  unfoldable pub point : ℕ → Pointer → Memory → Memory
  point i p m = record m { objects = set_at i (some p) m.objects }

  -- `ptr->clone()`, with the address of the new object.
  unfoldable pub clone : ℕ → Pointer → Memory → Run Memory
  clone a p m = do b ← follow p; v ← follow (m.cells b); done (allocate a v m)

  abbrev pub is_alive : Option Pointer → Bool
  is_alive none = false
  is_alive (some p) = true

  -- A name is given to one object at a time.
  abbrev pub fresh_name : ℕ → Memory → Run (Unit {0})
  fresh_name i m = assert (not (is_alive (m.objects i)))

  -- The constructors: without a value, of a value, by a copy and by a move.
  unfoldable pub construct : ℕ → Memory → Run Memory
  construct i m = fresh_name i m >> done (point i none m)

  unfoldable pub construct_of : ℕ → ℕ → Data → Memory → Run Memory
  construct_of i a v m = fresh_name i m >> done (point i (some a) (allocate a v m))

  unfoldable pub copy : ℕ → ℕ → ℕ → Memory → Run Memory
  copy i j a m =
      fresh_name i m >> (do p ← follow (m.objects j); m' ← clone a p m; done (point i (some a) m'))

  unfoldable pub move : ℕ → ℕ → Memory → Run Memory
  move i j m = fresh_name i m >> (do p ← follow (m.objects j); done (point j none (point i p m)))

  -- The assignments, by a copy and by a move.
  unfoldable pub copy_assign : ℕ → ℕ → ℕ → Memory → Run Memory
  copy_assign i j a m = do
    old ← follow (m.objects i)
    m' ← release old m
    p ← follow (m'.objects j)
    m'' ← clone a p m'
    done (point i (some a) m'')

  unfoldable pub move_assign : ℕ → ℕ → Memory → Run Memory
  move_assign i j m = do
    old ← follow (m.objects i)
    m' ← release old m
    p ← follow (m'.objects j)
    done (point j none (point i p m'))

  unfoldable pub destroy : ℕ → Memory → Run Memory
  destroy i m = do
    old ← follow (m.objects i)
    m' ← release old m
    done (record m' { objects = set_at i none m'.objects })

  -- `ptr->data`, before the cast is used at a type.
  unfoldable pub stored : ℕ → Memory → Run Data
  stored i m = do p ← follow (m.objects i); a ← follow p; follow (m.cells a)

  -- The cast is not checked: what the stored value is read as, at a type that may not be its own, is a parameter.
  unfoldable pub get_data : (read_as : (t : ℕ) → Data → T t) → (t : ℕ) → ℕ → Memory → Run (T t)
  get_data read_as t i m = stored i m >>= λ v. done (read_as t v)
