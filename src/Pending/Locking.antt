-- ===== src/Pending/Locking.antt =====
-- allocations.go: the calls of its read-write lock. Go documents that a goroutine that waits for the
-- lock to write keeps new readers out, so that a reader must not lock again what it holds.
pub mod Progress
use dra_rt_driver.Prelude.{
  ℕ, zero, suc, ◌-◌, ◌≡◌, ◌⊎◌, inl, inr, refl, sym, ap, ◌∙◌, Bool, true, false, Bool-cases, List,
  [], ◌∷◌, ◌++◌, arith,
}
use mathlib.Core.Bool.{false≢true}

pub data LockOp : Type 0 where
  read_lock read_unlock write_lock write_unlock : LockOp

-- The methods that lock to read, `VisitNode` and `Visit` by the number of entries that they visit, and
-- those that lock to write.
pub data Reader : Type 0 where
  exists exists_util get get_util : Reader
  visit_node visit : ℕ → Reader

pub data Writer : Type 0 where
  set set_util remove_node remove remove_util remove_util_other_nodes : Writer

-- `Exists` and `ExistsUtil`, on their own or called by `Get` and `GetUtil`.
abbrev pub reading : List LockOp
reading = read_lock ∷ read_unlock ∷ []

-- From the first visit on: the visitor runs with the lock released.
unfoldable pub visits : ℕ → List LockOp
visits zero = read_unlock ∷ []
visits (suc n) = read_unlock ∷ read_lock ∷ visits n

-- What a method that reads does with the lock; the `defer`red calls come last.
unfoldable pub read_locks : Reader → List LockOp
read_locks exists = reading
read_locks exists_util = reading
read_locks get = read_lock ∷ (reading ++ read_unlock ∷ [])
read_locks get_util = read_lock ∷ (reading ++ read_unlock ∷ [])
read_locks (visit_node n) = read_lock ∷ visits n
read_locks (visit n) = read_lock ∷ visits n

abbrev pub writing : List LockOp
writing = write_lock ∷ write_unlock ∷ []

unfoldable pub write_locks : Writer → List LockOp
write_locks set = writing
write_locks set_util = writing
write_locks remove_node = writing
write_locks remove = writing
write_locks remove_util = writing
write_locks remove_util_other_nodes = writing

-- One goroutine that reads and one that writes: what each has yet to do, how many times the lock is
-- held to read, and whether the writer waits for it or holds it.
pub record Lock : Type 0 where
  pub reader : List LockOp
  pub writer : List LockOp
  pub readers : ℕ
  pub waits : Bool
  pub holds : Bool

abbrev pub unlocked : Reader → Writer → Lock
unlocked m w = record {
  reader = read_locks m;
  writer = write_locks w;
  readers = 0;
  waits = false;
  holds = false;
}

pub data Step (s t : Lock) : Type 0 where
  reads :
      (rest : List LockOp)
      → s.reader ≡ read_lock ∷ rest
      → s.waits ≡ false
      → s.holds ≡ false
      → t ≡ record s { reader = rest; readers = suc s.readers }
      → Step s t
  unreads :
      (rest : List LockOp)
      → s.reader ≡ read_unlock ∷ rest
      → t ≡ record s { reader = rest; readers = s.readers - 1 }
      → Step s t
  requests :
      (rest : List LockOp)
      → s.writer ≡ write_lock ∷ rest
      → s.waits ≡ false
      → t ≡ record s { waits = true }
      → Step s t
  writes :
      (rest : List LockOp)
      → s.writer ≡ write_lock ∷ rest
      → s.waits ≡ true
      → s.readers ≡ 0
      → t ≡ record s { writer = rest; waits = false; holds = true }
      → Step s t
  unwrites :
      (rest : List LockOp)
      → s.writer ≡ write_unlock ∷ rest
      → t ≡ record s { writer = rest; holds = false }
      → Step s t

pub data Reach (s : Lock) : Lock → Type 0 where
  start : Reach s s
  later : {t u : Lock} → Reach s t → Step t u → Reach s u

abbrev pub IsFinished : Lock → Type 0
IsFinished s = (s.reader ≡ []) × (s.writer ≡ [])

-- Neither goroutine can go on, and the reader is not done.
pub record IsStuck (s : Lock) : Type 0 where
  pub unfinished : ¬ IsFinished s
  pub no_step : (t : Lock) → ¬ Step s t

-- The two methods of allocations.go that call another one while they hold the lock.
abbrev pub nests : Reader → Bool
nests get = true
nests get_util = true
nests m = false

pub write_locks-writing : (w : Writer) → write_locks w ≡ writing
unfolding write_locks
write_locks-writing set = refl
write_locks-writing set_util = refl
write_locks-writing remove_node = refl
write_locks-writing remove = refl
write_locks-writing remove_util = refl
write_locks-writing remove_util_other_nodes = refl

nested : List LockOp
nested = read_lock ∷ read_unlock ∷ read_unlock ∷ []

read_locks-nested : (m : Reader) → nests m ≡ true → read_locks m ≡ read_lock ∷ nested
unfolding read_locks nested
read_locks-nested exists h = absurd (cc)
read_locks-nested exists_util h = absurd (cc)
read_locks-nested get h = refl
read_locks-nested get_util h = refl
read_locks-nested (visit_node n) h = absurd (cc)
read_locks-nested (visit n) h = absurd (cc)

-- The reader holds the lock and wants it again, and the writer waits for it.
abbrev between : Lock
between = record { reader = nested; writer = writing; readers = 1; waits = true; holds = false }

stuck : (t : Lock) → ¬ Step between t
unfolding nested
stuck t (reads rest e f g h) = absurd (cc)
stuck t (unreads rest e h) = absurd (cc)
stuck t (requests rest e f h) = absurd (cc)
stuck t (writes rest e f g h) = absurd (let z : 1 ≡ 0 = g in omega arith)
stuck t (unwrites rest e h) = absurd (cc)

-- `Get` and `GetUtil`, which lock again what they hold, can each end in a deadlock with every method
-- that locks to write: the writer asks for the lock between the two, and neither goroutine can go on.
pub nested_reads_deadlock :
    (m : Reader) (w : Writer) → nests m ≡ true → (t : Lock) × Reach (unlocked m w) t × IsStuck t
unfolding nested
nested_reads_deadlock m w h = (
  between,
  later (later start (reads nested (read_locks-nested m h) refl refl refl))
      (requests (write_unlock ∷ []) (write_locks-writing w) refl (rw (write_locks-writing w) refl)),
  record { unfinished = λ f. absurd (let e : nested ≡ [] = f.0 in cc); no_step = stuck },
)
