-- ===== src/Pending/Locking/Progress.antt =====
-- allocations.go: methods that do not lock what they hold cannot end in a deadlock with a writer.
use dra_rt_driver.Prelude.{
  ℕ, zero, suc, ◌-◌, ◌≡◌, ◌⊎◌, inl, inr, refl, sym, ◌∙◌, Bool, true, false, Bool-cases, List, [],
  ◌∷◌,
}
use dra_rt_driver.Pending.Locking.{
  LockOp, read_lock, read_unlock, write_lock, write_unlock, Reader, exists, exists_util, get,
  get_util, visit_node, visit, Writer, visits, read_locks, write_locks-writing, nests, Lock,
  unlocked, Step, reads, unreads, requests, writes, unwrites, Reach, start, later, IsFinished,
}

-- The calls of a method that locks to read only what it does not hold, and unlocks it before it locks
-- again: of one that holds nothing, and of one that holds the lock.
alternates : Bool → List LockOp → Bool
alternates false [] = true
alternates false (read_lock ∷ xs) = alternates true xs
alternates true (read_unlock ∷ xs) = alternates false xs
alternates held xs = false

visits-alternates : (n : ℕ) → alternates true (visits n) ≡ true
unfolding visits alternates
visits-alternates zero = refl
visits-alternates (suc n) = visits-alternates n

read_locks-alternates : (m : Reader) → nests m ≡ false → alternates false (read_locks m) ≡ true
unfolding read_locks alternates
read_locks-alternates exists h = refl
read_locks-alternates exists_util h = refl
read_locks-alternates get h = absurd (cc)
read_locks-alternates get_util h = absurd (cc)
read_locks-alternates (visit_node n) h = visits-alternates n
read_locks-alternates (visit n) h = visits-alternates n

-- What the reader is yet to do, and how many times it holds the lock.
data ReaderStage (s : Lock) : Type 0 where
  outside : alternates false s.reader ≡ true → s.readers ≡ 0 → ReaderStage s
  inside : alternates true s.reader ≡ true → s.readers ≡ 1 → ReaderStage s

data WriterStage (s : Lock) : Type 0 where
  before_write : s.writer ≡ write_lock ∷ write_unlock ∷ [] → s.holds ≡ false → WriterStage s
  in_write : s.writer ≡ write_unlock ∷ [] → s.waits ≡ false → WriterStage s
  after_write : s.writer ≡ [] → s.waits ≡ false → s.holds ≡ false → WriterStage s

record IsSound (s : Lock) : Type 0 where
  reader : ReaderStage s
  writer : WriterStage s

reads-ReaderStage :
    (s : Lock) (rest : List LockOp)
    → ReaderStage s
    → s.reader ≡ read_lock ∷ rest
    → ReaderStage (record s { reader = rest; readers = suc s.readers })
unfolding alternates
reads-ReaderStage s rest (outside e n) f = inside (rw f at e) (rw n refl)
reads-ReaderStage s rest (inside e n) f = absurd (let g : false ≡ true = rw f at e in cc)

unreads-ReaderStage :
    (s : Lock) (rest : List LockOp)
    → ReaderStage s
    → s.reader ≡ read_unlock ∷ rest
    → ReaderStage (record s { reader = rest; readers = s.readers - 1 })
unfolding alternates
unreads-ReaderStage s rest (outside e n) f = absurd (let g : false ≡ true = rw f at e in cc)
unreads-ReaderStage s rest (inside e n) f = outside (rw f at e) (rw n refl)

same-WriterStage :
    (s : Lock) (xs : List LockOp) (n : ℕ)
    → WriterStage s
    → WriterStage (record s { reader = xs; readers = n })
same-WriterStage s xs n (before_write e h) = before_write e h
same-WriterStage s xs n (in_write e h) = in_write e h
same-WriterStage s xs n (after_write e g h) = after_write e g h

same-ReaderStage :
    (s : Lock) (xs : List LockOp) (b c : Bool)
    → ReaderStage s
    → ReaderStage (record s { writer = xs; waits = b; holds = c })
same-ReaderStage s xs b c (outside e n) = outside e n
same-ReaderStage s xs b c (inside e n) = inside e n

requests-WriterStage :
    (s : Lock) (rest : List LockOp)
    → WriterStage s
    → s.writer ≡ write_lock ∷ rest
    → WriterStage (record s { waits = true })
requests-WriterStage s rest (before_write e h) f = before_write e h
requests-WriterStage s rest (in_write e h) f = absurd (cc)
requests-WriterStage s rest (after_write e g h) f = absurd (cc)

writes-WriterStage :
    (s : Lock) (rest : List LockOp)
    → WriterStage s
    → s.writer ≡ write_lock ∷ rest
    → WriterStage (record s { writer = rest; waits = false; holds = true })
writes-WriterStage s rest (before_write e h) f =
    in_write (let g : write_lock ∷ rest ≡ write_lock ∷ write_unlock ∷ [] = sym f ∙ e in cc) refl
writes-WriterStage s rest (in_write e h) f = absurd (cc)
writes-WriterStage s rest (after_write e g h) f = absurd (cc)

unwrites-WriterStage :
    (s : Lock) (rest : List LockOp)
    → WriterStage s
    → s.writer ≡ write_unlock ∷ rest
    → WriterStage (record s { writer = rest; holds = false })
unwrites-WriterStage s rest (before_write e h) f = absurd (cc)
unwrites-WriterStage s rest (in_write e h) f =
    after_write (let g : write_unlock ∷ rest ≡ write_unlock ∷ [] = sym f ∙ e in cc) h refl
unwrites-WriterStage s rest (after_write e g h) f = absurd (cc)

Step-IsSound : {s t : Lock} → Step s t → IsSound s → IsSound t
Step-IsSound {s} {t} (reads rest e f g h) i = rw h (record {
  reader = reads-ReaderStage s rest i.reader e;
  writer = same-WriterStage s rest (suc s.readers) i.writer;
})
Step-IsSound {s} {t} (unreads rest e h) i = rw h (record {
  reader = unreads-ReaderStage s rest i.reader e;
  writer = same-WriterStage s rest (s.readers - 1) i.writer;
})
Step-IsSound {s} {t} (requests rest e f h) i = rw h (record {
  reader = same-ReaderStage s s.writer true s.holds i.reader;
  writer = requests-WriterStage s rest i.writer e;
})
Step-IsSound {s} {t} (writes rest e f g h) i = rw h (record {
  reader = same-ReaderStage s rest false true i.reader;
  writer = writes-WriterStage s rest i.writer e;
})
Step-IsSound {s} {t} (unwrites rest e h) i = rw h (record {
  reader = same-ReaderStage s rest s.waits false i.reader;
  writer = unwrites-WriterStage s rest i.writer e;
})

Reach-IsSound : {s t : Lock} → IsSound s → Reach s t → IsSound t
Reach-IsSound i start = i
Reach-IsSound i (later r st) = Step-IsSound st (Reach-IsSound i r)

-- A reader that holds the lock has it to unlock.
inside-unlocks :
    (xs : List LockOp)
    → alternates true xs ≡ true
    → (rest : List LockOp) × (xs ≡ read_unlock ∷ rest)
unfolding alternates
inside-unlocks [] h = absurd (cc)
inside-unlocks (read_lock ∷ xs) h = absurd (cc)
inside-unlocks (read_unlock ∷ xs) h = (xs, refl)
inside-unlocks (write_lock ∷ xs) h = absurd (cc)
inside-unlocks (write_unlock ∷ xs) h = absurd (cc)

-- A reader that does not hold the lock is done, or wants it.
outside-locks :
    (xs : List LockOp)
    → alternates false xs ≡ true
    → (xs ≡ []) ⊎ ((rest : List LockOp) × (xs ≡ read_lock ∷ rest))
unfolding alternates
outside-locks [] h = inl refl
outside-locks (read_lock ∷ xs) h = inr (xs, refl)
outside-locks (read_unlock ∷ xs) h = absurd (cc)
outside-locks (write_lock ∷ xs) h = absurd (cc)
outside-locks (write_unlock ∷ xs) h = absurd (cc)

-- With nobody reading, or with a reader that is to unlock, one of the two goes on.
progress : (s : Lock) → ReaderStage s → WriterStage s → IsFinished s ⊎ ((t : Lock) × Step s t)
progress s r (in_write e h) = inr (record s { writer = []; holds = false }, unwrites [] e refl)
progress s (inside e n) w =
    let (rest, f) = inside-unlocks s.reader e in
    inr (record s { reader = rest; readers = s.readers - 1 }, unreads rest f refl)
progress s (outside e n) (before_write f h) = elim (Bool-cases s.waits) [
  | inl b ↦ inr (
    record s { writer = write_unlock ∷ []; waits = false; holds = true },
    writes (write_unlock ∷ []) f b n refl,
  )
  | inr b ↦ inr (record s { waits = true }, requests (write_unlock ∷ []) f b refl)
]
progress s (outside e n) (after_write f g h) = elim (outside-locks s.reader e) [
  | inl done ↦ inl (done, f)
  | inr (rest, wants) ↦
      inr (record s { reader = rest; readers = suc s.readers }, reads rest wants g h refl)
]

-- Every other method that reads, `VisitNode` and `Visit` included, whatever they visit, against every
-- method that locks to write: however their calls of the lock interleave, both are finished or one of
-- them can go on.
pub single_reads_progress :
    (m : Reader) (w : Writer) (t : Lock)
    → nests m ≡ false
    → Reach (unlocked m w) t
    → IsFinished t ⊎ ((u : Lock) × Step t u)
single_reads_progress m w t h r =
    let i =
      Reach-IsSound
        (record {
          reader = outside (read_locks-alternates m h) refl;
          writer = before_write (write_locks-writing w) refl;
        })
        r in
    progress t i.reader i.writer
