-- ===== src/ALock/Timeout/Held.antt =====
-- What `status_` and `n_rlock_` of TimeoutALock say of the requests in its queue.
use s_rpc.Base.{
  ℕ, ◌+◌, ◌<◌, ◌≤◌, ◌≡◌, refl, ap, inl, inr, Bool, true, false, ◌&&◌, not, List, [], ◌∷◌, ◌++◌,
  arith, if◌then◌else◌, ◌==◌, Bool-cases, Option, none, some, Option-cases,
}
use s_rpc.Alarm.{Alarm, remove}
use s_rpc.ALock.{
  LockType, rlock, wlock, LockStatus, free, wlocked, rlocked, is_read, is_write, Lock,
}
use s_rpc.ALock.Timeout.{
  TimedStatus, waiting, locked, unlocked, aborted, timed_out, TimedReq, is_waiting, lock_reads,
  find,
}

abbrev pub is_locked : TimedStatus → Bool
is_locked waiting = false
is_locked locked = true
is_locked unlocked = false
is_locked aborted = false
is_locked timed_out = false

-- The status of a request in the queue.
abbrev pub is_queued : TimedStatus → Bool
is_queued waiting = true
is_queued locked = true
is_queued unlocked = false
is_queued aborted = false
is_queued timed_out = true

abbrev pub reads_held : TimedReq → Bool
reads_held r = is_locked r.status && is_read r.type

abbrev pub writes_held : TimedReq → Bool
writes_held r = is_locked r.status && is_write r.type

abbrev pub waits : TimedReq → Bool
waits r = is_waiting r.status

abbrev pub gone : TimedReq → Bool
gone r = not (is_queued r.status)

-- How many requests pass a test.
unfoldable pub count : (TimedReq → Bool) → List TimedReq → ℕ
count p [] = 0
count p (r ∷ rs) = (if p r then 1 else 0) + count p rs

-- A free lock: nobody holds it, and nobody waits. A lock held by readers, and one held by a writer.
abbrev pub Held : LockStatus → ℕ → ℕ → ℕ → Type 0
Held free n w q = (n ≡ 0) × (w ≡ 0) × (q ≡ 0)
Held rlocked n w q = (0 < n) × (w ≡ 0)
Held wlocked n w q = (n ≡ 0) × (w ≡ 1)

pub record Fits (l : Lock) (rs : List TimedReq) : Type 0 where
  pub held : Held l.status l.n_rlock (count writes_held rs) (count waits rs)
  pub readers : l.n_rlock ≡ count reads_held rs
  pub queued : count gone rs ≡ 0

pub count-append :
    (p : TimedReq → Bool) (xs ys : List TimedReq) → count p (xs ++ ys) ≡ count p xs + count p ys
unfolding count
count-append p [] ys = omega arith
count-append p (x ∷ xs) ys = omega (arith, count-append p xs ys)

abbrev pub size : (TimedReq → Bool) → Option (TimedReq × List TimedReq) → ℕ
size p none = 0
size p (some (it, others)) = (if p it then 1 else 0) + count p others

-- The request that is found, and the others.
pub count-find :
    (p : TimedReq → Bool) (id : ℕ) (rs : List TimedReq) (it : TimedReq) (others : List TimedReq)
    → find id rs ≡ some (it, others)
    → count p rs ≡ (if p it then 1 else 0) + count p others
unfolding find count
count-find p id [] it others e = cc
count-find p id (r ∷ rs) it others e = elim (Bool-cases (r.id == id)) [
  | inl t ↦ let f = rw t at e in ap (size p) f
  | inr t ↦ elim (Option-cases (find id rs)) [
    | inl n ↦ let f = rw (t, n) at e in cc
    | inr ((i, o), n) ↦
        let f = rw (t, n) at e in
        let g = count-find p id rs i o n in let h = ap (size p) f in omega arith
  ]
]

both_true : (a b : Bool) → (a && b) ≡ true → (a ≡ true) × (b ≡ true)
both_true true b e = (refl, e)
both_true false b e = absurd (ground arith)

pub waiting_not_held : (s : TimedStatus) → is_waiting s ≡ true → is_locked s ≡ false
waiting_not_held s e = ground arith

read_not_write : (t : LockType) → is_read t ≡ true → is_write t ≡ false
read_not_write rlock e = refl
read_not_write wlock e = absurd (ground arith)

-- The readers behind the first take the lock, too.
pub lock_reads_lem :
    (l : Lock) (alarm : Alarm) (rs : List TimedReq)
    → count writes_held rs ≡ 0
    → count gone rs ≡ 0
    → let r = lock_reads l alarm rs in
      (r.0.status ≡ l.status)
      × (r.0.n_rlock + count reads_held rs ≡ l.n_rlock + count reads_held r.2)
      × (l.n_rlock ≤ r.0.n_rlock)
      × (count writes_held r.2 ≡ 0)
      × (count gone r.2 ≡ 0)
unfolding lock_reads count
lock_reads_lem l alarm [] w g = (refl, refl, omega arith, refl, refl)
lock_reads_lem l alarm (r ∷ rs) w g = elim (Bool-cases (is_read r.type && is_waiting r.status)) [
  | inl t ↦
      let (reads, waits) = both_true (is_read r.type) (is_waiting r.status) t in
      let not_held : is_locked r.status ≡ false = waiting_not_held r.status waits in
      let (a, b, c, d, e) =
        lock_reads_lem (record l { n_rlock = l.n_rlock + 1 }) (remove r.alarm_id alarm).0 rs
          (ground arith) (ground arith) in
      let not_write : is_write r.type ≡ false = read_not_write r.type reads in
      rw (reads, waits, not_held, not_write)
        (a, ground arith, omega arith, ground arith, omega arith)
  | inr t ↦
      let (a, b, c, d, e) = lock_reads_lem l alarm rs (ground arith) (ground arith) in
      rw t (a, omega arith, c, ground arith, ground arith)
]

pub rlocked_lem : (st : LockStatus) (n w q : ℕ) → st ≡ rlocked → 0 < n → w ≡ 0 → Held st n w q
rlocked_lem free n w q e h z = absurd (ground arith)
rlocked_lem rlocked n w q e h z = (h, z)
rlocked_lem wlocked n w q e h z = absurd (ground arith)

pub wlocked_lem : (st : LockStatus) (n w q : ℕ) → st ≡ wlocked → n ≡ 0 → w ≡ 1 → Held st n w q
wlocked_lem free n w q e h z = absurd (ground arith)
wlocked_lem rlocked n w q e h z = absurd (ground arith)
wlocked_lem wlocked n w q e h z = (h, z)
