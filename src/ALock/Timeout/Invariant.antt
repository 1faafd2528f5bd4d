-- ===== src/ALock/Timeout/Invariant.antt =====
-- The operations of TimeoutALock keep its status and its counter true to its queue, and none of their
-- `verify` calls fails.
use s_rpc.Base.{
  ℕ, ◌<◌, ◌≤◌, ◌≡◌, refl, ap, ◌∙◌, ◌⊎◌, inl, inr, true, false, List, [], ◌∷◌, ◌++◌, arith, if-cases,
  ◌==◌,
}
use s_rpc.Alarm.{Alarm}
use s_rpc.ALock.{
  LockType, rlock, wlock, LockStatus, free, wlocked, rlocked, Call, is_free, is_rlocked, Lock,
}
use s_rpc.ALock.Timeout.{waiting, locked, TimedReq, TimeoutLock, taken, lockable, vlock}
use s_rpc.ALock.Timeout.Held.{
  is_locked, is_queued, reads_held, writes_held, gone, count, Held, Fits, count-append,
}

-- What `status_` and `n_rlock_` say is so: the requests that hold the lock are either one writer or
-- `n_rlock_` readers; every request in the queue holds, waits or has timed out; and nobody waits for a
-- free lock.
abbrev pub IsValid : TimeoutLock → Type 0
IsValid s = Fits s.held s.requests

-- The status, from what the queue holds.
pub when_reads : (st : LockStatus) (n w q : ℕ) → Held st n w q → 0 < n → (st ≡ rlocked) × (w ≡ 0)
when_reads free n w q h z = absurd (omega arith)
when_reads rlocked n w q h z = (refl, h.1)
when_reads wlocked n w q h z = absurd (omega arith)

pub when_writes : (st : LockStatus) (n w q : ℕ) → Held st n w q → 0 < w → (n ≡ 0) × (w ≡ 1)
when_writes free n w q h z = absurd (omega arith)
when_writes rlocked n w q h z = absurd (omega arith)
when_writes wlocked n w q h z = h

when_free :
    (st : LockStatus) (n w q : ℕ) → Held st n w q → is_free st ≡ true → (n ≡ 0) × (w ≡ 0) × (q ≡ 0)
when_free free n w q h z = h
when_free rlocked n w q h z = absurd (ground arith)
when_free wlocked n w q h z = absurd (ground arith)

-- Fewer wait, or more for a lock that is not free.
pub with_fewer : (st : LockStatus) (n w q r : ℕ) → Held st n w q → r ≤ q → Held st n w r
with_fewer free n w q r h z = (h.0, h.1, omega arith)
with_fewer rlocked n w q r h z = h
with_fewer wlocked n w q r h z = h

with_more : (st : LockStatus) (n w q r : ℕ) → Held st n w q → is_free st ≡ false → Held st n w r
with_more free n w q r h z = absurd (ground arith)
with_more rlocked n w q r h z = h
with_more wlocked n w q r h z = h

lockable_cases :
    (type : LockType) (l : Lock)
    → lockable type l ≡ true
    → (is_free l.status ≡ true) ⊎ ((is_rlocked l.status ≡ true) × (type ≡ rlock))
lockable_cases rlock l c = ground arith
lockable_cases wlock l c = ground arith

when_rlocked : (st : LockStatus) (n w q : ℕ) → Held st n w q → is_rlocked st ≡ true → w ≡ 0
when_rlocked free n w q h z = absurd (ground arith)
when_rlocked rlocked n w q h z = h.1
when_rlocked wlocked n w q h z = absurd (ground arith)

-- A new request takes the lock.
taken-Fits :
    (type : LockType) (l : Lock) (rs : List TimedReq) (id : ℕ)
    → lockable type l ≡ true
    → Fits l rs
    → Fits
        (taken type l)
        (rs ++ record { id = id; alarm_id = 0; type = type; status = locked } ∷ [])
unfolding count
taken-Fits rlock l rs id c v =
    let x : TimedReq = record { id = id; alarm_id = 0; type = rlock; status = locked } in
    let none_writes : count writes_held rs ≡ 0 = elim (lockable_cases rlock l c) [
      | inl f ↦ (when_free l.status l.n_rlock _ _ v.held f).1
      | inr (f, _) ↦ when_rlocked l.status l.n_rlock _ _ v.held f
    ] in
    let w = count-append writes_held rs (x ∷ []) in
    let r = count-append reads_held rs (x ∷ []) in
    let g = count-append gone rs (x ∷ []) in
    let n = v.readers in
    let q = v.queued in
    record { held = (omega arith, omega arith); readers = omega arith; queued = omega arith }
taken-Fits wlock l rs id c v =
    let x : TimedReq = record { id = id; alarm_id = 0; type = wlock; status = locked } in
    let z : (l.n_rlock ≡ 0) × (count writes_held rs ≡ 0) = elim (lockable_cases wlock l c) [
      | inl f ↦ let (a, b, _) = when_free l.status l.n_rlock _ _ v.held f in (a, b)
      | inr (_, f) ↦ absurd (ground arith)
    ] in
    let w = count-append writes_held rs (x ∷ []) in
    let r = count-append reads_held rs (x ∷ []) in
    let g = count-append gone rs (x ∷ []) in
    let n = v.readers in
    let q = v.queued in
    record { held = (z.0, omega arith); readers = omega arith; queued = omega arith }

-- A new request waits.
waiting-Fits :
    (l : Lock) (rs : List TimedReq) (x : TimedReq)
    → x.status ≡ waiting
    → is_free l.status ≡ false
    → Fits l rs
    → Fits l (rs ++ x ∷ [])
unfolding count
waiting-Fits l rs x e f v =
    let n = v.readers in
    let q = v.queued in
    let not_held : is_locked x.status ≡ false = ap is_locked e in
    let in_queue : is_queued x.status ≡ true = ap is_queued e in
    let w : count writes_held (rs ++ x ∷ []) ≡ count writes_held rs =
      count-append writes_held rs (x ∷ []) ∙ ground arith in
    let r : count reads_held (rs ++ x ∷ []) ≡ count reads_held rs =
      count-append reads_held rs (x ∷ []) ∙ ground arith in
    let g : count gone (rs ++ x ∷ []) ≡ count gone rs =
      count-append gone rs (x ∷ []) ∙ ground arith in
    record {
      held = rw w (with_more l.status l.n_rlock _ _ _ v.held f);
      readers = omega arith;
      queued = omega arith;
    }

-- `vlock` on a well-formed lock leaves a well-formed lock.
pub timed_vlock-IsValid :
    (now : ℕ) (type : LockType) (s : TimeoutLock) (alarm : Alarm)
    → IsValid s
    → IsValid (vlock now type (s, alarm)).0
unfolding vlock
timed_vlock-IsValid now type s alarm v =
    if-cases (λ (r : TimeoutLock × Alarm × List Call × ℕ). IsValid r.0) (lockable type s.held) _ _
      (λ c. taken-Fits type s.held s.requests s.next_id c v)
      (λ c.
        if-cases (λ (r : TimeoutLock × Alarm × List Call × ℕ). IsValid r.0) (s.tm_wait == 0) _ _
          (λ z. v) (λ z. waiting-Fits s.held s.requests _ refl (ground arith) v))
