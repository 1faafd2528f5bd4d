-- ===== src/ALock/WaitDie/Exclusion.antt =====
-- What WaitDieALock promises in every state that calls of `vlock` and `abort` lead to.
use s_rpc.Base.{ℕ, zero, suc, ◌≡◌, refl, List, ◌∷◌, ◌++◌, arith}
use s_rpc.Base.Int.{ℤ}
use s_rpc.Base.Outcome.{done}
use s_rpc.ALock.{LockType, wlock, LockStatus, free, wlocked, rlocked, lock, Req, Call, count_type}
use s_rpc.ALock.WaitDie.{WaitDie, new_lock, vlock, abort}
use s_rpc.ALock.WaitDie.Queue.{Waiting}
use s_rpc.ALock.WaitDie.Holds.{HoldsAs, unlock_writer}
use s_rpc.ALock.WaitDie.Invariant.{IsValid, vlock-IsValid}
use s_rpc.ALock.WaitDie.Release.{abort-IsValid}

-- The states of a lock in use.
pub data Reach : WaitDie → Type 0 where
  start : Reach new_lock
  after_vlock :
      (type : LockType) (priority : ℤ) (s t : WaitDie) (calls : List Call) (id : ℕ)
      → Reach s
      → vlock type priority s ≡ done (t, calls, id)
      → Reach t
  after_abort :
      (id : ℕ) (s t : WaitDie) (calls : List Call)
      → Reach s
      → abort id s ≡ done (t, calls)
      → Reach t

Reach-IsValid : (s : WaitDie) → Reach s → IsValid s
unfolding count_type
Reach-IsValid _ start = record { holds = (refl, refl); reads_counted = refl; writes_counted = refl }
Reach-IsValid _ (after_vlock type priority s t calls id r e) =
    rw e at (vlock-IsValid type priority s (Reach-IsValid s r))
Reach-IsValid _ (after_abort id s t calls r e) = rw e at (abort-IsValid id s (Reach-IsValid s r))

-- In every state that calls of `vlock` and `abort` lead to, a request that holds the write lock holds
-- it alone: `status_` is WLOCKED, and every other request of the queue waits.
pub write_exclusive :
    (s : WaitDie) (before : List Req) (it : Req) (after : List Req)
    → Reach s
    → s.requests ≡ before ++ it ∷ after
    → it.type ≡ wlock
    → it.status ≡ lock
    → (s.held.status ≡ wlocked) × Waiting (before ++ after)
write_exclusive s before it after r e t l =
    let h : HoldsAs s.held.status s.held.n_rlock (before ++ it ∷ after) =
      rw e at (Reach-IsValid s r).holds in
    let (st, _, b, w) = unlock_writer s.held.status s.held.n_rlock before it after l t h in
    (st, rw b w)

-- In every state that calls of `vlock` and `abort` lead to, the first request of the queue holds the
-- lock: no request waits for a lock that nobody holds.
pub first_holds :
    (s : WaitDie) (it : Req) (after : List Req)
    → Reach s
    → s.requests ≡ it ∷ after
    → it.status ≡ lock
first_holds s it after r e =
    let h : HoldsAs s.held.status s.held.n_rlock (it ∷ after) = rw e at (Reach-IsValid s r).holds in
    front s.held.status s.held.n_rlock h
  where
    front : (st : LockStatus) (k : ℕ) → HoldsAs st k (it ∷ after) → it.status ≡ lock
    front free k h = absurd (ground arith)
    front wlocked k h = h.1.1
    front rlocked zero h = absurd (omega arith)
    front rlocked (suc k) h = h.1.1
