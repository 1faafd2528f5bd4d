-- ===== src/ALock/WaitDie.antt =====
-- class WaitDieALock: src/misc/alock.hpp and alock.cpp. A request that conflicts with the queue waits
-- if it is older (has a smaller priority value) than what it would wait for, and dies otherwise.
pub mod Queue
pub mod Holds
pub mod Steps
pub mod Invariant
pub mod Passed
pub mod Release
pub mod Exclusion
pub mod Order
pub mod Kept
pub mod Joined
use s_rpc.Base.{
  ℕ, suc, ◌+◌, Bool, true, false, not, ◌&&◌, ◌||◌, List, [], ◌∷◌, ◌++◌, ◌==◌, if◌then◌else◌, length,
  Option, none, some,
}
use s_rpc.Base.Int.{ℤ, leb_ℤ, ltb_ℤ}
use s_rpc.Base.Outcome.{Outcome, done, fault, verify_failed, ◌>>=◌, ◌>>◌, verify}
use s_rpc.ALock.{
  LockType, rlock, wlock, LockStatus, free, wlocked, rlocked, ReqStatus, wait, lock, Req, Call,
  granted, refused, is_read, is_write, is_wait, is_free, is_rlocked, Lock, decrement, write_acquire,
  read_acquire, read_acquire_all, reads_ahead, find, count_type,
}
use mathlib.Core.List.{reverse}

-- `status_`, `n_rlock_` and `done_` of ALock, and the fields of WaitDieALock.
pub record WaitDie : Type 0 where
  pub next_id : ℕ
  pub held : Lock
  pub done_ : Bool
  pub requests : List Req
  pub n_r_in_queue : ℕ
  pub n_w_in_queue : ℕ

-- `WaitDieALock()`
abbrev pub new_lock : WaitDie
new_lock = record {
  next_id = 1;
  held = record { status = free; n_rlock = 0 };
  done_ = false;
  requests = [];
  n_r_in_queue = 0;
  n_w_in_queue = 0;
}

-- `wd_status_t`
pub data WdStatus : Type 0 where
  wd_wait wd_die : WdStatus

-- The loop of `wait_die` for a write request, from the back of the queue.
unfoldable pub write_wait_die : ℤ → List Req → WdStatus
write_wait_die priority [] = wd_wait
write_wait_die priority (r ∷ rs) =
    let rest = write_wait_die priority rs in
    if leb_ℤ r.priority priority then wd_die else if is_write r.type then wd_wait else rest

-- For a read request: it looks at the last write request only.
unfoldable pub read_wait_die : ℤ → List Req → Outcome WdStatus
read_wait_die priority [] = fault verify_failed
read_wait_die priority (r ∷ rs) =
    let rest = read_wait_die priority rs in
    if is_write r.type then done (if ltb_ℤ priority r.priority then wd_wait else wd_die) else rest

-- `wait_die(type_t type, int64_t priority)`
unfoldable pub wait_die : LockType → ℤ → List Req → Outcome WdStatus
unfolding write_wait_die read_wait_die
wait_die wlock priority requests = done (write_wait_die priority (reverse requests))
wait_die rlock priority requests = read_wait_die priority (reverse requests)

-- `requests_.emplace_back(...)` with the counter of the request's type.
unfoldable pub enqueue : WaitDie → Req → WaitDie
enqueue s r = record s {
  requests = s.requests ++ r ∷ [];
  n_r_in_queue = s.n_r_in_queue + (if is_read r.type then 1 else 0);
  n_w_in_queue = s.n_w_in_queue + (if is_write r.type then 1 else 0);
}

-- The request at the back, which has just been queued, acquires the lock.
unfoldable pub acquire_new : WaitDie → Req → Outcome (WaitDie × List Call)
unfolding enqueue
acquire_new s r = do
  (l, r', calls) ← (if is_read r.type then read_acquire s.held r else write_acquire s.held r)
  done (record (enqueue s r') { held = l }, calls)

-- The condition under which a request gets the lock at once.
abbrev pub acquirable : WaitDie → LockType → Bool
acquirable s type =
    is_free s.held.status || (is_rlocked s.held.status && is_read type && s.n_w_in_queue == 0)

-- `vlock(yes_callback, no_callback, type, priority, wound_callback)`: the lock, the calls and the id.
unfoldable pub vlock : LockType → ℤ → WaitDie → Outcome (WaitDie × List Call × ℕ)
unfolding acquire_new enqueue
vlock type priority s0 =
    let id = s0.next_id in
    let s = record s0 { next_id = suc id } in
    let r : Req = record { id = id; priority = priority; type = type; status = wait } in
    if s.done_
    then done (s, refused id ∷ [], id)
    else if acquirable s type
    then (acquire_new s r >>= λ p. done (p.0, p.1, id))
    else (wait_die type priority s.requests >>= λ w.
        done (elim w [ wd_wait ↦ (enqueue s r, [], id) | wd_die ↦ (s, refused id ∷ [], id) ]))

-- The first write request in the queue is aborted: the read requests up to the next one get the lock.
unfoldable pub pass_on : WaitDie → List Req → Req → List Req → Outcome (WaitDie × List Call)
pass_on t before it after = do
  verify (is_rlocked t.held.status)
  let (reads, rest) = reads_ahead after
  (l, reads', calls) ← read_acquire_all t.held reads
  done (record t { held = l; requests = before ++ (reads' ++ rest) }, calls ++ refused it.id ∷ [])

-- `abort` of a request that waits; `before` and `after` are the queue without it.
unfoldable pub abort_waiting : WaitDie → List Req → Req → List Req → Outcome (WaitDie × List Call)
unfolding pass_on
abort_waiting s before it after =
    if is_read it.type
    then (do
      n ← decrement s.n_r_in_queue
      done (record s { requests = before ++ after; n_r_in_queue = n }, refused it.id ∷ []))
    else (do
      n ← decrement s.n_w_in_queue
      let t = record s { requests = before ++ after; n_w_in_queue = n }
      if count_type is_write before == 0
          then pass_on t before it after
          else done (t, refused it.id ∷ []))

-- The next request gets the lock, or the lock is free.
unfoldable pub unlock_read : WaitDie → List Req → List Req → Outcome (WaitDie × List Call)
unlock_read s before [] = do
  verify (length before == 0)
  done (record s { held = record { status = free; n_rlock = s.held.n_rlock } }, [])
unlock_read s before (r ∷ rest) = do
  (l, r', calls) ← write_acquire s.held r
  done (record s { held = l; requests = before ++ r' ∷ rest }, calls)

unfoldable pub unlock_write : WaitDie → List Req → List Req → Outcome (WaitDie × List Call)
unlock_write s before [] = do
  verify (length before == 0)
  done (record s { held = record { status = free; n_rlock = s.held.n_rlock } }, [])
unlock_write s before (r ∷ rest) =
    if is_write r.type
    then (do
      (l, r', calls) ← write_acquire s.held r
      done (record s { held = l; requests = before ++ r' ∷ rest }, calls))
    else (do
      let (reads, others) = reads_ahead (r ∷ rest)
      (l, reads', calls) ← read_acquire_all s.held reads
      verify (is_rlocked l.status)
      done (record s { held = l; requests = before ++ (reads' ++ others) }, calls))

-- `abort` of a request that holds the lock.
unfoldable pub abort_held : WaitDie → List Req → Req → List Req → Outcome (WaitDie × List Call)
unfolding unlock_read unlock_write
abort_held s before it after =
    if is_read it.type
    then (do
      n ← decrement s.n_r_in_queue
      k ← decrement s.held.n_rlock
      let t = record s {
        requests = before ++ after;
        n_r_in_queue = n;
        held = record { status = s.held.status; n_rlock = k };
      }
      if k == 0 then unlock_read t before after else done (t, []))
    else (do
      n ← decrement s.n_w_in_queue
      unlock_write (record s { requests = before ++ after; n_w_in_queue = n }) before after)

-- `abort(uint64_t id)`
unfoldable pub abort : ℕ → WaitDie → Outcome (WaitDie × List Call)
unfolding abort_waiting abort_held
abort id s = if s.done_ then done (s, []) else elim (find id s.requests) [
  | none ↦ done (s, [])
  | some (before, it, after) ↦
      if is_wait it.status then abort_waiting s before it after else abort_held s before it after
]

-- The calls of `~WaitDieALock()` on the requests that wait.
unfoldable pub refuse_waiting : List Req → List Call
refuse_waiting [] = []
refuse_waiting (r ∷ rs) =
    if is_wait r.status then refused r.id ∷ refuse_waiting rs else refuse_waiting rs

-- `~WaitDieALock()`
unfoldable pub destroy : WaitDie → Outcome (WaitDie × List Call)
unfolding refuse_waiting
destroy s = do
  verify (not s.done_)
  verify (not (is_rlocked s.held.status))
  done (record s { done_ = true; requests = [] }, refuse_waiting s.requests)
