-- ===== src/ALock/WoundDie.antt =====
-- class WoundDieALock: src/misc/alock.hpp and alock.cpp. A request wounds the younger ones (of a
-- larger priority value) that it would wait for, and waits behind those that do not give way. What
-- the wound_callback of a request answers is a parameter: `accepts id` says that it returns 0.
pub mod Release
use s_rpc.Base.{
  ℕ, suc, ◌+◌, Bool, true, false, not, ◌&&◌, List, [], ◌∷◌, ◌++◌, ◌==◌, if◌then◌else◌, length, none,
  some,
}
use s_rpc.Base.Int.{ℤ, leb_ℤ, ltb_ℤ}
use s_rpc.Base.Outcome.{Outcome, done, fault, verify_failed, ◌>>=◌, ◌>>◌, verify}
use s_rpc.ALock.{
  LockType, rlock, wlock, LockStatus, free, wlocked, rlocked, wait, Req, Call, refused, wounded,
  is_read, is_write, is_wait, is_free, is_rlocked, is_wlocked, Lock, decrement, write_acquire,
  read_acquire_all, reads_ahead, find, count_type,
}
use mathlib.Core.List.{reverse}

pub record WoundDie : Type 0 where
  pub next_id : ℕ
  pub held : Lock
  pub done_ : Bool
  pub requests : List Req

-- `WoundDieALock()`
abbrev pub new_wound_die : WoundDie
new_wound_die = record {
  next_id = 1;
  held = record { status = free; n_rlock = 0 };
  done_ = false;
  requests = [];
}

module _ (accepts : ℕ → Bool) where
  -- `wound(lock_req_t&)`: the lock, and whether it returns 0.
  unfoldable pub wound : Lock → Req → Outcome (Lock × Bool × List Call)
  wound l r =
      if is_wait r.status
      then done (l, true, refused r.id ∷ [])
      else if not (accepts r.id)
      then done (l, false, wounded r.id ∷ [])
      else if is_write r.type
      then (do
        verify (is_wlocked l.status)
        done (record l { status = free }, true, wounded r.id ∷ []))
      else (do
        verify (is_rlocked l.status)
        n ← decrement l.n_rlock
        let status = if n == 0 then free else l.status
        done (record { status = status; n_rlock = n }, true, wounded r.id ∷ []))

  -- The loop of `wound_die` for a write request, from the back of the queue.
  unfoldable pub wound_for_write : ℤ → Lock → List Req → Outcome (Lock × List Req × List Call)
  unfolding wound
  wound_for_write priority l [] = done (l, [], [])
  wound_for_write priority l (r ∷ rs) =
      let younger = wound l r >>= λ a. wound_for_write priority a.0 rs >>= λ b.
      done (b.0, if a.1 then b.1 else r ∷ b.1, a.2 ++ b.2) in
      let older = wound_for_write priority l rs >>= λ b. done (b.0, r ∷ b.1, b.2) in
      if leb_ℤ priority r.priority
      then younger
      else if is_write r.type
      then done (l, r ∷ rs, [])
      else older

  -- For a read request, which wounds write requests only.
  unfoldable pub wound_for_read : ℤ → Lock → List Req → Outcome (Lock × List Req × List Call)
  unfolding wound
  wound_for_read priority l [] = done (l, [], [])
  wound_for_read priority l (r ∷ rs) =
      let writer = wound l r >>= λ a. wound_for_read priority a.0 rs >>= λ b.
      done (b.0, if a.1 then b.1 else r ∷ b.1, a.2 ++ b.2) in
      let reader = wound_for_read priority l rs >>= λ b. done (b.0, r ∷ b.1, b.2) in
      if ltb_ℤ r.priority priority
      then done (l, r ∷ rs, [])
      else if is_write r.type
      then writer
      else reader

  -- `wound_die(type_t type, int64_t priority)`
  unfoldable pub wound_die : LockType → ℤ → WoundDie → Outcome (WoundDie × List Call)
  unfolding wound_for_write wound_for_read
  wound_die type priority s = do
    (l, rs, calls) ←
        (if is_write type
          then wound_for_write priority s.held (reverse s.requests)
          else wound_for_read priority s.held (reverse s.requests))
    done (record s { held = l; requests = reverse rs }, calls)

-- The queue of a read-locked lock: the requests that hold it, the read requests behind them, and what
-- follows from the first write request on.
unfoldable pub scan : Bool → List Req → Outcome (List Req × List Req × List Req)
scan new_acquired [] = done ([], [], [])
scan new_acquired (r ∷ rs) =
    let holds = verify (is_read r.type && not new_acquired) >>= λ _.
    scan new_acquired rs >>= λ a. done (r ∷ a.0, a.1, a.2) in
    let reads = scan true rs >>= λ a. done (a.0, r ∷ a.1, a.2) in
    if not (is_wait r.status)
    then holds
    else if is_read r.type
    then reads
    else done ([], [], r ∷ rs)

-- `vlock` on a free lock: the front of the queue takes it, with the read requests behind it.
unfoldable pub grant_free : WoundDie → List Req → Outcome (WoundDie × List Call)
grant_free s [] = fault verify_failed
grant_free s (r ∷ rs) =
    if is_write r.type
    then (do
      (l, r', calls) ← write_acquire s.held r
      done (record s { held = l; requests = r' ∷ rs }, calls))
    else (do
      let (reads, rest) = reads_ahead (r ∷ rs)
      (l, reads', calls) ← read_acquire_all s.held reads
      done (record s { held = l; requests = reads' ++ rest }, calls))

-- The test of the request at the front.
abbrev pub front_holds : (LockType → Bool) → List Req → Bool
front_holds p [] = false
front_holds p (r ∷ rs) = p r.type && not (is_wait r.status)

-- The `switch` at the end of `vlock`.
unfoldable pub grant : LockStatus → WoundDie → Outcome (WoundDie × List Call)
unfolding grant_free scan
grant free s = grant_free s s.requests
grant rlocked s = do
  verify (front_holds is_read s.requests)
  (holding, reads, rest) ← scan false s.requests
  (l, reads', calls) ← read_acquire_all s.held reads
  done (record s { held = l; requests = holding ++ (reads' ++ rest) }, calls)
grant wlocked s = do verify (front_holds is_write s.requests); done (s, [])

-- `vlock(yes_callback, no_callback, type, priority, wound_callback)`: the lock, the calls and the id.
unfoldable pub vlock : (ℕ → Bool) → LockType → ℤ → WoundDie → Outcome (WoundDie × List Call × ℕ)
unfolding wound_die grant
vlock accepts type priority s0 =
    let id = s0.next_id in
    let s = record s0 { next_id = suc id } in
    let r : Req = record { id = id; priority = priority; type = type; status = wait } in
    if s.done_
    then done (s, refused id ∷ [], id)
    else (wound_die accepts type priority s >>= λ w.
        grant w.0.held.status (record w.0 { requests = w.0.requests ++ r ∷ [] }) >>= λ g.
        done (g.0, w.1 ++ g.1, id))

-- The first write request in the queue is aborted: the read requests up to the next one get the lock.
unfoldable pub pass_on : WoundDie → List Req → Req → List Req → Outcome (WoundDie × List Call)
pass_on t before it after = do
  verify (is_rlocked t.held.status)
  let (reads, rest) = reads_ahead after
  (l, reads', calls) ← read_acquire_all t.held reads
  done (record t { held = l; requests = before ++ (reads' ++ rest) }, calls ++ refused it.id ∷ [])

-- `abort` of a request that waits; `before` and `after` are the queue without it.
unfoldable pub abort_waiting : WoundDie → List Req → Req → List Req → Outcome (WoundDie × List Call)
unfolding pass_on
abort_waiting s before it after =
    let t = record s { requests = before ++ after } in
    if is_write it.type && count_type is_write before == 0
    then pass_on t before it after
    else done (t, refused it.id ∷ [])

-- The next request gets the lock, or the lock is free.
unfoldable pub unlock_read : WoundDie → List Req → List Req → Outcome (WoundDie × List Call)
unlock_read s before [] = do
  verify (length before == 0)
  done (record s { held = record { status = free; n_rlock = s.held.n_rlock } }, [])
unlock_read s before (r ∷ rest) = do
  (l, r', calls) ← write_acquire s.held r
  done (record s { held = l; requests = before ++ r' ∷ rest }, calls)

unfoldable pub unlock_write : WoundDie → List Req → List Req → Outcome (WoundDie × List Call)
unlock_write s before [] = do
  verify (length before == 0)
  done (record s { held = record { status = free; n_rlock = s.held.n_rlock } }, [])
unlock_write s before (r ∷ rest) =
    if is_write r.type
    then (do
      (l, r', calls) ← write_acquire s.held r
      done (record s { held = l; requests = before ++ r' ∷ rest }, calls))
    else (do
      let (reads, others) = reads_ahead (r ∷ rest)
      (l, reads', calls) ← read_acquire_all s.held reads
      verify (is_rlocked l.status)
      done (record s { held = l; requests = before ++ (reads' ++ others) }, calls))

-- `abort` of a request that holds the lock.
unfoldable pub abort_held : WoundDie → List Req → Req → List Req → Outcome (WoundDie × List Call)
unfolding unlock_read unlock_write
abort_held s before it after =
    let t = record s { requests = before ++ after } in
    if is_read it.type
    then (do
      k ← decrement s.held.n_rlock
      let u = record t { held = record { status = s.held.status; n_rlock = k } }
      if k == 0 then unlock_read u before after else done (u, []))
    else unlock_write t before after

-- `abort(uint64_t id)`
unfoldable pub abort : ℕ → WoundDie → Outcome (WoundDie × List Call)
unfolding abort_waiting abort_held
abort id s = if s.done_ then done (s, []) else elim (find id s.requests) [
  | none ↦ done (s, [])
  | some (before, it, after) ↦
      if is_wait it.status then abort_waiting s before it after else abort_held s before it after
]

-- The calls of `~WoundDieALock()` on the requests that wait.
unfoldable pub refuse_waiting : List Req → List Call
refuse_waiting [] = []
refuse_waiting (r ∷ rs) =
    if is_wait r.status then refused r.id ∷ refuse_waiting rs else refuse_waiting rs

-- `~WoundDieALock()`
unfoldable pub destroy : WoundDie → Outcome (WoundDie × List Call)
unfolding refuse_waiting
destroy s = do
  verify (not s.done_)
  verify (not (is_rlocked s.held.status))
  done (record s { done_ = true; requests = [] }, refuse_waiting s.requests)
