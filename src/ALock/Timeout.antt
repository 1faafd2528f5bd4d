-- ===== src/ALock/Timeout.antt =====
-- class TimeoutALock: src/misc/alock.hpp and alock.cpp. A request waits until the lock is passed to
-- it or its alarm rings. The alarm that all locks share is passed along; the callback of an alarm
-- is named by the id of its request.
pub mod Held
pub mod First
pub mod Invariant
pub mod Release
pub mod Ended
use s_rpc.Base.{
  ℕ, suc, ◌+◌, ◌^◌, ◌%◌, Bool, true, false, ◌&&◌, ◌||◌, List, [], ◌∷◌, ◌++◌, ◌==◌, if◌then◌else◌,
  Option, none, some,
}
use s_rpc.Base.Outcome.{Outcome, done, fault, verify_failed, ◌>>=◌, ◌>>◌, verify}
use s_rpc.Alarm.{Alarm, add, remove}
use s_rpc.ALock.{
  LockType, rlock, wlock, LockStatus, free, wlocked, rlocked, Call, granted, refused, is_read,
  is_free, is_rlocked, Lock, decrement,
}

-- `ALockReq::status_t`
pub data TimedStatus : Type 0 where
  waiting locked unlocked aborted timed_out : TimedStatus

-- `ALockReq`
pub record TimedReq : Type 0 where
  pub id : ℕ
  pub alarm_id : ℕ
  pub type : LockType
  pub status : TimedStatus

-- `status_`, `n_rlock_` of ALock, and the fields of TimeoutALock.
pub record TimeoutLock : Type 0 where
  pub next_id : ℕ
  pub held : Lock
  pub tm_wait : ℕ
  pub requests : List TimedReq

-- `TimeoutALock(time_wait)`
abbrev pub new_timeout : ℕ → TimeoutLock
new_timeout tm_wait = record {
  next_id = 1;
  held = record { status = free; n_rlock = 0 };
  tm_wait = tm_wait;
  requests = [];
}

abbrev pub is_waiting : TimedStatus → Bool
is_waiting waiting = true
is_waiting locked = false
is_waiting unlocked = false
is_waiting aborted = false
is_waiting timed_out = false

-- `cas_status(c, s)` for c = WAIT.
unfoldable pub cas_waiting : TimedStatus → TimedReq → TimedReq × Bool
cas_waiting to r = if is_waiting r.status then (record r { status = to }, true) else (r, false)

-- The lock after a request of a type takes it.
abbrev pub taken : LockType → Lock → Lock
taken rlock l = record { status = rlocked; n_rlock = l.n_rlock + 1 }
taken wlock l = record l { status = wlocked }

abbrev pub lockable : LockType → Lock → Bool
lockable type l = is_free l.status || (is_rlocked l.status && is_read type)

-- `vlock(yes_callback, no_callback, type, ...)` at a time: the lock, the alarm, the calls and the id.
unfoldable pub vlock : ℕ → LockType → TimeoutLock × Alarm → TimeoutLock × Alarm × List Call × ℕ
vlock now type (s0, alarm) =
    let id = s0.next_id in
    let s = record s0 { next_id = suc id } in
    let (alarm', alarm_id) = add ((now + s.tm_wait) % 2 ^ 64) id alarm in
    if lockable type s.held
    then (
      record s {
        held = taken type s.held;
        requests =
            s.requests ++ record { id = id; alarm_id = 0; type = type; status = locked } ∷ [];
      },
      alarm,
      granted id ∷ [],
      id,
    )
    else if s.tm_wait == 0
    then (s, alarm, refused id ∷ [], id)
    else (
      record s {
        requests =
            s.requests
            ++ record { id = id; alarm_id = alarm_id; type = type; status = waiting } ∷ [];
      },
      alarm',
      [],
      id,
    )

-- The second loop of `lock_all`: every read request that waits takes the lock, too.
unfoldable pub lock_reads : Lock → Alarm → List TimedReq → Lock × Alarm × List TimedReq × List Call
lock_reads l alarm [] = (l, alarm, [], [])
lock_reads l alarm (r ∷ rs) =
    let (l', alarm', rs', calls') =
      lock_reads (record l { n_rlock = l.n_rlock + 1 }) (remove r.alarm_id alarm).0 rs in
    let (l'', alarm'', rs'', calls'') = lock_reads l alarm rs in
    if is_read r.type && is_waiting r.status
    then (l', alarm', record r { status = locked } ∷ rs', granted r.id ∷ calls')
    else (l'', alarm'', r ∷ rs'', calls'')

-- The first loop of `lock_all`: the first request that waits takes the lock.
unfoldable pub lock_first : Lock → Alarm → List TimedReq → Lock × Alarm × List TimedReq × List Call
unfolding lock_reads
lock_first l alarm [] = (l, alarm, [], [])
lock_first l alarm (r ∷ rs) =
    let next = taken r.type l in
    let alarm' = (remove r.alarm_id alarm).0 in
    let (l', alarm'', rs', calls) = lock_reads next alarm' rs in
    let (l'', alarm3, rs'', calls'') = lock_first l alarm rs in
    if is_waiting r.status
    then (if is_rlocked next.status
        then (l', alarm'', record r { status = locked } ∷ rs', granted r.id ∷ calls)
        else (next, alarm', record r { status = locked } ∷ rs, granted r.id ∷ []))
    else (l'', alarm3, r ∷ rs'', calls'')

-- `lock_all(lock_reqs)`; the calls stand for the requests that it collects.
unfoldable pub lock_all : TimeoutLock → Alarm → Outcome (TimeoutLock × Alarm × List Call)
unfolding lock_first
lock_all s alarm = do
  verify (is_free s.held.status && s.held.n_rlock == 0)
  let (l, alarm', rs, calls) = lock_first s.held alarm s.requests
  done (record s { held = l; requests = rs }, alarm', calls)

-- The search of `abort`: the request, and the queue without it.
unfoldable pub find : ℕ → List TimedReq → Option (TimedReq × List TimedReq)
find id [] = none
find id (r ∷ rs) =
    if r.id == id
    then some (r, rs)
    else elim (find id rs) [ none ↦ none | some (it, others) ↦ some (it, r ∷ others) ]

-- The end of `abort` of a request that holds the lock: `n` is `n_rlock_`.
unfoldable pub settle :
    TimeoutLock → Alarm → ℕ → List TimedReq → Outcome (TimeoutLock × Alarm × List Call)
unfolding lock_all
settle s alarm n others =
    let status = if n == 0 then free else s.held.status in
    let t = record s { held = record { status = status; n_rlock = n }; requests = others } in
    if is_free status then lock_all t alarm else done (t, alarm, [])

-- `abort` of a request that holds the lock.
unfoldable pub release :
    TimeoutLock → Alarm → TimedReq → List TimedReq → Outcome (TimeoutLock × Alarm × List Call)
unfolding settle
release s alarm it others = do
  n ← (if is_read it.type then decrement s.held.n_rlock else done s.held.n_rlock)
  settle s alarm n others

-- `abort` of a request, by its status.
unfoldable pub abort_found :
    TimedStatus
    → TimeoutLock
    → Alarm
    → TimedReq
    → List TimedReq
    → Outcome (TimeoutLock × Alarm × List Call)
unfolding release
abort_found locked s alarm it others = release s alarm it others
abort_found waiting s alarm it others =
    done (record s { requests = others }, (remove it.alarm_id alarm).0, [])
abort_found timed_out s alarm it others = done (record s { requests = others }, alarm, [])
abort_found unlocked s alarm it others = fault verify_failed
abort_found aborted s alarm it others = fault verify_failed

-- `abort(id)`
unfoldable pub abort : ℕ → TimeoutLock → Alarm → Outcome (TimeoutLock × Alarm × List Call)
unfolding abort_found
abort id s alarm = elim (find id s.requests) [
  | none ↦ done (s, alarm, [])
  | some (it, others) ↦ abort_found it.status s alarm it others
]

-- `do_timeout(req)`
unfoldable pub do_timeout : TimedReq → TimedReq × List Call
unfolding cas_waiting
do_timeout r =
    let (r', call) = cas_waiting timed_out r in (r', if call then refused r.id ∷ [] else [])

-- The alarm of the request with an id rings.
unfoldable pub ring : ℕ → List TimedReq → List TimedReq × List Call
unfolding do_timeout
ring id [] = ([], [])
ring id (r ∷ rs) =
    let (rs', calls) = ring id rs in
    let (r', calls') = do_timeout r in if r.id == id then (r' ∷ rs, calls') else (r ∷ rs', calls)

-- A turn of the loop of `~TimeoutALock()`: what the rest comes to, without and with the alarm.
unfoldable pub dismiss :
    TimedStatus
    → ℕ
    → Outcome (Alarm × List Call)
    → Outcome (Alarm × List Call)
    → Outcome (Alarm × List Call)
dismiss locked id rest unalarmed = rest
dismiss waiting id rest unalarmed = unalarmed >>= λ a. done (a.0, refused id ∷ a.1)
dismiss timed_out id rest unalarmed = rest
dismiss unlocked id rest unalarmed = fault verify_failed
dismiss aborted id rest unalarmed = fault verify_failed

-- The loop of `~TimeoutALock()`.
unfoldable pub destroy : List TimedReq → Alarm → Outcome (Alarm × List Call)
unfolding dismiss
destroy [] alarm = done (alarm, [])
destroy (r ∷ rs) alarm =
    dismiss r.status r.id (destroy rs alarm) (destroy rs (remove r.alarm_id alarm).0)
