-- ===== src/ALock.antt =====
-- src/misc/alock.hpp: what the classes of asynchronous locks share. A lock request is a record; its
-- callbacks are named by its id, and the calls that an operation makes are returned in order. A
-- callback does not call back into the same lock while the operation runs.
pub mod WaitDie
pub mod Timeout
pub mod WoundDie
pub mod Group
use s_rpc.Base.{
  ℕ, zero, suc, ◌+◌, ◌≡◌, Bool, true, false, ◌&&◌, List, [], ◌∷◌, ◌++◌, ◌==◌, if◌then◌else◌, length,
  Option, none, some,
}
use s_rpc.Base.Int.{ℤ}
use s_rpc.Base.Outcome.{Outcome, done, fault, below_zero, ◌>>=◌, ◌>>◌, verify}

-- `ALock::type_t`
pub data LockType : Type 0 where
  rlock wlock : LockType

-- `ALock::status_t`
pub data LockStatus : Type 0 where
  free wlocked rlocked : LockStatus

-- `lock_req_t::lock_req_status_t`
pub data ReqStatus : Type 0 where
  wait lock : ReqStatus

-- `lock_req_t`
pub record Req : Type 0 where
  pub id : ℕ
  pub priority : ℤ
  pub type : LockType
  pub status : ReqStatus

-- A callback that is made: `yes_callback(id)`, or the `no_callback` or the `wound_callback` of the
-- request `id`.
pub data Call : Type 0 where
  granted refused wounded : ℕ → Call

abbrev pub is_read : LockType → Bool
is_read rlock = true
is_read wlock = false

abbrev pub is_write : LockType → Bool
is_write rlock = false
is_write wlock = true

abbrev pub is_wait : ReqStatus → Bool
is_wait wait = true
is_wait lock = false

abbrev pub is_free : LockStatus → Bool
is_free free = true
is_free wlocked = false
is_free rlocked = false

abbrev pub is_wlocked : LockStatus → Bool
is_wlocked free = false
is_wlocked wlocked = true
is_wlocked rlocked = false

abbrev pub is_rlocked : LockStatus → Bool
is_rlocked free = false
is_rlocked wlocked = false
is_rlocked rlocked = true

-- `status_` and `n_rlock_`.
pub record Lock : Type 0 where
  pub status : LockStatus
  pub n_rlock : ℕ

-- `n--` on a counter.
unfoldable pub decrement : ℕ → Outcome ℕ
decrement zero = fault below_zero
decrement (suc n) = done n

-- `write_acquire(lock_req_t&)`: the lock, the request and the call.
unfoldable pub write_acquire : Lock → Req → Outcome (Lock × Req × List Call)
write_acquire l r = do
  verify (is_write r.type && is_wait r.status)
  done (record l { status = wlocked }, record r { status = lock }, granted r.id ∷ [])

-- `read_acquire(lock_req_t&)`
unfoldable pub read_acquire : Lock → Req → Outcome (Lock × Req × List Call)
read_acquire l r = do
  verify (is_read r.type && is_wait r.status)
  let status = if l.n_rlock == 0 then rlocked else l.status
  done (
    record { status = status; n_rlock = l.n_rlock + 1 },
    record r { status = lock },
    granted r.id ∷ [],
  )

-- The loop of `read_acquire(const std::vector<lock_req_t*>&)` over the requests that it is given.
unfoldable pub grant_all : List Req → Outcome (List Req × List Call)
grant_all [] = done ([], [])
grant_all (r ∷ rs) = do
  verify (is_read r.type && is_wait r.status)
  (qs, calls) ← grant_all rs
  done (record r { status = lock } ∷ qs, granted r.id ∷ calls)

unfoldable pub read_acquire_all : Lock → List Req → Outcome (Lock × List Req × List Call)
unfolding grant_all
read_acquire_all l [] = done (l, [], [])
read_acquire_all l (r ∷ rs) = do
  let status = if l.n_rlock == 0 then rlocked else l.status
  (qs, calls) ← grant_all (r ∷ rs)
  done (record { status = status; n_rlock = l.n_rlock + length (r ∷ rs) }, qs, calls)

-- The requests up to the next write request, and the others.
unfoldable pub reads_ahead : List Req → List Req × List Req
reads_ahead [] = ([], [])
reads_ahead (r ∷ rs) =
    let (reads, rest) = reads_ahead rs in if is_read r.type then (r ∷ reads, rest) else ([], r ∷ rs)

-- The request with an id: what stands before it, itself, and what stands behind it.
unfoldable pub find : ℕ → List Req → Option (List Req × Req × List Req)
find id [] = none
find id (r ∷ rs) =
    if r.id == id
    then some ([], r, rs)
    else elim (find id rs) [ none ↦ none | some (before, it, after) ↦ some (r ∷ before, it, after) ]

-- `n_w_before_this`
unfoldable pub count_type : (LockType → Bool) → List Req → ℕ
count_type p [] = 0
count_type p (r ∷ rs) = (if p r.type then 1 else 0) + count_type p rs
