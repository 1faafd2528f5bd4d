-- ===== src/ThreadPool.antt =====
-- ThreadPool of src/base/threading.hpp and threading.cpp: a queue for each thread, jobs dealt out
-- in turn, and threads that steal from each other's queues. A job of type J is what a call of
-- `run_async` allocates; `none` stands for nullptr, the death pill. An operation of a Queue holds
-- its mutex, so it is one step. How long a thread sleeps is left out, and a job counts as run when
-- its thread has taken it.
pub mod Kept
pub mod Ends
pub mod Joined
pub mod Destroyed
pub mod Joins
pub mod Once
use s_rpc.Base.{
  ℕ, zero, suc, ◌+◌, ◌-◌, ◌%◌, ◌^◌, List, [], ◌∷◌, ◌++◌, Bool, true, false, Option, some, none,
  length, get_or, set, ltb, ◌==◌, if◌then◌else◌,
}
use s_rpc.Base.Outcome.{
  Outcome, done, fault, overrun, blocked, division_by_zero, ◌>>=◌, ◌>>◌, in_bounds,
}

-- Queue::push
unfoldable pub push : {T : Type 0} → T → List T → List T
push e q = q ++ (e ∷ [])

-- Queue::try_pop
unfoldable pub try_pop : {T : Type 0} → List T → Option (T × List T)
try_pop [] = none
try_pop (t ∷ q) = some (t, q)

-- Queue::try_pop_but_ignore, with the test that its argument `ignore` comes to.
unfoldable pub try_pop_but_ignore : {T : Type 0} → (T → Bool) → List T → Option (T × List T)
try_pop_but_ignore ignored [] = none
try_pop_but_ignore ignored (t ∷ q) = if ignored t then none else some (t, q)

abbrev pub is_null : {J : Type 0} → Option J → Bool
is_null none = true
is_null (some j) = false

-- `round_robin` is the i64 of the Counter, modulo 2^64.
pub record ThreadPool (J : Type 0) : Type 0 where
  pub queues : List (List (Option J))
  pub should_stop : Bool
  pub round_robin : ℕ

-- The array of n queues.
unfoldable pub new_queues : {J : Type 0} → ℕ → List (List (Option J))
new_queues zero = []
new_queues (suc n) = [] ∷ new_queues n

unfoldable pub new_pool : {J : Type 0} → ℕ → ThreadPool J
new_pool n = record { queues = new_queues n; should_stop = false; round_robin = 0 }

unfoldable pub push_to : {J : Type 0} → ℕ → Option J → ThreadPool J → Outcome (ThreadPool J)
push_to i job p =
    if ltb i (length p.queues)
    then done (record p { queues = set p.queues i (push job (get_or p.queues i [])) })
    else fault overrun

-- `next_ % n_` as an index of an array, for an i64 given modulo 2^64: the remainder of a negative
-- number is negative or 0.
unfoldable pub queue_id : ℕ → ℕ → Outcome ℕ
queue_id next zero = fault division_by_zero
queue_id next (suc m) =
    if ltb next (2 ^ 63)
    then done (next % suc m)
    else if ((2 ^ 64 - next) % suc m) == 0
    then done 0
    else fault overrun

-- EPERM
abbrev pub eperm : ℕ
eperm = 1

unfoldable pub run_async : {J : Type 0} → J → ThreadPool J → Outcome (ℕ × ThreadPool J)
run_async f p = if p.should_stop then done (eperm, p) else do
  i ← queue_id p.round_robin (length p.queues)
  q ← push_to i (some f) (record p { round_robin = (p.round_robin + 1) % 2 ^ 64 })
  done (0, q)

-- The variable `stage` of `run_thread`; at stage 3 with the loop's `i`.
pub data Stage : Type 0 where
  stage_0 stage_1 stage_2 stage_4 : Stage
  stage_3 : ℕ → Stage

pub record Worker : Type 0 where
  pub id_in_pool : ℕ
  pub steal_order : List ℕ
  pub stage : Stage

-- What a turn comes to: the jobs that it ran, the thread unless it has ended, and the pool.
pub record Turn (J : Type 0) : Type 0 where
  pub ran : List J
  pub worker : Option Worker
  pub pool : ThreadPool J

unfoldable pub at_stage : Stage → Worker → Worker
at_stage stage w = record w { stage = stage }

-- What follows the switch where the stage is 0.
unfoldable pub run_job : {J : Type 0} → Worker → ThreadPool J → Option J → Turn J
run_job w p none = record { ran = []; worker = none; pool = p }
run_job w p (some j) = record { ran = j ∷ []; worker = some (at_stage stage_0 w); pool = p }

-- A queue has answered: a job of queue `i`, or none, and then the thread goes on at `next`.
unfoldable pub answered :
    {J : Type 0} → Stage → Worker → ThreadPool J → ℕ → Option (Option J × List (Option J)) → Turn J
answered next w p i none = record { ran = []; worker = some (at_stage next w); pool = p }
answered next w p i (some (job, q)) = run_job w (record p { queues = set p.queues i q }) job

-- Stages 0 and 2.
unfoldable pub try_own : {J : Type 0} → Stage → Worker → ThreadPool J → Outcome (Turn J)
try_own next w p =
    if ltb w.id_in_pool (length p.queues)
    then done (answered next w p w.id_in_pool (try_pop (get_or p.queues w.id_in_pool [])))
    else fault overrun

-- Stage 3 at queue `v`.
unfoldable pub try_steal : {J : Type 0} → Stage → ℕ → Worker → ThreadPool J → Outcome (Turn J)
try_steal next v w p =
    if v == w.id_in_pool
    then done (answered next w p v none)
    else if ltb v (length p.queues)
    then done (answered next w p v (try_pop_but_ignore is_null (get_or p.queues v [])))
    else fault overrun

-- Stage 4, of a queue `q`: Queue::pop waits while the queue is empty.
unfoldable pub pop_own : {J : Type 0} → Worker → ThreadPool J → List (Option J) → Outcome (Turn J)
pop_own w p [] = fault blocked
pop_own w p (job ∷ q) = done (answered stage_0 w p w.id_in_pool (some (job, q)))

-- One turn of the loop of `run_thread`, and at stage 3 one turn of its inner loop.
unfoldable pub turn_at : {J : Type 0} → Stage → Worker → ThreadPool J → Outcome (Turn J)
turn_at stage_0 w p = try_own stage_1 w p
turn_at stage_1 w p = done (answered stage_2 w p 0 none)
turn_at stage_2 w p = try_own (stage_3 0) w p
turn_at (stage_3 i) w p =
    if ltb i (length p.queues)
    then (in_bounds (ltb i (length w.steal_order))
        >> try_steal (stage_3 (suc i)) (get_or w.steal_order i 0) w p)
    else done (answered stage_4 w p 0 none)
turn_at stage_4 w p =
    if ltb w.id_in_pool (length p.queues)
    then pop_own w p (get_or p.queues w.id_in_pool [])
    else fault overrun

unfoldable pub turn : {J : Type 0} → Worker → ThreadPool J → Outcome (Turn J)
turn w p = turn_at w.stage w p

-- The jobs of a queue, without death pills: what the destructor's last loop runs of it.
unfoldable pub jobs : {J : Type 0} → List (Option J) → List J
jobs [] = []
jobs (none ∷ q) = jobs q
jobs (some j ∷ q) = j ∷ jobs q

-- The destructor's last loop, over the queues.
unfoldable pub left_over : {J : Type 0} → List (List (Option J)) → List J
left_over [] = []
left_over (q ∷ qs) = jobs q ++ left_over qs
