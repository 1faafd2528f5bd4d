-- ===== src/Tests/Pools.antt =====
-- A ThreadPool of two threads at work.
use mathlib.Core.Path.{subst}
use mathlib.Core.Option.{none-ne-some, some-injective}
use s_rpc.Base.{
  ℕ, zero, suc, arith, ◌<◌, length, All, ◌≡◌, refl, map, List, [], ◌∷◌, ◌++◌, Option, some, false,
}
use s_rpc.Base.Outcome.{done, Succeeds}
use s_rpc.ThreadPool.{
  ThreadPool, new_pool, new_queues, push, try_pop_but_ignore, push_to, queue_id, run_async, Worker,
  stage_0, stage_3, at_stage, run_job, answered, try_steal, turn_at, turn, jobs, left_over,
}
use s_rpc.ThreadPool.Kept.{weigh}
use s_rpc.ThreadPool.Joined.{Placed, IsFair, Ended, destroy}
use s_rpc.ThreadPool.Joins.{destroy_ends}
use s_rpc.ThreadPool.Once.{System, new_system, Run, stop, more, calls, turns, every_job_once}

abbrev first : Worker
first = record { id_in_pool = 0; steal_order = 1 ∷ 0 ∷ []; stage = stage_0 }

-- A thread that has found nothing in its own queue.
abbrev thief : Worker
thief = record { id_in_pool = 1; steal_order = 1 ∷ 0 ∷ []; stage = stage_3 1 }

abbrev threads : List (Option Worker)
threads = some first ∷ some thief ∷ []

abbrev pool_of : List ℕ → ℕ → ThreadPool ℕ
pool_of js n = record { queues = map some js ∷ [] ∷ []; should_stop = false; round_robin = n }

-- One job has come in.
abbrev one_job : System ℕ
one_job = record { threads = threads; pool = pool_of (7 ∷ []) 1; accepted = 7 ∷ []; ran = [] }

-- The second thread has stolen it.
abbrev stolen : System ℕ
stolen = record {
  threads = some first ∷ some (at_stage stage_0 thief) ∷ [];
  pool = pool_of [] 1;
  accepted = 7 ∷ [];
  ran = 7 ∷ [];
}

job_comes : run_async 7 (new_pool 2) ≡ done (0, pool_of (7 ∷ []) 1)
unfolding run_async new_pool new_queues queue_id push_to push
job_comes = refl

job_goes :
    turn thief (pool_of (7 ∷ []) 1)
    ≡ done (record { ran = 7 ∷ []; worker = some (at_stage stage_0 thief); pool = pool_of [] 1 })
unfolding turn turn_at try_steal try_pop_but_ignore answered run_job
job_goes = refl

stealing : Run (new_system 2 threads) stolen
stealing =
    more (new_system 2 threads) one_job stolen
      (calls (new_system 2 threads) 7 0 (pool_of (7 ∷ []) 1) job_comes)
      (more one_job stolen stolen
        (turns one_job 1 thief
          (record { ran = 7 ∷ []; worker = some (at_stage stage_0 thief); pool = pool_of [] 1 })
          refl job_goes)
        (stop stolen))

every_job_once_example :
    weigh (λ (j : ℕ). j) (stolen.ran ++ left_over stolen.pool.queues)
    ≡ weigh (λ (j : ℕ). j) stolen.accepted
every_job_once_example = every_job_once 2 threads stolen stealing (λ j. j)

-- The destructor comes while that job still waits.
one_job-Placed : Placed one_job
one_job-Placed zero v e =
    subst Place (some-injective first v e) (refl, omega arith, refl, omega arith)
  where
    Place : Worker → Type 0
    Place v =
        (v.id_in_pool ≡ 0)
        × (0 < length one_job.pool.queues)
        × (length v.steal_order ≡ length one_job.pool.queues)
        × All (λ i. i < length one_job.pool.queues) v.steal_order
one_job-Placed (suc zero) v e =
    subst Place (some-injective thief v e) (refl, omega arith, refl, omega arith)
  where
    Place : Worker → Type 0
    Place v =
        (v.id_in_pool ≡ 1)
        × (1 < length one_job.pool.queues)
        × (length v.steal_order ≡ length one_job.pool.queues)
        × All (λ i. i < length one_job.pool.queues) v.steal_order
one_job-Placed (suc (suc k)) v e = absurd (none-ne-some v e)

abbrev both : List ℕ
both = 0 ∷ 1 ∷ []

both-IsFair : IsFair 2 both
both-IsFair k lt = ground arith

repeat : ℕ → List (List ℕ)
repeat zero = []
repeat (suc n) = both ∷ repeat n

repeat-IsFair : (n : ℕ) → All (IsFair 2) (repeat n)
unfolding repeat
repeat-IsFair zero = tt
repeat-IsFair (suc n) = (both-IsFair, repeat-IsFair n)

destroy_ends_example :
    Succeeds
      (λ t. Ended t × (weigh (λ (j : ℕ). j) t.ran ≡ weigh (λ (j : ℕ). j) one_job.accepted))
      (destroy (repeat 17) one_job)
unfolding repeat left_over jobs
destroy_ends_example =
    destroy_ends 2 threads one_job
      (more (new_system 2 threads) one_job one_job
        (calls (new_system 2 threads) 7 0 (pool_of (7 ∷ []) 1) job_comes) (stop one_job))
      one_job-Placed (repeat 17) (repeat-IsFair 17) (omega arith) (λ j. j)
