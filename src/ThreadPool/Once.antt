-- ===== src/ThreadPool/Once.antt =====
-- No job of a ThreadPool is lost or run twice.
use s_rpc.Base.{
  ℕ, ◌+◌, ◌≡◌, ◌∙◌, List, [], ◌∷◌, ◌++◌, Option, some, none, arith, get_or, set, true, ◌==◌,
  if◌then◌else◌,
}
use mathlib.Core.Path.{subst}
use s_rpc.Base.Outcome.{done, After}
use s_rpc.ThreadPool.{ThreadPool, new_pool, push_to, run_async, Worker, Turn, turn, left_over}
use s_rpc.ThreadPool.Kept.{
  weigh, weigh-append, turn-Keeps, run_async-Queues, push_to-pill, new_queues-empty,
}

-- A pool with its threads, the jobs that `run_async` has accepted and those that were run.
pub record System (J : Type 0) : Type 0 where
  pub threads : List (Option Worker)
  pub pool : ThreadPool J
  pub accepted : List J
  pub ran : List J

abbrev pub accept : {J : Type 0} → J → ℕ → List J → List J
accept f e js = if e == 0 then js ++ (f ∷ []) else js

abbrev pub new_system : {J : Type 0} → ℕ → List (Option Worker) → System J
new_system n threads = record { threads = threads; pool = new_pool n; accepted = []; ran = [] }

-- A call of `run_async`, a turn of a thread, and what the destructor does before it waits for the
-- threads: it sets `should_stop_` and puts a death pill into each queue.
pub data Step {J : Type 0} : System J → System J → Type 0 where
  calls :
      (s : System J) (f : J) (e : ℕ) (p : ThreadPool J)
      → run_async f s.pool ≡ done (e, p)
      → Step s (record s { pool = p; accepted = accept f e s.accepted })
  turns :
      (s : System J) (k : ℕ) (v : Worker) (t : Turn J)
      → get_or s.threads k none ≡ some v
      → turn v s.pool ≡ done t
      → Step s
          (record s { threads = set s.threads k t.worker; pool = t.pool; ran = s.ran ++ t.ran })
  stops : (s : System J) → Step s (record s { pool = record s.pool { should_stop = true } })
  pills :
      (s : System J) (i : ℕ) (p : ThreadPool J)
      → push_to i none s.pool ≡ done p
      → Step s (record s { pool = p })

pub data Run {J : Type 0} : System J → System J → Type 0 where
  stop : (s : System J) → Run s s
  more : (s t u : System J) → Step s t → Run t u → Run s u

module _ {J : Type 0} (w : J → ℕ) where
  abbrev Balanced : System J → Type 0
  Balanced s = weigh w s.ran + weigh w (left_over s.pool.queues) ≡ weigh w s.accepted

  weigh-accept :
      (f : J) (e : ℕ) (js : List J)
      → weigh w (accept f e js) ≡ weigh w js + (if e == 0 then w f else 0)
  weigh-accept f e js =
      let h : weigh w (js ++ (f ∷ [])) ≡ weigh w js + weigh w (f ∷ []) =
        weigh-append w js (f ∷ []) in
      ground arith

  Step-Balanced : (s t : System J) → Step s t → Balanced s → Balanced t
  Step-Balanced _ _ (calls s f e p h) b =
      let q = subst (After _) h (run_async-Queues w f s.pool) in
      omega (arith, b, q, weigh-accept f e s.accepted)
  Step-Balanced _ _ (turns s k v r at h) b =
      let q = subst (After _) h (turn-Keeps w v s.pool) in
      omega (arith, b, q, weigh-append w s.ran r.ran)
  Step-Balanced _ _ (stops s) b = b
  Step-Balanced _ _ (pills s i p h) b =
      let q = subst (After _) h (push_to-pill w i s.pool) in omega (arith, b, q)

  Run-Balanced : (s t : System J) → Run s t → Balanced s → Balanced t
  Run-Balanced _ _ (stop s) b = b
  Run-Balanced _ _ (more s t u step run) b = Run-Balanced t u run (Step-Balanced s t step b)

-- From a new ThreadPool of n queues on, after any calls of run_async, turns of its threads (each
-- of any place, stealing order and stage), settings of should_stop_ and death pills, in any order:
-- the jobs that the threads have run and those that the destructor's last loop then finds in the
-- queues are together, under any weight of the jobs, as many as those that run_async has accepted,
-- so that none is lost and none is run twice.
pub every_job_once :
    {J : Type 0} (n : ℕ) (threads : List (Option Worker)) (s : System J)
    → Run (new_system n threads) s
    → (w : J → ℕ) → weigh w (s.ran ++ left_over s.pool.queues) ≡ weigh w s.accepted
unfolding new_pool
every_job_once n threads s run w =
    let b = Run-Balanced w (new_system n threads) s run (omega (arith, new_queues-empty w n)) in
    weigh-append w s.ran (left_over s.pool.queues) ∙ b
