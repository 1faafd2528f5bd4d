-- ===== src/ThreadPool/Kept.antt =====
-- What the operations of a ThreadPool do with its jobs.
use s_rpc.Base.{
  ℕ, zero, suc, ◌+◌, ◌%◌, ◌^◌, ◌<◌, ◌≡◌, refl, sym, ap, List, [], ◌∷◌, ◌++◌, Option, some, none,
  arith, length, get_or, set, ltb, ltb→lt, ◌==◌, if◌then◌else◌,
}
use s_rpc.Base.Outcome.{After, After-then, After-bind, After-if, in_bounds}
use s_rpc.ThreadPool.{
  ThreadPool, new_queues, push, try_pop, try_pop_but_ignore, is_null, push_to, queue_id, run_async,
  Stage, stage_0, stage_1, stage_2, stage_3, stage_4, Worker, Turn, run_job, answered, try_own,
  try_steal, pop_own, turn_at, turn, jobs, left_over,
}

-- The sum of what the jobs of a list weigh. Lists on which every weight agrees hold the same jobs
-- as often.
abbrev pub weigh : {J : Type 0} → (J → ℕ) → List J → ℕ
weigh w [] = 0
weigh w (j ∷ js) = w j + weigh w js

module _ {J : Type 0} (w : J → ℕ) where
  pub weigh-append : (xs ys : List J) → weigh w (xs ++ ys) ≡ weigh w xs + weigh w ys
  weigh-append [] ys = omega arith
  weigh-append (x ∷ xs) ys = omega (arith, weigh-append xs ys)

  weigh_pill : (q : List (Option J)) → weigh w (jobs (push none q)) ≡ weigh w (jobs q)
  unfolding push jobs
  weigh_pill [] = refl
  weigh_pill (none ∷ q) = weigh_pill q
  weigh_pill (some j ∷ q) = ap (λ n. w j + n) (weigh_pill q)

  weigh_job :
      (f : J) (q : List (Option J)) → weigh w (jobs (push (some f) q)) ≡ weigh w (jobs q) + w f
  unfolding push jobs
  weigh_job f [] = omega arith
  weigh_job f (none ∷ q) = weigh_job f q
  weigh_job f (some j ∷ q) = omega (arith, weigh_job f q)

  -- One queue of the array is changed.
  weigh-set :
      (qs : List (List (Option J))) (i : ℕ) (q : List (Option J))
      → i < length qs
      → weigh w (left_over (set qs i q)) + weigh w (jobs (get_or qs i []))
        ≡ weigh w (left_over qs) + weigh w (jobs q)
  unfolding left_over
  weigh-set [] i q lt = omega (arith, lt)
  weigh-set (r ∷ qs) zero q lt =
      omega (arith, weigh-append (jobs q) (left_over qs), weigh-append (jobs r) (left_over qs))
  weigh-set (r ∷ qs) (suc i) q lt = omega (
    arith,
    weigh-append (jobs r) (left_over (set qs i q)),
    weigh-append (jobs r) (left_over qs),
    weigh-set qs i q (omega (arith, lt)),
  )

  -- A turn neither loses nor repeats a job.
  abbrev Keeps : ThreadPool J → Turn J → Type 0
  Keeps p t = weigh w t.ran + weigh w (left_over t.pool.queues) ≡ weigh w (left_over p.queues)

  -- What a queue answers is its first element, and the others.
  abbrev Popped : List (Option J) → Option (Option J × List (Option J)) → Type 0
  Popped q none = Unit {0}
  Popped q (some (o, rest)) = weigh w (jobs q) ≡ weigh w (jobs (o ∷ rest))

  try_pop-Popped : (q : List (Option J)) → Popped q (try_pop q)
  unfolding try_pop
  try_pop-Popped [] = tt
  try_pop-Popped (o ∷ q) = refl

  try_steal-Popped : (q : List (Option J)) → Popped q (try_pop_but_ignore is_null q)
  unfolding try_pop_but_ignore
  try_steal-Popped [] = tt
  try_steal-Popped (none ∷ q) = tt
  try_steal-Popped (some j ∷ q) = refl

  answered-Keeps :
      (next : Stage) (v : Worker) (p : ThreadPool J) (i : ℕ)
      (r : Option (Option J × List (Option J)))
      → i < length p.queues
      → Popped (get_or p.queues i []) r
      → Keeps p (answered next v p i r)
  unfolding answered run_job jobs
  answered-Keeps next v p i none lt e = omega arith
  answered-Keeps next v p i (some (none, q)) lt e = omega (arith, weigh-set p.queues i q lt, e)
  answered-Keeps next v p i (some (some j, q)) lt e = omega (arith, weigh-set p.queues i q lt, e)

  idle-Keeps :
      (next : Stage) (v : Worker) (p : ThreadPool J) (i : ℕ) → Keeps p (answered next v p i none)
  unfolding answered
  idle-Keeps next v p i = omega arith

  try_own-Keeps :
      (next : Stage) (v : Worker) (p : ThreadPool J) → After (Keeps p) (try_own next v p)
  unfolding try_own
  try_own-Keeps next v p =
      After-if (Keeps p) (ltb v.id_in_pool (length p.queues)) _ _
        (λ b.
          answered-Keeps next v p v.id_in_pool (try_pop (get_or p.queues v.id_in_pool []))
            (ltb→lt v.id_in_pool (length p.queues) b)
            (try_pop-Popped (get_or p.queues v.id_in_pool [])))
        (λ b. tt)

  try_steal-Keeps :
      (next : Stage) (i : ℕ) (v : Worker) (p : ThreadPool J)
      → After (Keeps p) (try_steal next i v p)
  unfolding try_steal
  try_steal-Keeps next i v p =
      After-if (Keeps p) (i == v.id_in_pool) _ _ (λ b. idle-Keeps next v p i)
        (λ b.
          After-if (Keeps p) (ltb i (length p.queues)) _ _
            (λ c.
              answered-Keeps next v p i (try_pop_but_ignore is_null (get_or p.queues i []))
                (ltb→lt i (length p.queues) c) (try_steal-Popped (get_or p.queues i [])))
            (λ c. tt))

  pop_own-Keeps :
      (v : Worker) (p : ThreadPool J) (q : List (Option J))
      → v.id_in_pool < length p.queues
      → q ≡ get_or p.queues v.id_in_pool []
      → After (Keeps p) (pop_own v p q)
  unfolding pop_own
  pop_own-Keeps v p [] lt e = tt
  pop_own-Keeps v p (o ∷ q) lt e =
      answered-Keeps stage_0 v p v.id_in_pool (some (o, q)) lt (ap (λ r. weigh w (jobs r)) (sym e))

  turn_at-Keeps :
      (stage : Stage) (v : Worker) (p : ThreadPool J) → After (Keeps p) (turn_at stage v p)
  unfolding turn_at
  turn_at-Keeps stage_0 v p = try_own-Keeps stage_1 v p
  turn_at-Keeps stage_1 v p = idle-Keeps stage_2 v p 0
  turn_at-Keeps stage_2 v p = try_own-Keeps (stage_3 0) v p
  turn_at-Keeps (stage_3 i) v p =
      After-if (Keeps p) (ltb i (length p.queues)) _ _
        (λ b.
          After-then (Keeps p) (in_bounds (ltb i (length v.steal_order)))
            (λ _. try_steal (stage_3 (suc i)) (get_or v.steal_order i 0) v p)
            (λ _. try_steal-Keeps (stage_3 (suc i)) (get_or v.steal_order i 0) v p))
        (λ b. idle-Keeps stage_4 v p 0)
  turn_at-Keeps stage_4 v p =
      After-if (Keeps p) (ltb v.id_in_pool (length p.queues)) _ _
        (λ b.
          pop_own-Keeps v p (get_or p.queues v.id_in_pool [])
            (ltb→lt v.id_in_pool (length p.queues) b) refl)
        (λ b. tt)

  pub turn-Keeps : (v : Worker) (p : ThreadPool J) → After (Keeps p) (turn v p)
  unfolding turn
  turn-Keeps v p = turn_at-Keeps v.stage v p

  push_to-job :
      (i : ℕ) (f : J) (p : ThreadPool J)
      → After
          (λ q. weigh w (left_over q.queues) ≡ weigh w (left_over p.queues) + w f)
          (push_to i (some f) p)
  unfolding push_to
  push_to-job i f p =
      After-if (λ q. weigh w (left_over q.queues) ≡ weigh w (left_over p.queues) + w f)
        (ltb i (length p.queues)) _ _
        (λ b. omega (
          arith,
          weigh-set p.queues i (push (some f) (get_or p.queues i []))
              (ltb→lt i (length p.queues) b),
          weigh_job f (get_or p.queues i []),
        ))
        (λ b. tt)

  pub push_to-pill :
      (i : ℕ) (p : ThreadPool J)
      → After (λ q. weigh w (left_over q.queues) ≡ weigh w (left_over p.queues)) (push_to i none p)
  unfolding push_to
  push_to-pill i p =
      After-if (λ q. weigh w (left_over q.queues) ≡ weigh w (left_over p.queues))
        (ltb i (length p.queues)) _ _
        (λ b. omega (
          arith,
          weigh-set p.queues i (push none (get_or p.queues i [])) (ltb→lt i (length p.queues) b),
          weigh_pill (get_or p.queues i []),
        ))
        (λ b. tt)

  -- A job is taken where the code is 0, and not where it is EPERM.
  abbrev pub Queues : J → ThreadPool J → ℕ × ThreadPool J → Type 0
  Queues f p (e, q) =
      weigh w (left_over q.queues) ≡ weigh w (left_over p.queues) + (if e == 0 then w f else 0)

  pub run_async-Queues : (f : J) (p : ThreadPool J) → After (Queues f p) (run_async f p)
  unfolding run_async
  run_async-Queues f p =
      After-if (Queues f p) p.should_stop _ _ (λ b. omega arith)
        (λ b. After-then (Queues f p) (queue_id p.round_robin (length p.queues)) _ (λ i.
          After-bind _ (Queues f p)
            (push_to i (some f) (record p { round_robin = (p.round_robin + 1) % 2 ^ 64 })) _
            (push_to-job i f (record p { round_robin = (p.round_robin + 1) % 2 ^ 64 })) (λ q e. e)))

  pub new_queues-empty : (n : ℕ) → weigh w (left_over (new_queues {J = J} n)) ≡ 0
  unfolding new_queues left_over jobs
  new_queues-empty zero = refl
  new_queues-empty (suc n) = new_queues-empty n
