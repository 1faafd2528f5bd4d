-- ===== src/ThreadPool/Joins.antt =====
-- What the destructor of a ThreadPool does: every thread ends, and every job is run once.
use mathlib.Core.Path.{subst}
use s_rpc.Base.{
  ℕ, zero, suc, ◌+◌, ◌*◌, ◌≤◌, ◌<◌, ◌≡◌, ◌≢◌, refl, sym, ◌∙◌, List, [], ◌∷◌, true, Option, some,
  none, arith, length, get_or, set, lt→ltb, ◌==◌, ==_iff, Bool-cases, inl, inr, All,
  get_or-set_self, get_or-set_other, length-set,
}
use s_rpc.Base.Outcome.{
  Succeeds, Succeeds-bind, Succeeds-After, After, After-bind, After-map, After-both,
}
use s_rpc.ThreadPool.{ThreadPool, push, push_to, Worker, turn, left_over}
use s_rpc.ThreadPool.Kept.{weigh, weigh-append, turn-Keeps, push_to-pill}
use s_rpc.ThreadPool.Ends.{HasPill}
use s_rpc.ThreadPool.Once.{System, new_system, Run, every_job_once}
use s_rpc.ThreadPool.Joined.{
  pill_all, take_turn, run_threads, run_rounds, destroy, IsFair, turns_left, Doomed, Placed, Ended,
  alive_sum,
}
use s_rpc.ThreadPool.Destroyed.{Doomed-Ended}

module _ {J : Type 0} where
  push-HasPill : (q : List (Option J)) → HasPill (push none q)
  unfolding push
  push-HasPill [] = tt
  push-HasPill (none ∷ q) = tt
  push-HasPill (some j ∷ q) = push-HasPill q

  -- The first `m` queues have pills.
  abbrev Pilled : ℕ → ThreadPool J → ThreadPool J → Type 0
  Pilled m p q =
      (length q.queues ≡ length p.queues) × ((i : ℕ) → i < m → HasPill (get_or q.queues i []))

  pill-Pilled :
      (m : ℕ) (p q : ThreadPool J)
      → m < length p.queues
      → Pilled m p q
      → Succeeds (Pilled (suc m) p) (push_to m none q)
  unfolding push_to
  pill-Pilled m p q lt (n, pills) = rw (lt→ltb m (length q.queues) (omega (arith, lt, n))) (
    length-set q.queues m (push none (get_or q.queues m [])) ∙ n,
    λ i below. elim (Bool-cases (i == m)) [
      | inl same ↦
          let here = (==_iff i m).0 same in
          subst (λ k. HasPill (get_or (set q.queues m (push none (get_or q.queues m []))) k []))
            (sym here)
            (subst HasPill
              (sym (
                get_or-set_self q.queues m (push none (get_or q.queues m [])) []
                  (omega (arith, lt, n))))
              (push-HasPill (get_or q.queues m [])))
      | inr apart ↦
          let other : i ≢ m = λ e. ground (arith, e, apart) in
          subst HasPill
            (sym (get_or-set_other q.queues m i (push none (get_or q.queues m [])) [] other))
            (pills i (ground (arith, below, other, apart)))
    ],
  )

  pill_all-Pilled :
      (m : ℕ) (p : ThreadPool J) → m ≤ length p.queues → Succeeds (Pilled m p) (pill_all m p)
  unfolding pill_all
  pill_all-Pilled zero p le = (refl, λ i below. absurd (omega (arith, below)))
  pill_all-Pilled (suc m) p le =
      Succeeds-bind (Pilled m p) (Pilled (suc m) p) (pill_all m p) _
        (pill_all-Pilled m p (omega (arith, le))) (λ q h. pill-Pilled m p q (omega (arith, le)) h)

  module _ (w : J → ℕ) where
    abbrev SameJobs : ThreadPool J → ThreadPool J → Type 0
    SameJobs p q = weigh w (left_over q.queues) ≡ weigh w (left_over p.queues)

    pill_all-SameJobs : (m : ℕ) (p : ThreadPool J) → After (SameJobs p) (pill_all m p)
    unfolding pill_all
    pill_all-SameJobs zero p = refl
    pill_all-SameJobs (suc m) p =
        After-bind (SameJobs p) (SameJobs p) (pill_all m p) _ (pill_all-SameJobs m p) (λ q e.
          After-map (SameJobs q) (SameJobs p) (push_to m none q) (push_to-pill w m q)
            (λ r f. f ∙ e))

    -- What was run and what waits are as much together as before.
    abbrev SameTotal : System J → System J → Type 0
    SameTotal s t =
        weigh w t.ran + weigh w (left_over t.pool.queues)
        ≡ weigh w s.ran + weigh w (left_over s.pool.queues)

    take_turn-SameTotal :
        (k : ℕ) (s : System J) (o : Option Worker) → After (λ r. SameTotal s r.1) (take_turn k s o)
    unfolding take_turn
    take_turn-SameTotal k s none = refl
    take_turn-SameTotal k s (some v) =
        After-bind _ (λ r. SameTotal s r.1) (turn v s.pool) _ (turn-Keeps w v s.pool)
          (λ t e. omega (arith, e, weigh-append w s.ran t.ran))

    run_threads-SameTotal :
        (ks : List ℕ) (s : System J) → After (λ r. SameTotal s r.1) (run_threads ks s)
    unfolding run_threads
    run_threads-SameTotal [] s = refl
    run_threads-SameTotal (k ∷ ks) s =
        After-bind _ (λ r. SameTotal s r.1) (take_turn k s (get_or s.threads k none)) _
          (take_turn-SameTotal k s (get_or s.threads k none))
          (λ r e.
            After-bind _ (λ q. SameTotal s q.1) (run_threads ks r.1) _
              (run_threads-SameTotal ks r.1) (λ q f. f ∙ e))

    run_rounds-SameTotal :
        (rounds : List (List ℕ)) (s : System J) → After (SameTotal s) (run_rounds rounds s)
    unfolding run_rounds
    run_rounds-SameTotal [] s = refl
    run_rounds-SameTotal (ks ∷ rounds) s =
        After-bind _ (SameTotal s) (run_threads ks s) _ (run_threads-SameTotal ks s) (λ r e.
          After-map _ (SameTotal s) (run_rounds rounds r.1) (run_rounds-SameTotal rounds r.1)
            (λ t f. f ∙ e))

  Placed-Doomed :
      (s : System J) (p : ThreadPool J)
      → Placed s
      → Pilled (length s.pool.queues) s.pool p
      → Doomed (record s { pool = p })
  Placed-Doomed s p placed (n, pills) k v e =
      let (id, lt, order, inside) = placed k v e in
      (
        id,
        record {
          placed = omega (arith, lt, n, id);
          ordered = order ∙ sym n;
          inside = subst (λ m. All (λ i. i < m) v.steal_order) (sym n) inside;
          pill = subst (λ i. HasPill (get_or p.queues i [])) (sym id) (pills k lt);
        },
      )

-- From any state that the steps of a new ThreadPool lead to, with each thread at its own queue and
-- with an order of stealing over the queues: the destructor puts its death pills and returns. In
-- rounds that come to every thread, each as often as one likes and in any order, as many as the
-- jobs that wait times n + 5 and the stages that are left, no thread is held up for good and every
-- one ends, and the jobs that the threads and then the destructor have run are, under any weight
-- of the jobs, as many as run_async accepted.
pub destroy_ends :
    {J : Type 0} (n : ℕ) (threads : List (Option Worker)) (s : System J)
    → Run (new_system n threads) s
    → Placed s
    → (rounds : List (List ℕ)) → All (IsFair (length s.threads)) rounds
    → turns_left s ≤ length rounds
    → (w : J → ℕ)
    → Succeeds (λ t. Ended t × (weigh w t.ran ≡ weigh w s.accepted)) (destroy rounds s)
unfolding destroy
destroy_ends n threads s run placed rounds fair enough w =
    let stopped = record s.pool { should_stop = true } in
    Succeeds-bind _ _ (pill_all (length s.pool.queues) stopped) _
      (Succeeds-After _ _ _ (pill_all-Pilled (length s.pool.queues) stopped (omega arith)) (
        After-both _ _ _ (pill_all-SameJobs w (length s.pool.queues) stopped)
          (pill_all-SameJobs (λ _. 1) (length s.pool.queues) stopped)))
      (λ p h.
        Succeeds-bind _ _ (run_rounds rounds (record s { pool = p })) _
          (Succeeds-After Ended _ _
            (Doomed-Ended rounds (record s { pool = p }) (Placed-Doomed s p placed h.0) fair
              (subst
                (λ m.
                  weigh (λ _. 1) (left_over p.queues) * (m + 5) + alive_sum m s.threads
                  ≤ length rounds)
                (sym h.0.0)
                (subst
                  (λ m.
                    m * (length s.pool.queues + 5) + alive_sum (length s.pool.queues) s.threads
                    ≤ length rounds)
                  (sym h.1.1) enough)))
            (run_rounds-SameTotal w rounds (record s { pool = p })))
          (λ t g. (
            g.0,
            omega (
              arith,
              g.1,
              h.1.0,
              every_job_once n threads s run w,
              weigh-append w s.ran (left_over s.pool.queues),
              weigh-append w t.ran (left_over t.pool.queues),
            ),
          )))
