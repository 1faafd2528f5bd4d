-- ===== src/ThreadPool/Ends.antt =====
-- A thread of a ThreadPool with a death pill in its queue: it is never held up, and each of its turns
-- brings it nearer to its end.
use mathlib.Core.Path.{subst}
use s_rpc.Base.{
  ℕ, suc, ◌+◌, ◌-◌, ◌*◌, ◌<◌, ◌≡◌, ◌≢◌, refl, sym, ◌∙◌, List, [], ◌∷◌, Option, some, none, arith,
  length, get_or, set, ltb, ltb→lt, lt→ltb, ◌==◌, ==_iff, Bool-cases, inl, inr, All,
  get_or-set_self, get_or-set_other, All-get_or, length-set,
}
use s_rpc.Base.Outcome.{Succeeds, Succeeds-if}
use s_rpc.ThreadPool.{
  ThreadPool, try_pop, try_pop_but_ignore, is_null, Stage, stage_0, stage_1, stage_2, stage_3,
  stage_4, Worker, Turn, at_stage, run_job, answered, try_own, try_steal, pop_own, turn_at, turn,
}
use s_rpc.ThreadPool.Kept.{weigh}

abbrev pub HasPill : {J : Type 0} → List (Option J) → Type 0
HasPill [] = ⊥
HasPill (none ∷ q) = Unit {0}
HasPill (some j ∷ q) = HasPill q

-- How far the stage is from stage 4, in a pool of n queues.
abbrev pub stages_left : ℕ → Stage → ℕ
stages_left n stage_0 = n + 4
stages_left n stage_1 = n + 3
stages_left n stage_2 = n + 2
stages_left n (stage_3 i) = 1 + (n - i)
stages_left n stage_4 = 0

-- The place of a thread in its pool: it has a queue of its own, in which a pill waits, and steals from
-- queues that are there.
pub record Fits {J : Type 0} (p : ThreadPool J) (v : Worker) : Type 0 where
  pub placed : v.id_in_pool < length p.queues
  pub ordered : length v.steal_order ≡ length p.queues
  pub inside : All (λ i. i < length p.queues) v.steal_order
  pub pill : HasPill (get_or p.queues v.id_in_pool [])

module _ {J : Type 0} (p : ThreadPool J) (v : Worker) where
  -- A turn that leaves the thread at work has run a job or come nearer to stage 4.
  abbrev pub Nearer : ℕ → Option Worker → Type 0
  Nearer ran none = Unit {0}
  Nearer ran (some v') =
      (v'.id_in_pool ≡ v.id_in_pool)
      × (v'.steal_order ≡ v.steal_order)
      × (stages_left (length p.queues) v'.stage
          < stages_left (length p.queues) v.stage + ran * (length p.queues + 5))

  -- The pills that a turn leaves: all but its own, where it ends.
  abbrev pub Leaves : Turn J → Option Worker → Type 0
  Leaves t none =
      (i : ℕ)
      → i ≢ v.id_in_pool
      → HasPill (get_or p.queues i [])
      → HasPill (get_or t.pool.queues i [])
  Leaves t (some v') =
      (i : ℕ) → HasPill (get_or p.queues i []) → HasPill (get_or t.pool.queues i [])

  abbrev pub Ends : Turn J → Type 0
  Ends t =
      (length t.pool.queues ≡ length p.queues)
      × Nearer (weigh (λ _. 1) t.ran) t.worker
      × Leaves t t.worker

  abbrev Follows : Stage → Type 0
  Follows next = stages_left (length p.queues) next < stages_left (length p.queues) v.stage

  -- What a queue may answer: its first job, the pill of the thread itself, or nothing, if the stage
  -- that follows then is nearer to stage 4.
  abbrev Fetched : Stage → ℕ → Option (Option J × List (Option J)) → Type 0
  Fetched next i none = Follows next
  Fetched next i (some (none, q)) = i ≡ v.id_in_pool
  Fetched next i (some (some j, q)) = get_or p.queues i [] ≡ some j ∷ q

  HasPill-set :
      (i : ℕ) (j : J) (q : List (Option J))
      → i < length p.queues
      → get_or p.queues i [] ≡ some j ∷ q
      → (k : ℕ) → HasPill (get_or p.queues k [])
      → HasPill (get_or (set p.queues i q) k [])
  HasPill-set i j q lt e k pill = elim (Bool-cases (k == i)) [
    | inl same ↦
        let at : k ≡ i = (==_iff k i).0 same in
        let front : HasPill (get_or p.queues i []) =
          subst (λ n. HasPill (get_or p.queues n [])) at pill in
        let rest : HasPill q = subst HasPill e front in
        subst (λ n. HasPill (get_or (set p.queues i q) n [])) (sym at)
          (subst HasPill (sym (get_or-set_self p.queues i q [] lt)) rest)
    | inr apart ↦
        subst HasPill (sym (get_or-set_other p.queues i k q [] (λ at. ground (arith, at, apart))))
          pill
  ]

  answered-Ends :
      (next : Stage) (i : ℕ) (r : Option (Option J × List (Option J)))
      → i < length p.queues
      → Fetched next i r
      → Ends (answered next v p i r)
  unfolding answered run_job at_stage
  answered-Ends next i none lt near = (refl, (refl, refl, omega (arith, near)), λ k pill. pill)
  answered-Ends next i (some (none, q)) lt f = (
    length-set p.queues i q,
    tt,
    λ k other pill.
        subst HasPill (sym (get_or-set_other p.queues i k q [] (λ e. other (e ∙ f)))) pill,
  )
  answered-Ends next i (some (some j, q)) lt f =
      (length-set p.queues i q, (refl, refl, omega arith), HasPill-set i j q lt f)

  idle-Ends : (next : Stage) (i : ℕ) → Follows next → Ends (answered next v p i none)
  unfolding answered at_stage
  idle-Ends next i near = (refl, (refl, refl, omega (arith, near)), λ k pill. pill)

  own-Fetched :
      (next : Stage) (q : List (Option J))
      → Follows next
      → q ≡ get_or p.queues v.id_in_pool []
      → Fetched next v.id_in_pool (try_pop q)
  unfolding try_pop
  own-Fetched next [] near e = near
  own-Fetched next (none ∷ q) near e = refl
  own-Fetched next (some j ∷ q) near e = sym e

  steal-Fetched :
      (next : Stage) (i : ℕ) (q : List (Option J))
      → Follows next
      → q ≡ get_or p.queues i []
      → Fetched next i (try_pop_but_ignore is_null q)
  unfolding try_pop_but_ignore
  steal-Fetched next i [] near e = near
  steal-Fetched next i (none ∷ q) near e = near
  steal-Fetched next i (some j ∷ q) near e = sym e

  try_own-Ends : (next : Stage) → Fits p v → Follows next → Succeeds Ends (try_own next v p)
  unfolding try_own
  try_own-Ends next f near = rw (lt→ltb _ _ f.placed) (
      answered-Ends next v.id_in_pool (try_pop (get_or p.queues v.id_in_pool [])) f.placed
        (own-Fetched next (get_or p.queues v.id_in_pool []) near refl))

  try_steal-Ends :
      (next : Stage) (i : ℕ)
      → i < length p.queues
      → Follows next
      → Succeeds Ends (try_steal next i v p)
  unfolding try_steal
  try_steal-Ends next i lt near =
      Succeeds-if Ends (i == v.id_in_pool) _ _ (λ b. idle-Ends next i near)
        (λ b. rw (lt→ltb _ _ lt) (
          answered-Ends next i (try_pop_but_ignore is_null (get_or p.queues i [])) lt
            (steal-Fetched next i (get_or p.queues i []) near refl)))

  -- The thread does not wait: there is its pill at least.
  pop_own-Ends :
      (q : List (Option J))
      → v.id_in_pool < length p.queues
      → q ≡ get_or p.queues v.id_in_pool []
      → HasPill q
      → Succeeds Ends (pop_own v p q)
  unfolding pop_own
  pop_own-Ends [] lt e pill = elim pill [ ]
  pop_own-Ends (none ∷ q) lt e pill = answered-Ends stage_0 v.id_in_pool (some (none, q)) lt refl
  pop_own-Ends (some j ∷ q) lt e pill =
      answered-Ends stage_0 v.id_in_pool (some (some j, q)) lt (sym e)

  steal_next-Ends :
      (i : ℕ) → stage_3 i ≡ v.stage → Fits p v → Succeeds Ends (turn_at (stage_3 i) v p)
  unfolding turn_at
  steal_next-Ends i e f =
      Succeeds-if Ends (ltb i (length p.queues)) _ _
        (λ b.
          let lt : i < length p.queues = ltb→lt _ _ b in
          rw (lt→ltb i (length v.steal_order) (omega (arith, lt, f.ordered))) (
            try_steal-Ends (stage_3 (suc i)) (get_or v.steal_order i 0)
              (All-get_or (λ k. k < length p.queues) v.steal_order i 0
                (omega (arith, lt, f.ordered)) f.inside)
              (subst
                (λ s.
                  stages_left (length p.queues) (stage_3 (suc i)) < stages_left (length p.queues) s)
                e (omega (arith, lt)))))
        (λ b.
          idle-Ends stage_4 0 (subst (λ s. 0 < stages_left (length p.queues) s) e (omega arith)))

  turn_at-Ends : (stage : Stage) → stage ≡ v.stage → Fits p v → Succeeds Ends (turn_at stage v p)
  unfolding turn_at
  turn_at-Ends stage_0 e f =
      try_own-Ends stage_1 f
        (subst (λ s. length p.queues + 3 < stages_left (length p.queues) s) e (omega arith))
  turn_at-Ends stage_1 e f =
      idle-Ends stage_2 0
        (subst (λ s. length p.queues + 2 < stages_left (length p.queues) s) e (omega arith))
  turn_at-Ends stage_2 e f =
      try_own-Ends (stage_3 0) f
        (subst (λ s. 1 + (length p.queues - 0) < stages_left (length p.queues) s) e (omega arith))
  turn_at-Ends (stage_3 i) e f = steal_next-Ends i e f
  turn_at-Ends stage_4 e f =
      rw (lt→ltb _ _ f.placed) (pop_own-Ends (get_or p.queues v.id_in_pool []) f.placed refl f.pill)

  pub turn-Ends : Fits p v → Succeeds Ends (turn v p)
  unfolding turn
  turn-Ends f = turn_at-Ends v.stage refl f
