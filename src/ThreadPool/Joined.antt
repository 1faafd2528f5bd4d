-- ===== src/ThreadPool/Joined.antt =====
-- The end of a ThreadPool: its destructor puts a death pill into each queue and waits for the threads.
use mathlib.Core.Path.{subst}
use mathlib.Core.Option.{none-ne-some}
use s_rpc.Base.{
  ℕ, zero, suc, ◌+◌, ◌*◌, ◌<◌, ◌≡◌, ◌≢◌, refl, sym, ◌∙◌, ap, List, [], ◌∷◌, ◌++◌, true, Option,
  some, none, arith, length, get_or, set, ◌==◌, ==_iff, Bool-cases, inl, inr, All, elem,
  get_or-set_self, get_or-set_other,
}
use s_rpc.Base.Outcome.{Outcome, done, ◌>>=◌}
use s_rpc.ThreadPool.{ThreadPool, push_to, Worker, Turn, turn, left_over}
use s_rpc.ThreadPool.Kept.{weigh}
use s_rpc.ThreadPool.Ends.{HasPill, stages_left, Fits, Nearer, Leaves, Ends}
use s_rpc.ThreadPool.Once.{System}
use native.Mathlib.Nat.{add-mul}

-- The destructor's first loop, over the queues below `m`.
unfoldable pub pill_all : {J : Type 0} → ℕ → ThreadPool J → Outcome (ThreadPool J)
pill_all zero p = done p
pill_all (suc m) p = do q ← pill_all m p; push_to m none q

-- Thread `k` has its turn, unless it has ended; with the number of turns taken.
unfoldable pub take_turn : {J : Type 0} → ℕ → System J → Option Worker → Outcome (ℕ × System J)
take_turn k s none = done (0, s)
take_turn k s (some v) = do
  t ← turn v s.pool
  done (1, record s { threads = set s.threads k t.worker; pool = t.pool; ran = s.ran ++ t.ran })

-- The threads of a list have their turns, in its order.
unfoldable pub run_threads : {J : Type 0} → List ℕ → System J → Outcome (ℕ × System J)
run_threads [] s = done (0, s)
run_threads (k ∷ ks) s = do
  r ← take_turn k s (get_or s.threads k none)
  q ← run_threads ks r.1
  done (r.0 + q.0, q.1)

unfoldable pub run_rounds : {J : Type 0} → List (List ℕ) → System J → Outcome (System J)
run_rounds [] s = done s
run_rounds (ks ∷ rounds) s = do r ← run_threads ks s; run_rounds rounds r.1

-- The destructor, with what the threads do while it waits for them, and its last loop.
unfoldable pub destroy : {J : Type 0} → List (List ℕ) → System J → Outcome (System J)
destroy rounds s = do
  p ← pill_all (length s.pool.queues) (record s.pool { should_stop = true })
  t ← run_rounds rounds (record s { pool = p })
  done (record t { ran = t.ran ++ left_over t.pool.queues })

-- A round in which every thread has a turn at least.
abbrev pub IsFair : ℕ → List ℕ → Type 0
IsFair n ks = (k : ℕ) → k < n → elem k ks ≡ true

abbrev pub alive : ℕ → Option Worker → ℕ
alive n none = 0
alive n (some v) = 1 + stages_left n v.stage

abbrev pub alive_sum : ℕ → List (Option Worker) → ℕ
alive_sum n [] = 0
alive_sum n (o ∷ os) = alive n o + alive_sum n os

-- A bound on the turns that are left: each job brings its thread back to the first stage.
abbrev pub turns_left : {J : Type 0} → System J → ℕ
turns_left s =
    weigh (λ _. 1) (left_over s.pool.queues) * (length s.pool.queues + 5)
    + alive_sum (length s.pool.queues) s.threads

-- Each thread that is left has its place in the pool, and a pill that waits for it.
abbrev pub Doomed : {J : Type 0} → System J → Type 0
Doomed s =
    (k : ℕ) (v : Worker) → get_or s.threads k none ≡ some v → (v.id_in_pool ≡ k) × Fits s.pool v

-- The same without the pill.
abbrev pub Placed : {J : Type 0} → System J → Type 0
Placed s =
    (k : ℕ) (v : Worker)
    → get_or s.threads k none ≡ some v
    → (v.id_in_pool ≡ k)
      × (k < length s.pool.queues)
      × (length v.steal_order ≡ length s.pool.queues)
      × All (λ i. i < length s.pool.queues) v.steal_order

abbrev pub Ended : {J : Type 0} → System J → Type 0
Ended s = (k : ℕ) → get_or s.threads k none ≡ none

alive_sum-set :
    (n : ℕ) (os : List (Option Worker)) (k : ℕ) (v : Worker) (o : Option Worker)
    → get_or os k none ≡ some v
    → alive_sum n (set os k o) + (1 + stages_left n v.stage) ≡ alive_sum n os + alive n o
alive_sum-set n [] k v o e = absurd (none-ne-some v e)
alive_sum-set n (u ∷ os) zero v o e =
    subst
      (λ w.
        alive n o + alive_sum n os + (1 + stages_left n v.stage)
        ≡ alive n w + alive_sum n os + alive n o)
      (sym e) (omega arith)
alive_sum-set n (u ∷ os) (suc k) v o e = omega (arith, alive_sum-set n os k v o e)

pub thread-lt-length :
    (os : List (Option Worker)) (k : ℕ) (v : Worker) → get_or os k none ≡ some v → k < length os
thread-lt-length [] k v e = absurd (none-ne-some v e)
thread-lt-length (u ∷ os) zero v e = omega arith
thread-lt-length (u ∷ os) (suc k) v e = omega (arith, thread-lt-length os k v e)

module _ {J : Type 0} (s : System J) (k : ℕ) (v : Worker)
    (e : get_or s.threads k none ≡ some v) where
  abbrev pub after : Turn J → System J
  after t = record s { threads = set s.threads k t.worker; pool = t.pool; ran = s.ran ++ t.ran }

  -- Another thread keeps its pill.
  other_pill :
      (t : Turn J) (o : Option Worker)
      → Leaves s.pool v t o
      → (i : ℕ) → i ≢ v.id_in_pool
      → HasPill (get_or s.pool.queues i [])
      → HasPill (get_or t.pool.queues i [])
  other_pill t none l i apart pill = l i apart pill
  other_pill t (some v') l i apart pill = l i pill

  Fits-after :
      (t : Turn J) (u u' : Worker)
      → length t.pool.queues ≡ length s.pool.queues
      → u'.id_in_pool ≡ u.id_in_pool
      → u'.steal_order ≡ u.steal_order
      → HasPill (get_or t.pool.queues u.id_in_pool [])
      → Fits s.pool u
      → Fits t.pool u'
  Fits-after t u u' n id order pill f = record {
    placed = omega (arith, f.placed, n, id);
    ordered = ap length order ∙ f.ordered ∙ sym n;
    inside =
        subst (λ m. All (λ i. i < m) u'.steal_order) (sym n)
          (subst (All (λ i. i < length s.pool.queues)) (sym order) f.inside);
    pill = subst (λ i. HasPill (get_or t.pool.queues i [])) (sym id) pill;
  }

  pub after-Doomed : (t : Turn J) → Doomed s → Ends s.pool v t → Doomed (after t)
  after-Doomed t d (n, near, leaves) j u at = elim (Bool-cases (j == k)) [
    | inl same ↦
        let jk : j ≡ k = (==_iff j k).0 same in
        let here : t.worker ≡ some u =
          sym (get_or-set_self s.threads k t.worker none (thread-lt-length s.threads k v e))
          ∙ ap (λ i. get_or (set s.threads k t.worker) i none) (sym jk)
          ∙ at in
        let (id, order, _) = subst (Nearer s.pool v (weigh (λ _. 1) t.ran)) here near in
        let pills = subst (Leaves s.pool v t) here leaves in
        let (place, f) = d k v e in
        (id ∙ place ∙ sym jk, Fits-after t v u n id order (pills v.id_in_pool f.pill) f)
    | inr apart ↦
        let jk : j ≢ k = λ eq. ground (arith, eq, apart) in
        let (place, f) = d j u (sym (get_or-set_other s.threads k j t.worker none jk) ∙ at) in
        let (mine, _) = d k v e in
        (
          place,
          Fits-after t u u n refl refl
              (other_pill t t.worker leaves u.id_in_pool (λ eq. jk (sym place ∙ eq ∙ mine)) f.pill)
              f,
        )
  ]

  -- A turn counts: it leaves fewer.
  worker-Nearer :
      (t : Turn J) (o : Option Worker)
      → Nearer s.pool v (weigh (λ _. 1) t.ran) o
      → alive (length s.pool.queues) o
        < 1
          + stages_left (length s.pool.queues) v.stage
          + weigh (λ _. 1) t.ran * (length s.pool.queues + 5)
  worker-Nearer t none near = omega arith
  worker-Nearer t (some u) (_, _, near) = omega (arith, near)

  pub after-turns_left :
      (t : Turn J)
      → Ends s.pool v t
      → weigh (λ _. 1) t.ran + weigh (λ _. 1) (left_over t.pool.queues)
        ≡ weigh (λ _. 1) (left_over s.pool.queues)
      → turns_left (after t) < turns_left s
  after-turns_left t (n, near, _) kept =
      let c = length s.pool.queues + 5 in
      let jobs =
        ap (λ m. m * c) (sym kept)
        ∙ add-mul (weigh (λ _. 1) t.ran) (weigh (λ _. 1) (left_over t.pool.queues)) c in
      subst
        (λ m.
          weigh (λ _. 1) (left_over t.pool.queues) * (m + 5)
            + alive_sum m (set s.threads k t.worker)
          < turns_left s)
        (sym n)
        (omega (
          arith,
          jobs,
          worker-Nearer t t.worker near,
          alive_sum-set (length s.pool.queues) s.threads k v t.worker e,
        ))
