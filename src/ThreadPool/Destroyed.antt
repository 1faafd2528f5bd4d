-- ===== src/ThreadPool/Destroyed.antt =====
-- That the threads of a ThreadPool end once its destructor has put its death pills.
use mathlib.Core.Path.{subst}
use mathlib.Core.Option.{none-ne-some}
use s_rpc.Base.{
  ℕ, zero, suc, ◌+◌, ◌≤◌, ◌≡◌, refl, sym, ◌∙◌, ap, List, [], ◌∷◌, true, Option, some, none, arith,
  length, get_or, ◌==◌, ==_iff, if◌then◌else◌, Bool-cases, ◌⊎◌, inl, inr, All, elem, Option-cases,
  length-set,
}
use s_rpc.Base.Outcome.{done, Succeeds, Succeeds-bind, Succeeds-After}
use s_rpc.ThreadPool.{Worker, turn}
use s_rpc.ThreadPool.Kept.{turn-Keeps}
use s_rpc.ThreadPool.Ends.{Ends, turn-Ends}
use s_rpc.ThreadPool.Once.{System}
use s_rpc.ThreadPool.Joined.{
  take_turn, run_threads, run_rounds, IsFair, turns_left, Doomed, Ended, after-Doomed,
  after-turns_left, thread-lt-length, alive_sum,
}

none_alive :
    (n : ℕ) (os : List (Option Worker)) → alive_sum n os ≤ 0 → (k : ℕ) → get_or os k none ≡ none
none_alive n [] h k = refl
none_alive n (none ∷ os) h zero = refl
none_alive n (none ∷ os) h (suc k) = none_alive n os (omega (arith, h)) k
none_alive n (some v ∷ os) h k = absurd (omega (arith, h))

some_alive :
    (os : List (Option Worker))
    → ((k : ℕ) → get_or os k none ≡ none) ⊎ ((k : ℕ) × (v : Worker) × (get_or os k none ≡ some v))
some_alive [] = inl (λ k. refl)
some_alive (some v ∷ os) = inr (0, v, refl)
some_alive (none ∷ os) = elim (some_alive os) [
  | inl ended ↦ inl (none_first os ended)
  | inr (k, v, e) ↦ inr (suc k, v, e)
]
  where
    none_first :
        (os : List (Option Worker))
        → ((k : ℕ) → get_or os k none ≡ none)
        → (k : ℕ) → get_or (none ∷ os) k none ≡ none
    none_first os ended zero = refl
    none_first os ended (suc k) = ended k

module _ {J : Type 0} where
  -- What holds after some turns, of which the number is counted.
  abbrev Counts : System J → ℕ × System J → Type 0
  Counts s (m, t) =
      Doomed t × (m + turns_left t ≤ turns_left s) × (length t.threads ≡ length s.threads)

  take_turn-Counts :
      (k : ℕ) (s : System J) (v : Worker)
      → get_or s.threads k none ≡ some v
      → Doomed s
      → Succeeds (λ r. (r.0 ≡ 1) × Counts s r) (take_turn k s (some v))
  unfolding take_turn
  take_turn-Counts k s v e d =
      Succeeds-bind _ (λ r. (r.0 ≡ 1) × Counts s r) (turn v s.pool) _
        (Succeeds-After (Ends s.pool v) _ (turn v s.pool) (turn-Ends s.pool v (d k v e).1)
          (turn-Keeps (λ _. 1) v s.pool))
        (λ t h. (
          refl,
          (
            after-Doomed s k v e t d h.0,
            omega (arith, after-turns_left s k v e t h.0 h.1),
            length-set s.threads k t.worker,
          ),
        ))

  -- Any thread whose turn it is takes one, and a round that comes to a living thread takes one.
  run_threads-Counts :
      (ks : List ℕ) (s : System J)
      → Doomed s
      → Succeeds
          (λ r.
            Counts s r
            × ((k : ℕ) (v : Worker)
                → elem k ks ≡ true
                → get_or s.threads k none ≡ some v
                → 1 ≤ r.0))
          (run_threads ks s)
  unfolding run_threads take_turn
  run_threads-Counts [] s d = ((d, omega arith, refl), λ k v h e. cc)
  run_threads-Counts (j ∷ ks) s d = elim (Option-cases (get_or s.threads j none)) [
    | inl dead ↦ rw dead (
        Succeeds-bind _ _ (run_threads ks s) _ (run_threads-Counts ks s d) (λ q h. (
          (h.0.0, omega (arith, h.0.1), h.0.2),
          λ k v there at. elim (Bool-cases (k == j)) [
            | inl same ↦ absurd (
                none-ne-some v
                  (sym dead ∙ ap (λ i. get_or s.threads i none) (sym ((==_iff k j).0 same)) ∙ at))
            | inr apart ↦ omega (
              arith,
              h.1 k v (subst (λ b. (if b then true else elem k ks) ≡ true) apart there) at,
            )
          ],
        )))
    | inr (v, at) ↦ rw at (
        Succeeds-bind _ _ (take_turn j s (some v)) _ (take_turn-Counts j s v at d) (λ r h.
          Succeeds-bind _ _ (run_threads ks r.1) _ (run_threads-Counts ks r.1 h.1.0) (λ q g. (
            (g.0.0, omega (arith, h.1.1, g.0.1), g.0.2 ∙ h.1.2),
            λ k u there here. omega (arith, h.0),
          ))))
  ]

  -- Threads that have ended take no turn.
  run_threads-Ended : (ks : List ℕ) (s : System J) → Ended s → run_threads ks s ≡ done (0, s)
  unfolding run_threads take_turn
  run_threads-Ended [] s ended = refl
  run_threads-Ended (k ∷ ks) s ended = rw (ended k) (rw (run_threads-Ended ks s ended) refl)

  run_rounds-Ended :
      (rounds : List (List ℕ)) (s : System J) → Ended s → Succeeds Ended (run_rounds rounds s)
  unfolding run_rounds
  run_rounds-Ended [] s ended = ended
  run_rounds-Ended (ks ∷ rounds) s ended =
      rw (run_threads-Ended ks s ended) (run_rounds-Ended rounds s ended)

  pub Doomed-Ended :
      (rounds : List (List ℕ)) (s : System J)
      → Doomed s
      → All (IsFair (length s.threads)) rounds
      → turns_left s ≤ length rounds
      → Succeeds Ended (run_rounds rounds s)
  unfolding run_rounds
  Doomed-Ended [] s d fair enough =
      none_alive (length s.pool.queues) s.threads (omega (arith, enough))
  Doomed-Ended (ks ∷ rounds) s d fair enough = elim (some_alive s.threads) [
    | inl ended ↦ rw (run_threads-Ended ks s ended) (run_rounds-Ended rounds s ended)
    | inr (k, v, e) ↦ Succeeds-bind _ Ended (run_threads ks s) _ (run_threads-Counts ks s d) (λ r h.
        Doomed-Ended rounds r.1 h.0.0 (subst (λ n. All (IsFair n) rounds) (sym h.0.2) fair.1)
          (omega (arith, enough, h.0.1, h.1 k v (fair.0 k (thread-lt-length s.threads k v e)) e)))
  ]
