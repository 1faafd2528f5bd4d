-- ===== src/ALock/Group/Answers.antt =====
-- A group gets all of its locks or none: what the answers of its locks come to.
use mathlib.Core.Option.{none-ne-some, some-injective}
use s_rpc.ALock.Group.Granted.{
  Has, insert_self, insert_other, insert_only, abort_all_locked-each, abort_all_locked-only,
}
use s_rpc.Base.{
  All, refl, sym, ◌∙◌, ap, inl, inr, ◌⊎◌, ◌≢◌, ◌<◌, Bool-cases, ℕ, suc, ◌+◌, ◌≡◌, Bool, true, false,
  List, [], ◌∷◌, ◌++◌, arith, length, if◌then◌else◌, Option, none, some, append-nil,
}
use s_rpc.Base.Int.{pos, leb_ℤ, eq_ℤ}
use s_rpc.Base.Outcome.{Outcome, done, ◌>>=◌}
use s_rpc.ALock.{LockType}
use s_rpc.DragonBall.{trigger}
use s_rpc.ALock.Group.{
  Group, GroupStatus, GroupCall, g_wait, g_lock, g_timeout, yes_call, no_call, abort_call, insert,
  abort_all_locked, finish, trigger_ball, granted_one, refused_one,
}

-- The answers of the locks: an id, or none where a lock refuses.
abbrev pub Answer : Type 0
Answer = ℕ × Option ℕ

unfoldable pub answer : Answer → Group → Outcome (Group × List GroupCall)
unfolding granted_one refused_one
answer (alock, none) g = refused_one g
answer (alock, some id) g = granted_one alock id g

unfoldable pub answers : List Answer → Group → Outcome (Group × List GroupCall)
unfolding answer
answers [] g = done (g, [])
answers (a ∷ more) g = do
  (g', calls) ← answer a g
  (g'', calls') ← answers more g'
  done (g'', calls ++ calls')

abbrev pub all_granted : List Answer → Bool
all_granted [] = true
all_granted ((alock, none) ∷ more) = false
all_granted ((alock, some id) ∷ more) = all_granted more

-- `locked_` after the answers.
abbrev pub locked_after : List (ℕ × ℕ) → List Answer → List (ℕ × ℕ)
locked_after m [] = m
locked_after m ((alock, none) ∷ more) = locked_after m more
locked_after m ((alock, some id) ∷ more) = locked_after (insert alock id m) more

-- A group that waits for answers, `i` of `n` having come.
abbrev pub pending : GroupStatus → List (ℕ × ℕ) → List (ℕ × LockType) → ℕ → ℕ → Group
pending st m t i n = record {
  status = st;
  locked = m;
  tolock = t;
  ball = some (record { n_wait = pos n; n_ready = i; called = false });
}

abbrev pub given_up : List (ℕ × ℕ) → List (ℕ × LockType) → Group × List GroupCall
given_up m t = (
  record { status = g_timeout; locked = m; tolock = t; ball = none },
  no_call ∷ abort_all_locked m,
)

abbrev pub all_locked : List (ℕ × ℕ) → List (ℕ × LockType) → Group × List GroupCall
all_locked m t = (record { status = g_lock; locked = m; tolock = t; ball = none }, yes_call ∷ [])

after_timeout :
    (a : Answer) (more : List Answer) (m : List (ℕ × ℕ)) (t : List (ℕ × LockType)) (i n : ℕ)
    → i + suc (length more) ≡ n
    → answers (a ∷ more) (pending g_timeout m t i n) ≡ done (given_up (locked_after m (a ∷ more)) t)
unfolding answers answer granted_one refused_one trigger_ball finish trigger
after_timeout (l, none) [] m t i n h =
    let fits : leb_ℤ (pos (i + 1)) (pos n) ≡ true = ground arith in
    let last : eq_ℤ (pos (i + 1)) (pos n) ≡ true = ground arith in
    rw (fits, last, append-nil (abort_all_locked m))
after_timeout (l, some id) [] m t i n h =
    let fits : leb_ℤ (pos (i + 1)) (pos n) ≡ true = ground arith in
    let last : eq_ℤ (pos (i + 1)) (pos n) ≡ true = ground arith in
    rw (fits, last, append-nil (abort_all_locked (insert l id m)))
after_timeout (l, none) (b ∷ more) m t i n h =
    let fits : leb_ℤ (pos (i + 1)) (pos n) ≡ true = ground arith in
    let early : eq_ℤ (pos (i + 1)) (pos n) ≡ false = ground arith in
    rw (fits, early, after_timeout b more m t (i + 1) n (omega arith))
after_timeout (l, some id) (b ∷ more) m t i n h =
    let fits : leb_ℤ (pos (i + 1)) (pos n) ≡ true = ground arith in
    let early : eq_ℤ (pos (i + 1)) (pos n) ≡ false = ground arith in
    rw (fits, early, after_timeout b more (insert l id m) t (i + 1) n (omega arith))

-- The group after all answers, and the calls that it has made.
answers-outcome :
    (a : Answer) (more : List Answer) (m : List (ℕ × ℕ)) (t : List (ℕ × LockType)) (i n : ℕ)
    → i + suc (length more) ≡ n
    → answers (a ∷ more) (pending g_wait m t i n)
      ≡ done (
          if all_granted (a ∷ more)
          then all_locked (locked_after m (a ∷ more)) t
          else given_up (locked_after m (a ∷ more)) t)
unfolding answers answer granted_one refused_one trigger_ball finish trigger
answers-outcome (l, none) [] m t i n h =
    let fits : leb_ℤ (pos (i + 1)) (pos n) ≡ true = ground arith in
    let last : eq_ℤ (pos (i + 1)) (pos n) ≡ true = ground arith in
    rw (fits, last, append-nil (abort_all_locked m))
answers-outcome (l, some id) [] m t i n h =
    let fits : leb_ℤ (pos (i + 1)) (pos n) ≡ true = ground arith in
    let last : eq_ℤ (pos (i + 1)) (pos n) ≡ true = ground arith in rw (fits, last)
answers-outcome (l, none) (b ∷ more) m t i n h =
    let fits : leb_ℤ (pos (i + 1)) (pos n) ≡ true = ground arith in
    let early : eq_ℤ (pos (i + 1)) (pos n) ≡ false = ground arith in
    rw (fits, early, after_timeout b more m t (i + 1) n (omega arith))
answers-outcome (l, some id) (b ∷ more) m t i n h =
    let fits : leb_ℤ (pos (i + 1)) (pos n) ≡ true = ground arith in
    let early : eq_ℤ (pos (i + 1)) (pos n) ≡ false = ground arith in
    rw (fits, early, answers-outcome b more (insert l id m) t (i + 1) n (omega arith))

locked_after-kept :
    (l id : ℕ) (m : List (ℕ × ℕ)) (more : List Answer)
    → All (λ b. l ≢ b.0) more
    → Has (l, id) m
    → Has (l, id) (locked_after m more)
locked_after-kept l id m [] away h = h
locked_after-kept l id m ((k, none) ∷ more) away h = locked_after-kept l id m more away.1 h
locked_after-kept l id m ((k, some v) ∷ more) away h =
    locked_after-kept l id (insert k v m) more away.1 (insert_other k v l id m away.0 h)

-- Each lock answers once.
abbrev pub OneEach : List Answer → Type 0
OneEach [] = Unit {0}
OneEach (a ∷ more) = All (λ b. a.0 ≢ b.0) more × OneEach more

locked_after-each :
    (l id : ℕ) (m : List (ℕ × ℕ)) (more : List Answer)
    → OneEach more
    → Has (l, some id) more
    → Has (l, id) (locked_after m more)
locked_after-each l id m [] one h = elim h [ ]
locked_after-each l id m ((k, none) ∷ more) one (inl q) =
    absurd (none-ne-some id (sym (ap (λ (a : Answer). a.1) q)))
locked_after-each l id m ((k, none) ∷ more) one (inr h) = locked_after-each l id m more one.1 h
locked_after-each l id m ((k, some v) ∷ more) one (inl q) =
    let lock : l ≡ k = ap (λ (a : Answer). a.0) q in
    let value : id ≡ v = some-injective id v (ap (λ (a : Answer). a.1) q) in
    rw (lock, value) (locked_after-kept k v (insert k v m) more one.0 (insert_self k v m))
locked_after-each l id m ((k, some v) ∷ more) one (inr h) =
    locked_after-each l id (insert k v m) more one.1 h

locked_after-only :
    (l id : ℕ) (m : List (ℕ × ℕ)) (more : List Answer)
    → Has (l, id) (locked_after m more)
    → Has (l, some id) more ⊎ Has (l, id) m
locked_after-only l id m [] h = inr h
locked_after-only l id m ((k, none) ∷ more) h = elim (locked_after-only l id m more h) [
  | inl granted ↦ inl (inr granted)
  | inr before ↦ inr before
]
locked_after-only l id m ((k, some v) ∷ more) h =
    elim (locked_after-only l id (insert k v m) more h) [
      | inl granted ↦ inl (inr granted)
      | inr inserted ↦ elim (insert_only k v (l, id) m inserted) [
        | inl q ↦ inl (inl (ap (λ (p : ℕ × ℕ). (p.0, some p.1)) q))
        | inr before ↦ inr before
      ]
    ]

-- The calls of a group that gives up: its callback no, and then `abort` of every request that was
-- granted and of none but those granted now or before.
abbrev pub GivesBack : List (ℕ × ℕ) → List Answer → List GroupCall → Type 0
GivesBack m given calls =
    (aborts : List GroupCall) × (calls ≡ no_call ∷ aborts)
    × ((l id : ℕ) → 0 < id → Has (l, some id) given → Has (abort_call l id) aborts)
    × ((c : GroupCall)
        → Has c aborts
        → (l : ℕ) × (id : ℕ) × (c ≡ abort_call l id)
          × (0 < id)
          × (Has (l, some id) given ⊎ Has (l, id) m))

given_up-GivesBack :
    (m : List (ℕ × ℕ)) (t : List (ℕ × LockType)) (given : List Answer)
    → OneEach given
    → GivesBack m given (given_up (locked_after m given) t).1
given_up-GivesBack m t given one = (
  abort_all_locked (locked_after m given),
  refl,
  (λ l id positive h. abort_all_locked-each l id _ positive (locked_after-each l id m given one h)),
  (λ c h.
      let (l, id, q, positive, there) = abort_all_locked-only c (locked_after m given) h in
      (l, id, q, positive, locked_after-only l id m given there)),
)

-- When given many locks have answered, each once, given the group has asked, it has called its callback
-- exactly once. If all granted, this was yes, its status is LOCK, and it has called nothing else. If
-- not, it was no, its status is TIMEOUT, and it has called `abort`, with the id, of every request that
-- was granted under an id above 0, and of no request but those and such that it held before.
pub answers_lem :
    (a : Answer) (more : List Answer) (m : List (ℕ × ℕ)) (t : List (ℕ × LockType)) (i n : ℕ)
    → i + suc (length more) ≡ n
    → OneEach (a ∷ more)
    → (g : Group) × (calls : List GroupCall) × (answers (a ∷ more) (pending g_wait m t i n)
        ≡ done (g, calls))
      × (all_granted (a ∷ more) ≡ true → (g.status ≡ g_lock) × (calls ≡ yes_call ∷ []))
      × (all_granted (a ∷ more) ≡ false → (g.status ≡ g_timeout) × GivesBack m (a ∷ more) calls)
answers_lem a more m t i n h one = elim (Bool-cases (all_granted (a ∷ more))) [
  | inl all ↦
      let (g, calls) = all_locked (locked_after m (a ∷ more)) t in
      (
        g,
        calls,
        answers-outcome a more m t i n h ∙ rw all refl,
        (λ _. (refl, refl)),
        (λ e. absurd (ground (arith, all, e))),
      )
  | inr refused ↦
      let (g, calls) = given_up (locked_after m (a ∷ more)) t in
      (
        g,
        calls,
        answers-outcome a more m t i n h ∙ rw refused refl,
        (λ e. absurd (ground (arith, refused, e))),
        (λ _. (refl, given_up-GivesBack m t (a ∷ more) one)),
      )
]
