-- ===== src/DragonBall.antt =====
-- src/misc/dball.hpp: class DragonBall, which calls its wish at the last of the triggers that it waits
-- for, and then deletes itself.
use s_rpc.Base.{
  ℕ, zero, suc, ◌+◌, ◌<◌, ◌≡◌, Bool, true, false, not, ◌&&◌, if◌then◌else◌, arith, Option, none,
  some,
}
use s_rpc.Base.Int.{ℤ, pos, leb_ℤ, eq_ℤ}
use s_rpc.Base.Outcome.{Outcome, done, ◌>>=◌, ◌>>◌, verify, fault, deleted}

pub record DragonBall : Type 0 where
  pub n_wait : ℤ
  pub n_ready : ℕ
  pub called : Bool

-- `DragonBall(n_wait, wish)`
abbrev pub new_ball : ℤ → DragonBall
new_ball n_wait = record { n_wait = n_wait; n_ready = 0; called = false }

-- `set_wait(n_wait)`
abbrev pub set_wait : ℤ → DragonBall → DragonBall
set_wait n_wait b = record b { n_wait = n_wait }

-- `trigger()`: the object, none if it is deleted, and whether it was ready, which is when it calls the
-- wish.
unfoldable pub trigger : DragonBall → Outcome (Option DragonBall × Bool)
trigger b = do
  let n = b.n_ready + 1
  verify (leb_ℤ (pos n) b.n_wait)
  let ready = eq_ℤ (pos n) b.n_wait
  verify (not (ready && b.called))
  done (if ready then none else some (record b { n_ready = n }), ready)

-- `k` triggers in a row, and the number of times that they call the wish.
unfoldable pub triggers : ℕ → Option DragonBall → Outcome (Option DragonBall × ℕ)
triggers zero o = done (o, 0)
triggers (suc k) none = fault deleted
triggers (suc k) (some b) = do
  (o, ready) ← trigger b
  (o', n) ← triggers k o
  done (o', n + (if ready then 1 else 0))

triggers_early :
    (k i : ℕ) (n : ℕ)
    → i + k < n
    → triggers k (some (record { n_wait = pos n; n_ready = i; called = false }))
      ≡ done (some (record { n_wait = pos n; n_ready = i + k; called = false }), 0)
unfolding triggers trigger
triggers_early zero i n h = let z : i + 0 ≡ i = omega arith in rw z
triggers_early (suc k) i n h =
    let fits : leb_ℤ (pos (i + 1)) (pos n) ≡ true = ground arith in
    let early : eq_ℤ (pos (i + 1)) (pos n) ≡ false = ground arith in
    let next : i + 1 + k ≡ i + suc k = omega arith in
    rw (fits, early, triggers_early k (i + 1) n (omega arith), next)

triggers_last :
    (k i n : ℕ)
    → i + suc k ≡ n
    → triggers (suc k) (some (record { n_wait = pos n; n_ready = i; called = false }))
      ≡ done (none, 1)
unfolding triggers trigger
triggers_last zero i n h =
    let fits : leb_ℤ (pos (i + 1)) (pos n) ≡ true = ground arith in
    let last : eq_ℤ (pos (i + 1)) (pos n) ≡ true = ground arith in rw (fits, last)
triggers_last (suc k) i n h =
    let fits : leb_ℤ (pos (i + 1)) (pos n) ≡ true = ground arith in
    let early : eq_ℤ (pos (i + 1)) (pos n) ≡ false = ground arith in
    rw (fits, early, triggers_last k (i + 1) n (omega arith))

-- A new DragonBall that waits for `n > 0` triggers survives fewer, without a call of its wish, and at
-- the `n`-th it has called its wish once and is deleted.
pub triggers_lem :
    (n k : ℕ)
    → 0 < n
    → k < n
    → (triggers k (some (new_ball (pos n)))
        ≡ done (some (record { n_wait = pos n; n_ready = k; called = false }), 0))
      × (triggers n (some (new_ball (pos n))) ≡ done (none, 1))
triggers_lem zero k z h = absurd (omega arith)
triggers_lem (suc n) k z h =
    let z : 0 + k ≡ k = omega arith in
    (rw z at (triggers_early k 0 (suc n) (omega arith)), triggers_last n 0 (suc n) (omega arith))
