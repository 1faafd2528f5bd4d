-- ===== src/ALock/WaitDie/Joined.antt =====
-- `vlock` adds a request to the queue of WaitDieALock in the order of priorities.
use s_rpc.Base.{
  ℕ, suc, ◌≡◌, refl, sym, ap, ◌∙◌, inl, inr, true, false, ◌&&◌, List, [], ◌∷◌, ◌++◌, arith,
  if-cases,
}
use s_rpc.Base.Int.{ℤ}
use s_rpc.Base.Outcome.{
  done, verify, After, After-bind, After-then, After-self, Succeeds, Succeeds-After,
}
use s_rpc.ALock.{
  LockType, rlock, wlock, LockStatus, free, wlocked, rlocked, wait, Req, Call, refused, is_read,
  is_write, is_wait, Lock, read_acquire, count_type,
}
use s_rpc.ALock.WaitDie.{
  WaitDie, WdStatus, wd_wait, wd_die, wait_die, enqueue, acquire_new, acquirable, vlock,
}
use s_rpc.ALock.WaitDie.Holds.{HoldsAs}
use s_rpc.ALock.WaitDie.Invariant.{IsValid, vlock-IsValid, count-reverse, free_or_read, free_only}
use s_rpc.ALock.WaitDie.Order.{Older, Ordered, wait_die-Ordered}
use s_rpc.ALock.WaitDie.Kept.{plain, same_order, write_acquire_lem, rejoin_one}
use mathlib.Core.List.{reverse, reverse-append}

read_acquire_lem : (l : Lock) (r : Req) → After (λ a. plain a.1 ≡ plain r) (read_acquire l r)
unfolding read_acquire
read_acquire_lem l r = After-then _ (verify (is_read r.type && is_wait r.status)) _ (λ u. refl)

-- A read request conflicts with no read request.
no_writes :
    (x : Req) (ys : List Req) → is_write x.type ≡ false → count_type is_write ys ≡ 0 → Older x ys
unfolding count_type
no_writes x [] w n = tt
no_writes x (y ∷ ys) w n =
    let none_here : is_write y.type ≡ false = ground arith in
    (inl (rw (none_here, w)), no_writes x ys w (ground arith))

no_requests : (st : LockStatus) (k : ℕ) (rs : List Req) → st ≡ free → HoldsAs st k rs → rs ≡ []
no_requests free k rs e h = h.0
no_requests wlocked k rs e h = absurd (ground arith)
no_requests rlocked k rs e h = absurd (ground arith)

-- A request that gets the lock at once conflicts with none that is queued.
acquirable-Older :
    (type : LockType) (s : WaitDie) (x : Req)
    → x.type ≡ type
    → IsValid s
    → acquirable s type ≡ true
    → Older x (reverse s.requests)
acquirable-Older rlock s x t v c =
    let reads : is_write x.type ≡ false = ap is_write t in
    let n : s.n_w_in_queue ≡ count_type is_write s.requests = v.writes_counted in
    elim (free_or_read s.held.status s.n_w_in_queue c) [
      | inl f ↦ rw (no_requests s.held.status s.held.n_rlock s.requests f v.holds) tt
      | inr (_, z) ↦
          no_writes x (reverse s.requests) reads (count-reverse is_write s.requests ∙ sym n ∙ z)
    ]
acquirable-Older wlock s x t v c =
    rw
      (no_requests s.held.status s.held.n_rlock s.requests
        (free_only s.held.status s.n_w_in_queue c) v.holds)
      tt

abbrev InOrder : WaitDie → Type 0
InOrder s = Ordered (reverse s.requests)

acquire_new_lem :
    (s : WaitDie) (x : Req)
    → Older x (reverse s.requests)
    → InOrder s
    → After (λ r. InOrder r.0) (acquire_new s x)
unfolding acquire_new enqueue
acquire_new_lem s x h o =
    let joined : Ordered (reverse (s.requests ++ x ∷ [])) =
      rw (reverse-append s.requests (x ∷ [])) (h, o) in
    After-bind (λ a. plain a.1 ≡ plain x) _ _ _
      (if-cases (After (λ (a : Lock × Req × List Call). plain a.1 ≡ plain x)) (is_read x.type) _ _
        (λ t. read_acquire_lem s.held x) (λ t. write_acquire_lem s.held x))
      (λ a e.
        same_order (s.requests ++ a.1 ∷ []) (s.requests ++ x ∷ [])
          (rejoin_one s.requests a.1 x [] e) joined)

joins :
    (type : LockType) (priority : ℤ) (s : WaitDie)
    → IsValid s
    → InOrder s
    → After (λ r. InOrder r.0) (vlock type priority s)
unfolding vlock enqueue
joins type priority s v o =
    let s' : WaitDie = record s { next_id = suc s.next_id } in
    let r : Req = record { id = s.next_id; priority = priority; type = type; status = wait } in
    if-cases (After (λ (p : WaitDie × List Call × ℕ). InOrder p.0)) s.done_ _ _ (λ d. o)
      (λ d.
        if-cases (After (λ (p : WaitDie × List Call × ℕ). InOrder p.0)) (acquirable s type) _ _
          (λ a.
            After-bind (λ p. InOrder p.0) _ (acquire_new s' r) _
              (acquire_new_lem s' r (acquirable-Older type s r refl v a) o) (λ p e. e))
          (λ a.
            After-bind (λ w. wait_die type priority s.requests ≡ done w) _
              (wait_die type priority s.requests) _
              (After-self _ (wait_die type priority s.requests) (λ w e. e))
              (λ w e. decided s' r o w e)))
  where
    decided :
        (s' : WaitDie) (r : Req)
        → InOrder s'
        → (w : WdStatus) → wait_die r.type r.priority s'.requests ≡ done w
        → InOrder
            (elim w as (λ u. WaitDie × List Call × ℕ) [
              | wd_wait ↦ (enqueue s' r, [], r.id)
              | wd_die ↦ (s', refused r.id ∷ [], r.id)
            ]).0
    decided s' r o wd_wait e = wait_die-Ordered r s'.requests o e
    decided s' r o wd_die e = o

-- On a well-formed lock where each request of the queue is older than those ahead that it conflicts
-- with, `vlock` returns, and leaves such a lock.
pub vlock-Ordered :
    (type : LockType) (priority : ℤ) (s : WaitDie)
    → IsValid s
    → Ordered (reverse s.requests)
    → Succeeds (λ r. IsValid r.0 × Ordered (reverse r.0.requests)) (vlock type priority s)
vlock-Ordered type priority s v o =
    Succeeds-After _ _ (vlock type priority s) (vlock-IsValid type priority s v)
      (joins type priority s v o)
