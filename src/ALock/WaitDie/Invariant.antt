-- ===== src/ALock/WaitDie/Invariant.antt =====
-- The operations of WaitDieALock keep its queue well formed, and none of their `verify` calls fails.
use s_rpc.Base.{
  ℕ, suc, ◌+◌, ◌<◌, ◌≡◌, refl, ap, ◌⊎◌, inl, inr, Bool, true, false, ◌&&◌, ◌||◌, List, [], ◌∷◌,
  ◌++◌, arith, if◌then◌else◌, ◌==◌, Bool-cases,
}
use s_rpc.Base.Int.{ℤ}
use s_rpc.Base.Outcome.{Outcome, Succeeds, Succeeds-bind, Succeeds-if}
use s_rpc.ALock.{
  LockType, rlock, wlock, LockStatus, free, wlocked, rlocked, wait, lock, Req, Call, is_read,
  is_write, is_wait, is_free, is_rlocked, refused, write_acquire, read_acquire, count_type,
}
use s_rpc.ALock.WaitDie.{
  WaitDie, WdStatus, wd_wait, wd_die, read_wait_die, wait_die, enqueue, acquire_new, acquirable,
  vlock,
}
use s_rpc.ALock.WaitDie.Queue.{count-append, type-cases}
use s_rpc.ALock.WaitDie.Holds.{HoldsAs, join_read, join_write, join_wait}
use mathlib.Core.List.{reverse, reverse-cons}

-- What `sanity_check()` tests of `status_`, the queue and its counters.
pub record IsValid (s : WaitDie) : Type 0 where
  pub holds : HoldsAs s.held.status s.held.n_rlock s.requests
  pub reads_counted : s.n_r_in_queue ≡ count_type is_read s.requests
  pub writes_counted : s.n_w_in_queue ≡ count_type is_write s.requests

abbrev pub Keeps : {A : Type 0} → Outcome (WaitDie × A) → Type 0
Keeps m = Succeeds (λ r. IsValid r.0) m

-- The counters after a request joins.
counted :
    (p : LockType → Bool) (n : ℕ) (rs : List Req) (x : Req) (t : LockType)
    → x.type ≡ t
    → n ≡ count_type p rs
    → n + (if p t then 1 else 0) ≡ count_type p (rs ++ x ∷ [])
unfolding count_type
counted p n rs x t e h = rw (count-append p rs (x ∷ []), e, h) (omega arith)

enqueue-IsValid :
    (s : WaitDie) (x : Req)
    → x.status ≡ wait
    → acquirable s x.type ≡ false
    → IsValid s
    → IsValid (enqueue s x)
unfolding enqueue
enqueue-IsValid s x w c v = record {
  holds = join_wait s.held.status s.held.n_rlock s.requests x w (rw⁻¹ v.writes_counted c) v.holds;
  reads_counted = counted is_read s.n_r_in_queue s.requests x x.type refl v.reads_counted;
  writes_counted = counted is_write s.n_w_in_queue s.requests x x.type refl v.writes_counted;
}

pub free_or_read :
    (st : LockStatus) (n : ℕ)
    → (is_free st || (is_rlocked st && true && n == 0)) ≡ true
    → (st ≡ free) ⊎ ((st ≡ rlocked) × (n ≡ 0))
free_or_read free n c = inl refl
free_or_read wlocked n c = absurd (ground arith)
free_or_read rlocked n c = inr (refl, ground arith)

pub free_only :
    (st : LockStatus) (n : ℕ)
    → (is_free st || (is_rlocked st && false && n == 0)) ≡ true
    → st ≡ free
free_only free n c = refl
free_only wlocked n c = absurd (ground arith)
free_only rlocked n c = absurd (ground arith)

acquire_new-IsValid :
    (s : WaitDie) (x : Req)
    → x.status ≡ wait
    → acquirable s x.type ≡ true
    → IsValid s
    → Keeps (acquire_new s x)
unfolding acquire_new enqueue write_acquire read_acquire
acquire_new-IsValid s x w c v =
    let waits : is_wait x.status ≡ true = ap is_wait w in
    let n : s.n_w_in_queue ≡ count_type is_write s.requests = v.writes_counted in
    elim (type-cases x.type) [
      | inl t ↦
          let reads : is_read x.type ≡ true = ap is_read t in
          let writes : is_write x.type ≡ false = ap is_write t in
          let c' = rw (reads, n) at c in
          rw (reads, waits)
            record {
              holds =
                  join_read s.held.status s.held.n_rlock s.requests (record x { status = lock }) t
                    refl (free_or_read s.held.status (count_type is_write s.requests) c') v.holds;
              reads_counted =
                  counted is_read s.n_r_in_queue s.requests (record x { status = lock }) x.type refl
                    v.reads_counted;
              writes_counted =
                  counted is_write s.n_w_in_queue s.requests (record x { status = lock }) x.type
                    refl v.writes_counted;
            }
      | inr t ↦
          let reads : is_read x.type ≡ false = ap is_read t in
          let writes : is_write x.type ≡ true = ap is_write t in
          let c' = rw reads at c in
          rw (reads, writes, waits)
            record {
              holds =
                  join_write s.held.status s.held.n_rlock s.requests (record x { status = lock }) t
                    refl (free_only s.held.status s.n_w_in_queue c') v.holds;
              reads_counted =
                  counted is_read s.n_r_in_queue s.requests (record x { status = lock }) x.type refl
                    v.reads_counted;
              writes_counted =
                  counted is_write s.n_w_in_queue s.requests (record x { status = lock }) x.type
                    refl v.writes_counted;
            }
    ]

-- A lock that is neither free nor acquirable for a read request has a write request in its queue.
read_wait_die-total :
    (priority : ℤ) (rs : List Req)
    → 0 < count_type is_write rs
    → Succeeds (λ w. Unit {0}) (read_wait_die priority rs)
unfolding read_wait_die count_type
read_wait_die-total priority [] h = absurd (omega arith)
read_wait_die-total priority (r ∷ rs) h = elim (Bool-cases (is_write r.type)) [
  | inl t ↦ rw t tt
  | inr t ↦ rw t (read_wait_die-total priority rs (ground arith))
]

pub count-reverse :
    (p : LockType → Bool) (rs : List Req) → count_type p (reverse rs) ≡ count_type p rs
unfolding count_type
count-reverse p [] = refl
count-reverse p (r ∷ rs) =
    rw (reverse-cons r rs, count-append p (reverse rs) (r ∷ []), count-reverse p rs) (omega arith)

conflicts :
    (st : LockStatus) (k : ℕ) (rs : List Req)
    → (is_free st || (is_rlocked st && true && count_type is_write rs == 0)) ≡ false
    → HoldsAs st k rs
    → 0 < count_type is_write rs
unfolding count_type
conflicts free k rs c h = absurd (ground arith)
conflicts wlocked k [] c h = elim h.1 [ ]
conflicts wlocked k (r ∷ rs) c h =
    let one : is_write r.type ≡ true = ap is_write h.1.0 in ground arith
conflicts rlocked k rs c h = ground arith

-- `verify(0)` at the end of the loop for a read request is not reached.
wait_die-total :
    (type : LockType) (priority : ℤ) (s : WaitDie)
    → IsValid s
    → acquirable s type ≡ false
    → Succeeds (λ w. Unit {0}) (wait_die type priority s.requests)
unfolding wait_die
wait_die-total wlock priority s v c = tt
wait_die-total rlock priority s v c =
    let n : s.n_w_in_queue ≡ count_type is_write s.requests = v.writes_counted in
    let c' = rw n at c in
    let some = conflicts s.held.status s.held.n_rlock s.requests c' v.holds in
    read_wait_die-total priority (reverse s.requests) (rw (count-reverse is_write s.requests) some)

-- `vlock` does not fail on a well-formed lock, and leaves a well-formed one.
pub vlock-IsValid :
    (type : LockType) (priority : ℤ) (s : WaitDie)
    → IsValid s
    → Succeeds (λ r. IsValid r.0) (vlock type priority s)
unfolding vlock
vlock-IsValid type priority s v =
    let s' : WaitDie = record s { next_id = suc s.next_id } in
    let v' : IsValid s' = record {
      holds = v.holds;
      reads_counted = v.reads_counted;
      writes_counted = v.writes_counted;
    } in
    let r : Req = record { id = s.next_id; priority = priority; type = type; status = wait } in
    Succeeds-if _ s.done_ _ _ (λ d. v')
      (λ d.
        Succeeds-if _ (acquirable s type) _ _
          (λ a.
            Succeeds-bind _ _ (acquire_new s' r) _ (acquire_new-IsValid s' r refl a v') (λ p w. w))
          (λ a.
            Succeeds-bind _ _ (wait_die type priority s.requests) _
              (wait_die-total type priority s v a)
              (λ w t.
                decided w (enqueue s' r, [], s.next_id) (s', refused s.next_id ∷ [], s.next_id)
                  (enqueue-IsValid s' r refl a v') v')))
  where
    decided :
        (w : WdStatus) (x y : WaitDie × List Call × ℕ)
        → IsValid x.0
        → IsValid y.0
        → IsValid (elim w as (λ u. WaitDie × List Call × ℕ) [ wd_wait ↦ x | wd_die ↦ y ]).0
    decided wd_wait x y p q = p
    decided wd_die x y p q = q
