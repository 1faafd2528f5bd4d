-- ===== src/ALock/WaitDie/Steps.antt =====
-- What the steps that grant and release a lock do to `status_`, `n_rlock_` and the requests.
use s_rpc.Base.{
  ℕ, zero, suc, ◌+◌, ◌<◌, ◌≡◌, refl, sym, ap, ◌∙◌, ◌⊎◌, Bool, true, false, List, [], ◌∷◌, ◌++◌,
  arith, if◌then◌else◌, length,
}
use s_rpc.Base.Outcome.{done, verify, Succeeds, Succeeds-map}
use s_rpc.ALock.{
  LockType, rlock, wlock, LockStatus, free, wlocked, rlocked, wait, lock, Req, Call, is_read,
  is_write, is_wait, Lock, decrement, write_acquire, read_acquire_all, reads_ahead, grant_all,
  count_type, ReqStatus,
}
use s_rpc.ALock.WaitDie.Queue.{Waiting, Exact, Readers, count-append, Exact-append, grant_ahead}
use s_rpc.ALock.WaitDie.Holds.{HoldsAs}

abbrev pub type_of : Req → LockType
type_of r = r.type

abbrev pub status_of : Req → ReqStatus
status_of r = r.status

pub of_write : (t : LockType) → is_write t ≡ true → t ≡ wlock
of_write rlock e = absurd (ground arith)
of_write wlock e = refl

pub of_not_write : (t : LockType) → is_write t ≡ false → is_read t ≡ true
of_not_write rlock e = refl
of_not_write wlock e = absurd (ground arith)

pub reads_some :
    (r : Req) (rest : List Req) → is_read r.type ≡ true → 0 < length (reads_ahead (r ∷ rest)).0
unfolding reads_ahead
reads_some r rest e = rw e (omega arith)

pub write_acquire_lem :
    (l : Lock) (r : Req)
    → r.type ≡ wlock
    → r.status ≡ wait
    → Succeeds
        (λ a.
          (a.0.status ≡ wlocked) × (a.0.n_rlock ≡ l.n_rlock) × (a.1 ≡ record r { status = lock }))
        (write_acquire l r)
unfolding write_acquire
write_acquire_lem l r t w =
    let writes : is_write r.type ≡ true = ap is_write t in
    let waits : is_wait r.status ≡ true = ap is_wait w in rw (writes, waits) (refl, refl, refl)

pub decrement_lem : (n m : ℕ) → n ≡ suc m → Succeeds (λ k. k ≡ m) (decrement n)
unfolding decrement
decrement_lem zero m e = absurd (omega arith)
decrement_lem (suc n) m e = omega arith

-- The counters when a request leaves.
pub counted_out :
    (p : LockType → Bool) (before : List Req) (it : Req) (after : List Req)
    → count_type p (before ++ it ∷ after)
      ≡ (if p it.type then 1 else 0) + count_type p (before ++ after)
unfolding count_type
counted_out p before it after =
    rw (count-append p before (it ∷ after), count-append p before after) (omega arith)

acquire_all_lem :
    (l : Lock) (reads qs : List Req) (calls : List Call)
    → grant_all reads ≡ done (qs, calls)
    → (l.status ≡ rlocked) ⊎ ((l.n_rlock ≡ 0) × (0 < length reads))
    → Succeeds
        (λ r. (r.0.status ≡ rlocked) × (r.0.n_rlock ≡ l.n_rlock + length reads) × (r.1 ≡ qs))
        (read_acquire_all l reads)
unfolding read_acquire_all grant_all
acquire_all_lem l [] qs calls e c = (ground arith, omega arith, cc)
acquire_all_lem l (r ∷ rs) qs calls e c = rw e (ground arith, refl, refl)

pub rlocked_lem :
    (st : LockStatus) (n : ℕ) (rs : List Req)
    → st ≡ rlocked
    → 0 < n
    → Readers n rs
    → HoldsAs st n rs
rlocked_lem free n rs e h r = absurd (ground arith)
rlocked_lem wlocked n rs e h r = absurd (ground arith)
rlocked_lem rlocked n rs e h r = (h, r)

-- The next read requests take the lock.
pub take_reads :
    (l : Lock) (before rs : List Req) (k : ℕ)
    → k ≡ l.n_rlock
    → Exact k before
    → Waiting rs
    → (l.status ≡ rlocked) ⊎ ((l.n_rlock ≡ 0) × (0 < length (reads_ahead rs).0))
    → 0 < l.n_rlock + length (reads_ahead rs).0
    → Succeeds
        (λ r.
          (r.0.status ≡ rlocked)
          × HoldsAs r.0.status r.0.n_rlock (before ++ (r.1 ++ (reads_ahead rs).1))
          × ((p : LockType → Bool)
              → count_type p (before ++ (r.1 ++ (reads_ahead rs).1)) ≡ count_type p (before ++ rs)))
        (read_acquire_all l (reads_ahead rs).0)
take_reads l before rs k e x w c n =
    let (qs, calls, g, y, v, h, m) = grant_ahead rs w in
    Succeeds-map _ _ (read_acquire_all l (reads_ahead rs).0)
      (acquire_all_lem l (reads_ahead rs).0 qs calls g c)
      (λ r d.
        let held : Readers r.0.n_rlock (before ++ (r.1 ++ (reads_ahead rs).1)) =
          rw (d.1, d.2, sym e)
            (Exact-append k (length (reads_ahead rs).0) before qs (reads_ahead rs).1 x y v h) in
        (
          d.0,
          rlocked_lem r.0.status r.0.n_rlock _ d.0 (omega arith) held,
          λ p. rw (
            d.2,
            count-append p before (qs ++ (reads_ahead rs).1),
            count-append p before rs,
            m p,
          ),
        ))

pub verify_lem : (b : Bool) → b ≡ true → Succeeds (λ u. Unit {0}) (verify b)
verify_lem true e = tt
verify_lem false e = absurd (ground arith)

pub read_of : (t : LockType) → is_read t ≡ true → t ≡ rlock
read_of rlock e = refl
read_of wlock e = absurd (ground arith)

pub write_of : (t : LockType) → is_read t ≡ false → t ≡ wlock
write_of rlock e = absurd (ground arith)
write_of wlock e = refl

pub wlocked_lem :
    (st : LockStatus) (n : ℕ) (before : List Req) (x r : Req) (rest : List Req)
    → st ≡ wlocked
    → n ≡ 0
    → before ≡ []
    → x ≡ record r { status = lock }
    → r.type ≡ wlock
    → Waiting rest
    → HoldsAs st n (before ++ x ∷ rest)
wlocked_lem free n before x r rest e k b q t w = absurd (ground arith)
wlocked_lem wlocked n before x r rest e k b q t w = rw b (k, (ap type_of q ∙ t, ap status_of q, w))
wlocked_lem rlocked n before x r rest e k b q t w = absurd (ground arith)

pub of_not_wait : (t : ReqStatus) → is_wait t ≡ false → t ≡ lock
of_not_wait wait e = absurd (ground arith)
of_not_wait lock e = refl

pub of_wait : (t : ReqStatus) → is_wait t ≡ true → t ≡ wait
of_wait wait e = refl
of_wait lock e = absurd (ground arith)
