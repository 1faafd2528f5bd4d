-- ===== src/ALock/Timeout/Release.antt =====
-- `abort` of a well-formed TimeoutALock.
use s_rpc.Base.{
  ℕ, suc, ◌+◌, ◌<◌, ◌≡◌, refl, sym, ap, ◌∙◌, ◌⊎◌, inl, inr, Bool, true, false, ◌&&◌, List, [],
  arith, if◌then◌else◌, ◌==◌, Option, none, some,
}
use s_rpc.Base.Outcome.{Outcome, done, verify, Succeeds, Succeeds-bind, Succeeds-if, Succeeds-map}
use s_rpc.Alarm.{Alarm}
use s_rpc.ALock.{LockStatus, free, wlocked, rlocked, Call, is_read, is_write, is_free, decrement}
use s_rpc.ALock.WaitDie.Steps.{decrement_lem, verify_lem, read_of, write_of}
use s_rpc.ALock.Timeout.{
  TimedStatus, waiting, locked, unlocked, aborted, timed_out, TimedReq, TimeoutLock, lock_all, find,
  release, settle, abort_found, abort,
}
use s_rpc.ALock.Timeout.Held.{
  is_locked, is_queued, reads_held, writes_held, waits, gone, count, Fits, count-find, rlocked_lem,
}
use s_rpc.ALock.Timeout.First.{lock_first_lem}
use s_rpc.ALock.Timeout.Invariant.{IsValid, when_reads, when_writes, with_fewer}

abbrev Keeps : Outcome (TimeoutLock × Alarm × List Call) → Type 0
Keeps m = Succeeds (λ r. IsValid r.0) m

-- A lock that nobody holds is passed on.
lock_all-IsValid :
    (s : TimeoutLock) (alarm : Alarm)
    → s.held.status ≡ free
    → s.held.n_rlock ≡ 0
    → count reads_held s.requests ≡ 0
    → count writes_held s.requests ≡ 0
    → count gone s.requests ≡ 0
    → Keeps (lock_all s alarm)
unfolding lock_all
lock_all-IsValid s alarm f n r w g =
    let free' : is_free s.held.status ≡ true = ap is_free f in
    Succeeds-bind (λ u. Unit {0}) _ (verify (is_free s.held.status && s.held.n_rlock == 0)) _
      (verify_lem _ (ground arith)) (λ u z. lock_first_lem s.held alarm s.requests f n r w g)

free_status :
    (n : ℕ) (st : LockStatus)
    → (n ≡ 0) ⊎ (st ≡ rlocked)
    → is_free (if n == 0 then free else st) ≡ true
    → n ≡ 0
free_status n st c f = elim c [
  | inl z ↦ z
  | inr e ↦ let r : is_free st ≡ false = ap is_free e in ground arith
]

status_free : (st : LockStatus) → is_free st ≡ true → st ≡ free
status_free free e = refl
status_free wlocked e = absurd (ground arith)
status_free rlocked e = absurd (ground arith)

settle-IsValid :
    (s : TimeoutLock) (alarm : Alarm) (n : ℕ) (others : List TimedReq)
    → n ≡ count reads_held others
    → count writes_held others ≡ 0
    → count gone others ≡ 0
    → (n ≡ 0) ⊎ (s.held.status ≡ rlocked)
    → Keeps (settle s alarm n others)
unfolding settle
settle-IsValid s alarm n others r w g c =
    let status = if n == 0 then free else s.held.status in
    Succeeds-if _ (is_free status) _ _
      (λ f.
        let z : n ≡ 0 = free_status n s.held.status c f in
        lock_all-IsValid
          (record s { held = record { status = status; n_rlock = n }; requests = others }) alarm
          (status_free status f) z (sym r ∙ z) w g)
      (λ f.
        let nz : (n == 0) ≡ false = ground arith in
        let st : s.held.status ≡ rlocked = elim c [ inl z ↦ absurd (ground arith) | inr e ↦ e ] in
        record {
          held = rlocked_lem status n _ _ (rw nz st) (ground arith) w;
          readers = r;
          queued = g;
        })

release-IsValid :
    (s : TimeoutLock) (alarm : Alarm) (it : TimedReq) (others : List TimedReq)
    → ((p : TimedReq → Bool) → count p s.requests ≡ (if p it then 1 else 0) + count p others)
    → it.status ≡ locked
    → IsValid s
    → Keeps (release s alarm it others)
unfolding release
release-IsValid s alarm it others e l v =
    let on : is_locked it.status ≡ true = ap is_locked l in
    let r = e reads_held in
    let w = e writes_held in
    let g = e gone in
    let n = v.readers in
    let q = v.queued in
    let others_queued : count gone others ≡ 0 = omega arith in
    Succeeds-bind
      (λ k.
        (k ≡ count reads_held others)
        × (count writes_held others ≡ 0)
        × ((k ≡ 0) ⊎ (s.held.status ≡ rlocked)))
      (λ (a : TimeoutLock × Alarm × List Call). IsValid a.0)
      (if is_read it.type then decrement s.held.n_rlock else done s.held.n_rlock)
      (λ k. settle s alarm k others)
      (Succeeds-if _ (is_read it.type) _ _
        (λ t.
          let writes : is_write it.type ≡ false = ap is_write (read_of it.type t) in
          let some_read : 0 < s.held.n_rlock = ground arith in
          let (st, none_write) = when_reads s.held.status _ _ _ v.held some_read in
          let others_read : s.held.n_rlock ≡ suc (count reads_held others) = ground arith in
          Succeeds-map _ _ (decrement s.held.n_rlock)
            (decrement_lem s.held.n_rlock (count reads_held others) others_read)
            (λ k m. (m, omega arith, inr st)))
        (λ t.
          let writes : is_write it.type ≡ true = ap is_write (write_of it.type t) in
          let some_write : 0 < count writes_held s.requests = ground arith in
          let (none_read, one) = when_writes s.held.status _ _ _ v.held some_write in
          (ground arith, ground arith, inl none_read)))
      (λ k m. settle-IsValid s alarm k others m.0 m.1 others_queued m.2)

-- A request that does not hold the lock leaves.
leave :
    (s : TimeoutLock) (it : TimedReq) (others : List TimedReq)
    → is_locked it.status ≡ false
    → ((p : TimedReq → Bool) → count p s.requests ≡ (if p it then 1 else 0) + count p others)
    → IsValid s
    → Fits s.held others
leave s it others f e v =
    let r = e reads_held in
    let w = e writes_held in
    let g = e gone in
    let a = e waits in
    let n = v.readers in
    let q = v.queued in
    let w' : count writes_held others ≡ count writes_held s.requests = ground arith in
    record {
      held =
          with_fewer s.held.status s.held.n_rlock (count writes_held others)
            (count waits s.requests) (count waits others) (rw w' v.held) (omega arith);
      readers = ground arith;
      queued = omega arith;
    }

abort_found-IsValid :
    (st : TimedStatus) (s : TimeoutLock) (alarm : Alarm) (it : TimedReq) (others : List TimedReq)
    → it.status ≡ st
    → ((p : TimedReq → Bool) → count p s.requests ≡ (if p it then 1 else 0) + count p others)
    → IsValid s
    → Keeps (abort_found st s alarm it others)
unfolding abort_found
abort_found-IsValid locked s alarm it others l e v = release-IsValid s alarm it others e l v
abort_found-IsValid waiting s alarm it others l e v = leave s it others (ap is_locked l) e v
abort_found-IsValid timed_out s alarm it others l e v = leave s it others (ap is_locked l) e v
abort_found-IsValid unlocked s alarm it others l e v =
    let out : is_queued it.status ≡ false = ap is_queued l in
    let g = e gone in let q = v.queued in absurd (ground arith)
abort_found-IsValid aborted s alarm it others l e v =
    let out : is_queued it.status ≡ false = ap is_queued l in
    let g = e gone in let q = v.queued in absurd (ground arith)

-- `abort` on a well-formed lock returns, with none of its `verify` calls failing and no counter below
-- zero, and leaves a well-formed lock.
pub timed_abort-IsValid :
    (id : ℕ) (s : TimeoutLock) (alarm : Alarm)
    → IsValid s
    → Succeeds (λ r. IsValid r.0) (abort id s alarm)
unfolding abort
timed_abort-IsValid id s alarm v = act (find id s.requests) refl
  where
    act :
        (o : Option (TimedReq × List TimedReq))
        → find id s.requests ≡ o
        → Succeeds
            (λ r. IsValid r.0)
            (elim o as (λ u. Outcome (TimeoutLock × Alarm × List Call)) [
              | none ↦ done (s, alarm, [])
              | some (it, others) ↦ abort_found it.status s alarm it others
            ])
    act none e = v
    act (some (it, others)) e =
        abort_found-IsValid it.status s alarm it others refl
          (λ p. count-find p id s.requests it others e) v
