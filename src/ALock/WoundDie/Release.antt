-- ===== src/ALock/WoundDie/Release.antt =====
-- `abort` of WoundDieALock keeps its queue well formed, and none of its `verify` calls fails.
use s_rpc.Base.{
  ℕ, ◌<◌, ◌≡◌, refl, sym, ap, ◌∙◌, ◌⊎◌, inl, inr, false, List, [], ◌∷◌, ◌++◌, arith, length, Option,
  none, some, ◌==◌, ◌&&◌, if◌then◌else◌,
}
use s_rpc.Base.Outcome.{Outcome, done, ◌>>=◌, verify, Succeeds, Succeeds-bind, Succeeds-if}
use s_rpc.ALock.{
  LockType, rlock, wlock, free, rlocked, wait, lock, Req, Call, is_read, is_write, is_wait,
  is_rlocked, decrement, write_acquire, read_acquire_all, reads_ahead, find, count_type,
}
use s_rpc.ALock.WaitDie.Queue.{Waiting, HeadWrite, Exact, find-split, Readers-last}
use s_rpc.ALock.WaitDie.Holds.{HoldsAs, leave_wait, leave_first_write, unlock_reader, unlock_writer}
use s_rpc.ALock.WaitDie.Steps.{
  of_write, of_not_write, reads_some, write_acquire_lem, decrement_lem, rlocked_lem, take_reads,
  verify_lem, read_of, write_of, wlocked_lem, of_wait, of_not_wait,
}
use s_rpc.ALock.WoundDie.{
  WoundDie, pass_on, abort_waiting, unlock_read, unlock_write, abort_held, abort,
}

-- What `sanity_check()` tests of `status_`, `n_rlock_` and the queue.
abbrev pub IsValid : WoundDie → Type 0
IsValid s = HoldsAs s.held.status s.held.n_rlock s.requests

abbrev Keeps : Outcome (WoundDie × List Call) → Type 0
Keeps m = Succeeds (λ r. IsValid r.0) m

pass_on-IsValid :
    (t : WoundDie) (before : List Req) (it : Req) (after : List Req)
    → (t.held.status ≡ rlocked) × (0 < t.held.n_rlock) × Exact t.held.n_rlock before × Waiting after
    → Keeps (pass_on t before it after)
unfolding pass_on
pass_on-IsValid t before it after (st, k, x, w) =
    Succeeds-bind (λ u. Unit {0}) _ (verify (is_rlocked t.held.status)) _
      (verify_lem _ (ap is_rlocked st))
      (λ u z.
        Succeeds-bind _ _ (read_acquire_all t.held (reads_ahead after).0) _
          (take_reads t.held before after t.held.n_rlock refl x w (inl st) (omega arith))
          (λ r d. d.1))

abort_waiting-IsValid :
    (s : WoundDie) (before : List Req) (it : Req) (after : List Req)
    → s.requests ≡ before ++ it ∷ after
    → it.status ≡ wait
    → IsValid s
    → Keeps (abort_waiting s before it after)
unfolding abort_waiting
abort_waiting-IsValid s before it after e w v =
    let h : HoldsAs s.held.status s.held.n_rlock (before ++ it ∷ after) = rw e at v in
    Succeeds-if _ (is_write it.type && count_type is_write before == 0) _ _
      (λ c.
        pass_on-IsValid (record s { requests = before ++ after }) before it after
          (leave_first_write s.held.status s.held.n_rlock before it after w (ground arith) h))
      (λ c.
        leave_wait s.held.status s.held.n_rlock before it after w
          (later it.type (count_type is_write before) c) h)
  where
    later : (t : LockType) (n : ℕ) → (is_write t && n == 0) ≡ false → (t ≡ rlock) ⊎ (0 < n)
    later rlock n c = inl refl
    later wlock n c = inr (ground arith)

-- The queue is empty: the lock is free.
release_all :
    (t : WoundDie) (before : List Req)
    → before ≡ []
    → t.requests ≡ before ++ []
    → t.held.n_rlock ≡ 0
    → Keeps (
        verify (length before == 0) >>= λ u.
        done (record t { held = record { status = free; n_rlock = t.held.n_rlock } }, []))
release_all t before b e k =
    Succeeds-bind _ _ (verify (length before == 0)) _ (verify_lem _ (rw b)) (λ u z. (e ∙ (rw b), k))

-- The next request takes the write lock.
write_next :
    (t : WoundDie) (before : List Req) (r : Req) (rest : List Req)
    → before ≡ []
    → t.held.n_rlock ≡ 0
    → r.type ≡ wlock
    → Waiting (r ∷ rest)
    → Keeps (
        write_acquire t.held r >>= λ a.
        done (record t { held = a.0; requests = before ++ a.1 ∷ rest }, a.2))
write_next t before r rest b k y w =
    Succeeds-bind _ _ (write_acquire t.held r) _ (write_acquire_lem t.held r y w.0)
      (λ a d. wlocked_lem a.0.status a.0.n_rlock before a.1 r rest d.0 (d.1 ∙ k) b d.2 y w.1)

unlock_read-IsValid :
    (t : WoundDie) (before after : List Req)
    → before ≡ []
    → t.requests ≡ before ++ after
    → t.held.n_rlock ≡ 0
    → Waiting after
    → HeadWrite after
    → Keeps (unlock_read t before after)
unfolding unlock_read
unlock_read-IsValid t before [] b e k w h = release_all t before b e k
unlock_read-IsValid t before (r ∷ rest) b e k w h = write_next t before r rest b k h w

unlock_write-IsValid :
    (t : WoundDie) (before after : List Req)
    → before ≡ []
    → t.requests ≡ before ++ after
    → t.held.n_rlock ≡ 0
    → Waiting after
    → Keeps (unlock_write t before after)
unfolding unlock_write
unlock_write-IsValid t before [] b e k w = release_all t before b e k
unlock_write-IsValid t before (r ∷ rest) b e k w =
    Succeeds-if _ (is_write r.type) _ _ (λ y. write_next t before r rest b k (of_write r.type y) w)
      (λ y.
        let some = reads_some r rest (of_not_write r.type y) in
        Succeeds-bind _ _ (read_acquire_all t.held (reads_ahead (r ∷ rest)).0) _
          (take_reads t.held before (r ∷ rest) 0 (sym k) (rw b tt) w (inr (k, some)) (omega arith))
          (λ a d.
            Succeeds-bind (λ u. Unit {0}) _ (verify (is_rlocked a.0.status)) _
              (verify_lem _ (ap is_rlocked d.0)) (λ u z. d.1)))

abort_held-IsValid :
    (s : WoundDie) (before : List Req) (it : Req) (after : List Req)
    → s.requests ≡ before ++ it ∷ after
    → it.status ≡ lock
    → IsValid s
    → Keeps (abort_held s before it after)
unfolding abort_held
abort_held-IsValid s before it after e l v =
    let h : HoldsAs s.held.status s.held.n_rlock (before ++ it ∷ after) = rw e at v in
    Succeeds-if _ (is_read it.type) _ _
      (λ t.
        let left : it.type ≡ rlock = read_of it.type t in
        let (st, readers, j, k, rest) =
          unlock_reader s.held.status s.held.n_rlock before it after l left h in
        Succeeds-bind _ _ (decrement s.held.n_rlock) _ (decrement_lem s.held.n_rlock j k) (λ i d.
          Succeeds-if _ (i == 0) _ _
            (λ z.
              let one : s.held.n_rlock ≡ 1 = ground arith in
              let (b, w, hd) = Readers-last before it after l (rw one at readers) in
              unlock_read-IsValid
                (record s {
                  requests = before ++ after;
                  held = record { status = s.held.status; n_rlock = i };
                })
                before after b refl (ground arith) w hd)
            (λ z. rlocked_lem s.held.status i (before ++ after) st (ground arith) (rw d rest))))
      (λ t.
        let left : it.type ≡ wlock = write_of it.type t in
        let (_, k, b, w) = unlock_writer s.held.status s.held.n_rlock before it after l left h in
        unlock_write-IsValid (record s { requests = before ++ after }) before after b refl k w)

-- `abort` of a WoundDieALock on a well-formed lock returns, with none of its `verify` calls failing
-- and its counter not below zero, and leaves a well-formed lock.
pub wounding_abort-IsValid :
    (id : ℕ) (s : WoundDie) → IsValid s → Succeeds (λ r. IsValid r.0) (abort id s)
unfolding abort
wounding_abort-IsValid id s v =
    Succeeds-if _ s.done_ _ _ (λ d. v) (λ d. act (find id s.requests) refl)
  where
    act :
        (o : Option (List Req × Req × List Req))
        → find id s.requests ≡ o
        → Keeps (elim o as (λ u. Outcome (WoundDie × List Call)) [
          | none ↦ done (s, [])
          | some (before, it, after) ↦
              if is_wait it.status
              then abort_waiting s before it after
              else abort_held s before it after
        ])
    act none e = v
    act (some (before, it, after)) e =
        let split = find-split id s.requests before it after e in
        Succeeds-if _ (is_wait it.status) _ _
          (λ w. abort_waiting-IsValid s before it after split (of_wait it.status w) v)
          (λ w. abort_held-IsValid s before it after split (of_not_wait it.status w) v)
