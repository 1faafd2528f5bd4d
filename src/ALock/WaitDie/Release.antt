-- ===== src/ALock/WaitDie/Release.antt =====
-- `abort` and the destructor of WaitDieALock keep its queue well formed, and none of their `verify`
-- calls fails.
use s_rpc.Base.{
  ℕ, ◌+◌, ◌≡◌, refl, sym, ap, ◌∙◌, inl, inr, Bool, true, false, List, [], ◌∷◌, ◌++◌, arith,
  if◌then◌else◌, ◌==◌, Bool-cases, length, Option, none, some,
}
use s_rpc.Base.Outcome.{Outcome, done, ◌>>=◌, verify, Succeeds, Succeeds-bind, Succeeds-if}
use s_rpc.ALock.{
  LockType, rlock, wlock, free, lock, Req, Call, is_read, is_write, is_wait, is_rlocked, decrement,
  write_acquire, read_acquire_all, reads_ahead, find, count_type,
}
use s_rpc.ALock.WaitDie.{WaitDie, abort_waiting, unlock_read, unlock_write, abort_held, abort}
use s_rpc.ALock.WaitDie.Queue.{Waiting, HeadWrite, count-append, find-split, Readers-last}
use s_rpc.ALock.WaitDie.Holds.{HoldsAs, unlock_reader, unlock_writer}
use s_rpc.ALock.WaitDie.Invariant.{IsValid, Keeps}
use s_rpc.ALock.WaitDie.Steps.{
  type_of, of_write, of_not_write, reads_some, write_acquire_lem, decrement_lem, rlocked_lem,
  take_reads, verify_lem, read_of, write_of, wlocked_lem, of_wait, of_not_wait,
}
use s_rpc.ALock.WaitDie.Passed.{counts_of, abort_waiting-IsValid}

-- The queue is empty: the lock is free.
release_all :
    (t : WaitDie) (before : List Req)
    → before ≡ []
    → t.requests ≡ before ++ []
    → t.held.n_rlock ≡ 0
    → t.n_r_in_queue ≡ count_type is_read t.requests
    → t.n_w_in_queue ≡ count_type is_write t.requests
    → Keeps {A = List Call} (
        verify (length before == 0) >>= λ u.
        done (record t { held = record { status = free; n_rlock = t.held.n_rlock } }, []))
release_all t before b e k nr nw =
    Succeeds-bind _ _ (verify (length before == 0)) _ (verify_lem _ (rw b))
      (λ u z. record { holds = (e ∙ (rw b), k); reads_counted = nr; writes_counted = nw })

-- The next request takes the write lock.
write_next :
    (t : WaitDie) (before : List Req) (r : Req) (rest : List Req)
    → before ≡ []
    → t.requests ≡ before ++ r ∷ rest
    → t.held.n_rlock ≡ 0
    → r.type ≡ wlock
    → Waiting (r ∷ rest)
    → t.n_r_in_queue ≡ count_type is_read t.requests
    → t.n_w_in_queue ≡ count_type is_write t.requests
    → Keeps (
        write_acquire t.held r >>= λ a.
        done (record t { held = a.0; requests = before ++ a.1 ∷ rest }, a.2))
unfolding count_type
write_next t before r rest b e k y w nr nw =
    Succeeds-bind _ _ (write_acquire t.held r) _ (write_acquire_lem t.held r y w.0) (λ a d. record {
      holds = wlocked_lem a.0.status a.0.n_rlock before a.1 r rest d.0 (d.1 ∙ k) b d.2 y w.1;
      reads_counted = nr ∙ rejoin is_read a.1 d.2;
      writes_counted = nw ∙ rejoin is_write a.1 d.2;
    })
  where
    rejoin :
        (p : LockType → Bool) (x : Req)
        → x ≡ record r { status = lock }
        → count_type p t.requests ≡ count_type p (before ++ x ∷ rest)
    rejoin p x q =
        rw (e, count-append p before (r ∷ rest), count-append p before (x ∷ rest))
          (ap (λ u. count_type p before + ((if p u then 1 else 0) + count_type p rest))
            (sym (ap type_of q)))

unlock_read-IsValid :
    (t : WaitDie) (before after : List Req)
    → before ≡ []
    → t.requests ≡ before ++ after
    → t.held.n_rlock ≡ 0
    → Waiting after
    → HeadWrite after
    → t.n_r_in_queue ≡ count_type is_read t.requests
    → t.n_w_in_queue ≡ count_type is_write t.requests
    → Keeps (unlock_read t before after)
unfolding unlock_read
unlock_read-IsValid t before [] b e k w h nr nw = release_all t before b e k nr nw
unlock_read-IsValid t before (r ∷ rest) b e k w h nr nw = write_next t before r rest b e k h w nr nw

unlock_write-IsValid :
    (t : WaitDie) (before after : List Req)
    → before ≡ []
    → t.requests ≡ before ++ after
    → t.held.n_rlock ≡ 0
    → Waiting after
    → t.n_r_in_queue ≡ count_type is_read t.requests
    → t.n_w_in_queue ≡ count_type is_write t.requests
    → Keeps (unlock_write t before after)
unfolding unlock_write
unlock_write-IsValid t before [] b e k w nr nw = release_all t before b e k nr nw
unlock_write-IsValid t before (r ∷ rest) b e k w nr nw =
    Succeeds-if _ (is_write r.type) _ _
      (λ y. write_next t before r rest b e k (of_write r.type y) w nr nw)
      (λ y.
        let some = reads_some r rest (of_not_write r.type y) in
        Succeeds-bind _ _ (read_acquire_all t.held (reads_ahead (r ∷ rest)).0) _
          (take_reads t.held before (r ∷ rest) 0 (sym k) (rw b tt) w (inr (k, some)) (omega arith))
          (λ a d.
            Succeeds-bind (λ u. Unit {0}) _ (verify (is_rlocked a.0.status)) _
              (verify_lem _ (ap is_rlocked d.0))
              (λ u z. record {
                holds = d.1;
                reads_counted = nr ∙ (ap (count_type is_read) e ∙ sym (d.2 is_read));
                writes_counted = nw ∙ (ap (count_type is_write) e ∙ sym (d.2 is_write));
              })))

-- A request that holds the lock for reading is taken out.
abort_reader :
    (s : WaitDie) (before : List Req) (it : Req) (after : List Req)
    → s.requests ≡ before ++ it ∷ after
    → it.status ≡ lock
    → is_read it.type ≡ true
    → IsValid s
    → Keeps (abort_held s before it after)
unfolding abort_held
abort_reader s before it after e l t v =
    let h : HoldsAs s.held.status s.held.n_rlock (before ++ it ∷ after) = rw e at v.holds in
    let (nr, nw) = counts_of s before it after e v in
    let left : it.type ≡ rlock = read_of it.type t in
    let out : is_write it.type ≡ false = ap is_write left in
    let (st, readers, j, k, rest) =
      unlock_reader s.held.status s.held.n_rlock before it after l left h in
    rw t (
      Succeeds-bind _ _ (decrement s.n_r_in_queue) _
        (decrement_lem s.n_r_in_queue (count_type is_read (before ++ after))
          (nr ∙ (rw t (omega arith))))
        (λ n m.
          Succeeds-bind _ _ (decrement s.held.n_rlock) _ (decrement_lem s.held.n_rlock j k) (λ i d.
            Succeeds-if _ (i == 0) _ _
              (λ z.
                let one : s.held.n_rlock ≡ 1 = ground arith in
                let (b, w, hd) = Readers-last before it after l (rw one at readers) in
                unlock_read-IsValid
                  (record s {
                    requests = before ++ after;
                    n_r_in_queue = n;
                    held = record { status = s.held.status; n_rlock = i };
                  })
                  before after b refl (ground arith) w hd m (nw ∙ (rw out (omega arith))))
              (λ z. record {
                holds = rlocked_lem s.held.status i (before ++ after) st (ground arith) (rw d rest);
                reads_counted = m;
                writes_counted = nw ∙ (rw out (omega arith));
              }))))

-- And one that holds it for writing.
abort_writer :
    (s : WaitDie) (before : List Req) (it : Req) (after : List Req)
    → s.requests ≡ before ++ it ∷ after
    → it.status ≡ lock
    → is_read it.type ≡ false
    → IsValid s
    → Keeps (abort_held s before it after)
unfolding abort_held
abort_writer s before it after e l t v =
    let h : HoldsAs s.held.status s.held.n_rlock (before ++ it ∷ after) = rw e at v.holds in
    let (nr, nw) = counts_of s before it after e v in
    let left : it.type ≡ wlock = write_of it.type t in
    let out : is_write it.type ≡ true = ap is_write left in
    let (_, k, b, w) = unlock_writer s.held.status s.held.n_rlock before it after l left h in
    rw t (
      Succeeds-bind _ _ (decrement s.n_w_in_queue) _
        (decrement_lem s.n_w_in_queue (count_type is_write (before ++ after))
          (nw ∙ (rw out (omega arith))))
        (λ n m.
          unlock_write-IsValid (record s { requests = before ++ after; n_w_in_queue = n }) before
            after b refl k w (nr ∙ (rw t (omega arith))) m))

abort_held-IsValid :
    (s : WaitDie) (before : List Req) (it : Req) (after : List Req)
    → s.requests ≡ before ++ it ∷ after
    → it.status ≡ lock
    → IsValid s
    → Keeps (abort_held s before it after)
abort_held-IsValid s before it after e l v = elim (Bool-cases (is_read it.type)) [
  | inl t ↦ abort_reader s before it after e l t v
  | inr t ↦ abort_writer s before it after e l t v
]

-- `abort` does not fail on a well-formed lock, and leaves a well-formed one.
pub abort-IsValid : (id : ℕ) (s : WaitDie) → IsValid s → Succeeds (λ r. IsValid r.0) (abort id s)
unfolding abort
abort-IsValid id s v = Succeeds-if _ s.done_ _ _ (λ d. v) (λ d. act (find id s.requests) refl)
  where
    act :
        (o : Option (List Req × Req × List Req))
        → find id s.requests ≡ o
        → Keeps (elim o as (λ u. Outcome (WaitDie × List Call)) [
          | none ↦ done (s, [])
          | some (before, it, after) ↦
              if is_wait it.status
              then abort_waiting s before it after
              else abort_held s before it after
        ])
    act none e = v
    act (some (before, it, after)) e =
        let split = find-split id s.requests before it after e in
        Succeeds-if _ (is_wait it.status) _ _
          (λ w. abort_waiting-IsValid s before it after split (of_wait it.status w) v)
          (λ w. abort_held-IsValid s before it after split (of_not_wait it.status w) v)
