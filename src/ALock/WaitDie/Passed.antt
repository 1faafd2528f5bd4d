-- ===== src/ALock/WaitDie/Passed.antt =====
-- A request that waits in the queue of a WaitDieALock is aborted.
use s_rpc.Base.{
  ◌+◌, ◌<◌, ◌≡◌, refl, sym, ap, ◌∙◌, inl, inr, true, false, List, ◌∷◌, ◌++◌, arith, if◌then◌else◌,
  ◌==◌,
}
use s_rpc.Base.Outcome.{verify, Succeeds-bind, Succeeds-if}
use s_rpc.ALock.{
  rlock, wlock, rlocked, wait, Req, is_read, is_write, is_rlocked, decrement, read_acquire_all,
  reads_ahead, count_type,
}
use s_rpc.ALock.WaitDie.{WaitDie, pass_on, abort_waiting}
use s_rpc.ALock.WaitDie.Queue.{Waiting, Exact}
use s_rpc.ALock.WaitDie.Holds.{HoldsAs, leave_wait, leave_first_write}
use s_rpc.ALock.WaitDie.Invariant.{IsValid, Keeps}
use s_rpc.ALock.WaitDie.Steps.{
  decrement_lem, take_reads, verify_lem, read_of, write_of, counted_out,
}

pub counts_of :
    (s : WaitDie) (before : List Req) (it : Req) (after : List Req)
    → s.requests ≡ before ++ it ∷ after
    → IsValid s
    → (s.n_r_in_queue ≡ (if is_read it.type then 1 else 0) + count_type is_read (before ++ after))
      × (s.n_w_in_queue
          ≡ (if is_write it.type then 1 else 0) + count_type is_write (before ++ after))
counts_of s before it after e v = (
  v.reads_counted ∙ ap (count_type is_read) e ∙ counted_out is_read before it after,
  v.writes_counted ∙ ap (count_type is_write) e ∙ counted_out is_write before it after,
)

pass_on-IsValid :
    (t : WaitDie) (before : List Req) (it : Req) (after : List Req)
    → (t.held.status ≡ rlocked) × (0 < t.held.n_rlock) × Exact t.held.n_rlock before × Waiting after
    → t.n_r_in_queue ≡ count_type is_read (before ++ after)
    → t.n_w_in_queue ≡ count_type is_write (before ++ after)
    → Keeps (pass_on t before it after)
unfolding pass_on
pass_on-IsValid t before it after (st, k, x, w) nr nw =
    Succeeds-bind (λ u. Unit {0}) _ (verify (is_rlocked t.held.status)) _
      (verify_lem _ (ap is_rlocked st))
      (λ u z.
        Succeeds-bind _ _ (read_acquire_all t.held (reads_ahead after).0) _
          (take_reads t.held before after t.held.n_rlock refl x w (inl st) (omega arith))
          (λ r d. record {
            holds = d.1;
            reads_counted = nr ∙ sym (d.2 is_read);
            writes_counted = nw ∙ sym (d.2 is_write);
          }))

pub abort_waiting-IsValid :
    (s : WaitDie) (before : List Req) (it : Req) (after : List Req)
    → s.requests ≡ before ++ it ∷ after
    → it.status ≡ wait
    → IsValid s
    → Keeps (abort_waiting s before it after)
unfolding abort_waiting
abort_waiting-IsValid s before it after e w v =
    let h : HoldsAs s.held.status s.held.n_rlock (before ++ it ∷ after) = rw e at v.holds in
    let (nr, nw) = counts_of s before it after e v in
    Succeeds-if _ (is_read it.type) _ _
      (λ t.
        let left : it.type ≡ rlock = read_of it.type t in
        let out : is_write it.type ≡ false = ap is_write left in
        Succeeds-bind _ _ (decrement s.n_r_in_queue) _
          (decrement_lem s.n_r_in_queue (count_type is_read (before ++ after))
            (nr ∙ (rw t (omega arith))))
          (λ n m. record {
            holds = leave_wait s.held.status s.held.n_rlock before it after w (inl left) h;
            reads_counted = m;
            writes_counted = nw ∙ (rw out (omega arith));
          }))
      (λ t.
        let left : it.type ≡ wlock = write_of it.type t in
        let out : is_write it.type ≡ true = ap is_write left in
        Succeeds-bind _ _ (decrement s.n_w_in_queue) _
          (decrement_lem s.n_w_in_queue (count_type is_write (before ++ after))
            (nw ∙ (rw out (omega arith))))
          (λ n m.
            Succeeds-if _ (count_type is_write before == 0) _ _
              (λ z.
                pass_on-IsValid (record s { requests = before ++ after; n_w_in_queue = n }) before
                  it after
                  (leave_first_write s.held.status s.held.n_rlock before it after w (ground arith)
                    h)
                  (nr ∙ (rw t (omega arith))) m)
              (λ z. record {
                holds =
                    leave_wait s.held.status s.held.n_rlock before it after w (inr (ground arith))
                      h;
                reads_counted = nr ∙ (rw t (omega arith));
                writes_counted = m;
              })))
