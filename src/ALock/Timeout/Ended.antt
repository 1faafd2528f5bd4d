-- ===== src/ALock/Timeout/Ended.antt =====
-- The alarms of a well-formed TimeoutALock, and its destructor.
use s_rpc.Base.{ℕ, ◌≤◌, ◌≡◌, refl, sym, ◌∙◌, inl, inr, true, List, [], ◌∷◌, arith, ◌==◌, Bool-cases}
use s_rpc.Base.Outcome.{Outcome, Succeeds, Succeeds-bind}
use s_rpc.Alarm.{Alarm, remove}
use s_rpc.ALock.{Call}
use s_rpc.ALock.Timeout.{
  TimedStatus, waiting, locked, unlocked, aborted, timed_out, TimedReq, TimeoutLock, is_waiting,
  cas_waiting, do_timeout, ring, destroy, dismiss,
}
use s_rpc.ALock.Timeout.Held.{is_queued, reads_held, writes_held, waits, gone, count}
use s_rpc.ALock.Timeout.Invariant.{IsValid, with_fewer}

ring_lem :
    (id : ℕ) (rs : List TimedReq)
    → let r = ring id rs in
      (count reads_held r.0 ≡ count reads_held rs)
      × (count writes_held r.0 ≡ count writes_held rs)
      × (count gone r.0 ≡ count gone rs)
      × (count waits r.0 ≤ count waits rs)
unfolding ring do_timeout cas_waiting count
ring_lem id [] = (refl, refl, refl, omega arith)
ring_lem id (r ∷ rs) =
    let (a, b, c, d) = ring_lem id rs in
    elim (Bool-cases (r.id == id)) [
      | inl t ↦ elim (Bool-cases (is_waiting r.status)) [
        | inl w ↦ rw (t, w) (ground arith, ground arith, ground arith, ground arith)
        | inr w ↦ rw (t, w, w) (refl, refl, refl, ground arith)
      ]
      | inr t ↦ rw t (omega arith, omega arith, omega arith, omega arith)
    ]

-- An alarm that rings for a request of a well-formed lock leaves a well-formed lock.
ring-IsValid :
    (id : ℕ) (s : TimeoutLock)
    → IsValid s
    → IsValid (record s { requests = (ring id s.requests).0 })
ring-IsValid id s v =
    let (a, b, c, d) = ring_lem id s.requests in
    let rs = (ring id s.requests).0 in
    record {
      held =
          with_fewer s.held.status s.held.n_rlock (count writes_held rs) (count waits s.requests)
            (count waits rs) (rw b v.held) d;
      readers = v.readers ∙ sym a;
      queued = c ∙ v.queued;
    }

dismiss_lem :
    (st : TimedStatus) (id : ℕ) (x y : Outcome (Alarm × List Call))
    → is_queued st ≡ true
    → Succeeds (λ r. Unit {0}) x
    → Succeeds (λ r. Unit {0}) y
    → Succeeds (λ r. Unit {0}) (dismiss st id x y)
unfolding dismiss
dismiss_lem locked id x y q a b = a
dismiss_lem waiting id x y q a b = Succeeds-bind _ _ y _ b (λ r u. tt)
dismiss_lem timed_out id x y q a b = a
dismiss_lem unlocked id x y q a b = absurd (ground arith)
dismiss_lem aborted id x y q a b = absurd (ground arith)

-- The destructor of a well-formed lock returns: its `verify(0)` is not reached.
destroy-total :
    (s : TimeoutLock) (alarm : Alarm)
    → IsValid s
    → Succeeds (λ r. Unit {0}) (destroy s.requests alarm)
unfolding destroy count
destroy-total s alarm v = go s.requests alarm v.queued
  where
    go :
        (rs : List TimedReq) (alarm : Alarm)
        → count gone rs ≡ 0
        → Succeeds (λ r. Unit {0}) (destroy rs alarm)
    go [] alarm g = tt
    go (r ∷ rs) alarm g =
        dismiss_lem r.status r.id _ _ (ground arith) (go rs alarm (omega arith))
          (go rs (remove r.alarm_id alarm).0 (omega arith))
