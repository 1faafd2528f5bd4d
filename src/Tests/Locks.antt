-- ===== src/Tests/Locks.antt =====
-- The theorems on the asynchronous locks at concrete queues.
use s_rpc.Base.{◌≡◌, refl, inr, false, [], ◌∷◌, ◌++◌}
use s_rpc.Base.Int.{pos}
use s_rpc.Base.Outcome.{Succeeds}
use s_rpc.ALock.{rlock, wlock, wlocked, wait, lock, Req, granted, write_acquire, count_type}
use s_rpc.ALock.WaitDie.{WaitDie, new_lock, vlock, abort}
use s_rpc.ALock.WaitDie.Queue.{Waiting}
use s_rpc.ALock.WaitDie.Invariant.{IsValid, vlock-IsValid}
use s_rpc.ALock.WaitDie.Joined.{vlock-Ordered}
use s_rpc.ALock.WaitDie.Kept.{abort-Ordered}
use s_rpc.ALock.WaitDie.Order.{Ordered}
use mathlib.Core.List.{reverse}
use s_rpc.ALock.WaitDie.Exclusion.{Reach, start, after_vlock, write_exclusive, first_holds}

-- A writer holds the lock, and a reader waits.
abbrev writer : Req
writer = record { id = 1; priority = pos 9; type = wlock; status = lock }

abbrev reader : Req
reader = record { id = 2; priority = pos 4; type = rlock; status = wait }

abbrev busy : WaitDie
busy = record {
  next_id = 3;
  held = record { status = wlocked; n_rlock = 0 };
  done_ = false;
  requests = writer ∷ reader ∷ [];
  n_r_in_queue = 1;
  n_w_in_queue = 1;
}

busy-IsValid : IsValid busy
unfolding count_type
busy-IsValid = record {
  holds = (refl, (refl, refl, (refl, tt)));
  reads_counted = refl;
  writes_counted = refl;
}

vlock-IsValid_example : Succeeds (λ r. IsValid r.0) (vlock wlock (pos 3) busy)
vlock-IsValid_example = vlock-IsValid wlock (pos 3) busy busy-IsValid

-- The lock after its first request.
abbrev first : WaitDie
first = record {
  next_id = 2;
  held = record { status = wlocked; n_rlock = 0 };
  done_ = false;
  requests = writer ∷ [];
  n_r_in_queue = 0;
  n_w_in_queue = 1;
}

first-Reach : Reach first
unfolding vlock write_acquire
first-Reach = after_vlock wlock (pos 9) new_lock first (granted 1 ∷ []) 1 start refl

write_exclusive_example : (first.held.status ≡ wlocked) × Waiting ([] ++ [])
write_exclusive_example = write_exclusive first [] writer [] first-Reach refl refl refl

first_holds_example : writer.status ≡ lock
first_holds_example = first_holds first writer [] first-Reach refl

abort-Ordered_example : Succeeds (λ r. IsValid r.0 × Ordered (reverse r.0.requests)) (abort 1 busy)
abort-Ordered_example = abort-Ordered 1 busy busy-IsValid ((inr refl, tt), (tt, tt))

vlock-Ordered_example :
    Succeeds (λ r. IsValid r.0 × Ordered (reverse r.0.requests)) (vlock wlock (pos 3) busy)
vlock-Ordered_example = vlock-Ordered wlock (pos 3) busy busy-IsValid ((inr refl, tt), (tt, tt))
