-- ===== src/Tests/Timers.antt =====
-- The theorems on alarms, on DragonBall, and on the locks that use timeouts or wounds, at concrete
-- inputs.
use s_rpc.Base.{◌<◌, ◌≡◌, refl, false, List, [], ◌∷◌, ◌++◌, arith, All, some, none, true, false}
use s_rpc.Base.Int.{pos}
use s_rpc.Base.Outcome.{done, Succeeds}
use s_rpc.Alarm.{Entry, Alarm, run}
use s_rpc.Alarm.Waiting.{NotDue, calls_of, run_lem}
use s_rpc.DragonBall.{new_ball, triggers, triggers_lem}
use s_rpc.ALock.{rlock, wlock, wlocked, wait, lock}
use s_rpc.ALock.Timeout.{TimeoutLock, locked, waiting, abort}
use s_rpc.ALock.Timeout.Held.{count}
use s_rpc.ALock.Timeout.Invariant.{timed_vlock-IsValid}
use s_rpc.ALock.Timeout.Invariant as Timed
use s_rpc.ALock.Timeout.Release.{timed_abort-IsValid}
use s_rpc.ALock.Group.{Group, GroupCall, g_wait, g_lock, g_timeout, yes_call}
use s_rpc.ALock.Group.Answers.{Answer, answers, pending, all_granted, GivesBack, answers_lem}
use s_rpc.ALock.WoundDie.{WoundDie}
use s_rpc.ALock.WoundDie as Wound
use s_rpc.ALock.WoundDie.Release as WoundRelease

abbrev two_alarms : Alarm
two_alarms = record {
  next_id = 3;
  waiting = record { key = 1; time = 50; func = 7 } ∷ record { key = 2; time = 90; func = 8 } ∷ [];
}

run_lem_example :
    (due : List Entry) × (rest : List Entry) × (two_alarms.waiting ≡ due ++ rest)
    × (run (λ j. 60) two_alarms ≡ (record two_alarms { waiting = rest }, calls_of due))
    × All (λ e. e.time < 60) due
    × NotDue 60 rest
run_lem_example = run_lem 60 two_alarms

triggers_lem_example :
    (triggers 2 (some (new_ball (pos 3)))
      ≡ done (some (record (new_ball (pos 3)) { n_ready = 2 }), 0))
    × (triggers 3 (some (new_ball (pos 3))) ≡ done (none, 1))
triggers_lem_example = triggers_lem 3 2 (omega arith) (omega arith)

-- A writer holds the lock, and a reader waits.
abbrev timed : TimeoutLock
timed = record {
  next_id = 3;
  held = record { status = wlocked; n_rlock = 0 };
  tm_wait = 100;
  requests =
      record { id = 1; alarm_id = 0; type = wlock; status = locked }
      ∷ record { id = 2; alarm_id = 1; type = rlock; status = waiting }
      ∷ [];
}

timed-IsValid : Timed.IsValid timed
unfolding count
timed-IsValid = record { held = (refl, refl); readers = refl; queued = refl }

timed_abort-IsValid_example : Succeeds (λ r. Timed.IsValid r.0) (abort 1 timed two_alarms)
timed_abort-IsValid_example = timed_abort-IsValid 1 timed two_alarms timed-IsValid

abbrev wounding : WoundDie
wounding = record {
  next_id = 3;
  held = record { status = wlocked; n_rlock = 0 };
  done_ = false;
  requests =
      record { id = 1; priority = pos 2; type = wlock; status = lock }
      ∷ record { id = 2; priority = pos 4; type = rlock; status = wait }
      ∷ [];
}

wounding_abort-IsValid_example : Succeeds (λ r. WoundRelease.IsValid r.0) (Wound.abort 1 wounding)
wounding_abort-IsValid_example =
    WoundRelease.wounding_abort-IsValid 1 wounding (refl, (refl, refl, (refl, tt)))

-- The second of two locks refuses.
-- Of two locks one grants and one refuses.
abbrev two_answers : List Answer
two_answers = (4, some 9) ∷ (6, none) ∷ []

answers_lem_example :
    (g : Group) × (calls : List GroupCall) × (answers two_answers (pending g_wait [] [] 0 2)
      ≡ done (g, calls))
    × (all_granted two_answers ≡ true → (g.status ≡ g_lock) × (calls ≡ yes_call ∷ []))
    × (all_granted two_answers ≡ false → (g.status ≡ g_timeout) × GivesBack [] two_answers calls)
answers_lem_example =
    answers_lem (4, some 9) ((6, none) ∷ []) [] [] 0 2 refl
      ((λ q. absurd (omega (arith, q)), tt), (tt, tt))
