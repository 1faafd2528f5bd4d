-- ===== src/Tests/Served.antt =====
-- The connections of a server (src/rpc/server.cpp) come and go.
use s_rpc.Base.{ℕ, ◌+◌, ◌≡◌, ◌≤◌, refl, [], ◌∷◌, Bool, true, false, elem, ◌==◌, if◌then◌else◌}
use s_rpc.Base.Outcome.{done}
use s_rpc.Polling.{Control, add, control, has_write}
use s_rpc.Polling.Held.{bit}
use s_rpc.Connections.{Connections, accept, close, close_all}
use s_rpc.Connections.Steps.{no_connections, accepts, closes, Run, rest, more}
use s_rpc.Connections.Kept.{closes_nothing, never_deleted}

-- The sockets are the numbers of the connections, and every call succeeds.
abbrev socket : ℕ → ℕ
socket c = c

abbrev willing : Control → ℕ → Unit {0} → Bool × Unit {0}
willing c f k = (true, k)

-- Connection 3 has been accepted.
abbrev serving : Connections (Unit {0})
serving = record {
  thread = record {
    mode = (3, 1) ∷ [];
    poll_set = 3 ∷ [];
    poll_set_arr = 3 ∷ [];
    pending_remove = [];
    fjobs = [];
    epoll = tt;
    refs = λ q. if q == 3 then (if q == 3 then 1 else 0) + 1 else (if q == 3 then 1 else 0);
  };
  remove_poll = [];
  sconns = 3 ∷ [];
  server_sconns = [];
  closed = λ q. if q == 3 then false else false;
  held = λ q. 0;
}

accept_3 : accept socket willing 3 1 (no_connections tt) ≡ done serving
unfolding accept add control has_write
accept_3 = refl

served : Run socket willing (no_connections tt) serving
served =
    more (no_connections tt) serving serving (accepts (no_connections tt) 3 1 serving refl accept_3)
      (rest serving)

-- Connection 3 is closed, which changes nothing.
closed_3 : close socket willing 3 serving ≡ done serving
closed_3 = (closes_nothing socket willing tt serving served).0 3

closes_nothing_example :
    ((c : ℕ) → close socket willing c serving ≡ done serving)
    × (close_all socket willing serving ≡ done serving)
    × ((q : ℕ)
        → serving.thread.refs q
          ≡ serving.held q
            + bit (elem q serving.sconns)
            + bit (elem q serving.thread.poll_set)
            + bit (elem q serving.thread.pending_remove)
            + bit (elem q serving.remove_poll))
closes_nothing_example = closes_nothing socket willing tt serving served

never_deleted_example :
    (elem 3 serving.sconns ≡ true)
    × (elem 3 serving.thread.poll_set ≡ true)
    × (2 ≤ serving.thread.refs 3)
never_deleted_example =
    never_deleted socket willing tt serving serving 3 served refl
      (more serving serving serving (closes serving 3 serving closed_3) (rest serving))
