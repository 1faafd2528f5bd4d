-- ===== src/Tests/Polls.antt =====
-- A PollThread (src/rpc/polling.cpp) whose Pollables come and go.
use mathlib.Core.Path.{subst}
use s_rpc.Base.{
  ℕ, zero, suc, ◌+◌, ◌≤◌, ◌<◌, ◌≡◌, refl, List, [], ◌∷◌, ◌++◌, Bool, true, false, arith, length,
  elem, lt→ltb, length-append,
}
use s_rpc.Base.Outcome.{done, fault, overrun}
use s_rpc.Polling.{
  PollThread, Control, bump, mode_at, is_none, has_write, control, add, remove, drop_one, collect,
}
use s_rpc.Polling.Held.{bit}
use s_rpc.Polling.Reached.{
  World, new_world, Step, adds, removes, collects, Run, stop, more, references_lem, add_overruns,
}

-- Descriptors are the numbers of the Pollables, and every call succeeds.
abbrev same : ℕ → ℕ
same p = p

abbrev obliging : Control → ℕ → Unit {0} → Bool × Unit {0}
obliging c f k = (true, k)

abbrev one_each : ℕ → ℕ
one_each p = 1

abbrev start : World (Unit {0})
start = new_world tt one_each

-- Pollable 3 is polled.
abbrev polled : World (Unit {0})
polled = record start {
  thread = record start.thread {
    refs = bump 3 one_each;
    poll_set = 3 ∷ [];
    poll_set_arr = 3 ∷ [];
    mode = (3, 1) ∷ [];
  };
  added = 1;
}

-- It has been removed, and a round has collected it.
abbrev dropping : World (Unit {0})
dropping = record polled {
  thread = record polled.thread { poll_set = []; mode = [] };
  remove_poll = 3 ∷ [];
}

abbrev waiting : World (Unit {0})
waiting = record polled {
  thread = record polled.thread { poll_set = []; mode = []; pending_remove = 3 ∷ [] };
}

add_3 : add same obliging 3 1 start.thread ≡ done polled.thread
unfolding add control has_write
add_3 = refl

remove_3 : remove same obliging 3 polled.thread ≡ done waiting.thread
unfolding remove
remove_3 = refl

removal : Run same obliging start dropping
unfolding collect
removal = more start polled dropping (adds start 3 1 polled.thread refl add_3) (
    more polled waiting dropping (removes polled 3 waiting.thread remove_3)
      (more waiting dropping dropping (collects waiting refl) (stop dropping)))

references_lem_example :
    ((q : ℕ)
      → dropping.thread.refs q
        ≡ dropping.others q
          + bit (elem q dropping.thread.poll_set)
          + bit (elem q dropping.thread.pending_remove)
          + bit (elem q dropping.remove_poll))
    × ((p : ℕ) (ps : List ℕ)
        → dropping.remove_poll ≡ p ∷ ps
        → (t : PollThread (Unit {0})) × (drop_one same obliging p dropping.thread ≡ done t))
references_lem_example = references_lem same obliging tt one_each dropping removal

-- The Pollables below n have been added, and none was removed.
below : ℕ → List ℕ
below zero = []
below (suc n) = n ∷ below n

modes : ℕ → List (ℕ × ℕ)
modes zero = []
modes (suc n) = (n, 1) ∷ modes n

array : ℕ → List ℕ
array zero = []
array (suc n) = array n ++ (n ∷ [])

counters : ℕ → ℕ → ℕ
counters zero = one_each
counters (suc n) = bump n (counters n)

abbrev crowd : ℕ → World (Unit {0})
crowd n = record {
  thread = record {
    mode = modes n;
    poll_set = below n;
    poll_set_arr = array n;
    pending_remove = [];
    fjobs = [];
    epoll = tt;
    refs = counters n;
  };
  remove_poll = [];
  others = one_each;
  added = n;
}

elem-below : (p n : ℕ) → n ≤ p → elem p (below n) ≡ false
unfolding below
elem-below p zero le = refl
elem-below p (suc n) le = ground (arith, elem-below p n)

mode_at-modes : (p n : ℕ) → n ≤ p → is_none (mode_at p (modes n)) ≡ true
unfolding modes
mode_at-modes p zero le = refl
mode_at-modes p (suc n) le = ground (arith, mode_at-modes p n)

length-array : (n : ℕ) → length (array n) ≡ n
unfolding array
length-array zero = refl
length-array (suc n) = omega (arith, length-append (array n) (n ∷ []), length-array n)

add_next : (n : ℕ) → n < 1024 → add same obliging n 1 (crowd n).thread ≡ done (crowd (suc n)).thread
unfolding add control has_write below modes array counters
add_next n lt =
    rw
      (
        elem-below n n (omega arith),
        mode_at-modes n n (omega arith),
        lt→ltb (length (array n)) 1024 (omega (arith, length-array n, lt)),
      )
      refl

fill_up : (m k : ℕ) → k + m ≡ 1024 → Run same obliging (crowd k) (crowd 1024)
unfolding below modes array counters
fill_up zero k e =
    subst (λ n. Run same obliging (crowd k) (crowd n)) (omega (arith, e)) (stop (crowd k))
fill_up (suc m) k e =
    more (crowd k) (crowd (suc k)) (crowd 1024)
      (subst (λ n. Step same obliging (crowd k) (record (crowd (suc k)) { added = n }))
        (omega arith)
        (adds (crowd k) k 1 (crowd (suc k)).thread refl (add_next k (omega (arith, e)))))
      (fill_up m (suc k) (omega (arith, e)))

crowded : Run same obliging start (crowd 1024)
unfolding below modes array counters
crowded = fill_up 1024 0 (omega arith)

add_overruns_example : add same obliging 1024 1 (crowd 1024).thread ≡ fault overrun
add_overruns_example =
    add_overruns same obliging tt one_each (crowd 1024) 1024 1 crowded (omega arith)
      (elem-below 1024 1024 (omega arith)) (mode_at-modes 1024 1024 (omega arith))
