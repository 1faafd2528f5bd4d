-- ===== src/Polling/Reached.antt =====
-- The states that the calls of a PollThread and the rounds of its loop lead to.
use mathlib.Core.Path.{subst}
use s_rpc.Base.{
  ℕ, ◌+◌, ◌≤◌, ◌<◌, ◌≡◌, refl, ◌∙◌, ap, List, [], ◌∷◌, Bool, true, false, arith, length, elem,
  le→ltb,
}
use s_rpc.Base.Outcome.{done, fault, overrun, Succeeds, Succeeds-done, After}
use s_rpc.Polling.{
  PollThread, Control, bump, lower, mode_at, is_none, add, remove, update_mode, drop_one, collect,
}
use s_rpc.Polling.Held.{
  bit, at_or_other, OnceEach, IsHeld, add-IsHeld, remove-IsHeld, update_mode-IsHeld, beside,
  drop_one-IsHeld,
}

-- A thread, the list that it is dropping, the references that others hold, and how often `add` was
-- called.
pub record World (K : Type 0) : Type 0 where
  pub thread : PollThread K
  pub remove_poll : List ℕ
  pub others : ℕ → ℕ
  pub added : ℕ

abbrev pub new_world : {K : Type 0} → K → (ℕ → ℕ) → World K
new_world k refs = record {
  thread = record {
    mode = [];
    poll_set = [];
    poll_set_arr = [];
    pending_remove = [];
    fjobs = [];
    epoll = k;
    refs = refs;
  };
  remove_poll = [];
  others = refs;
  added = 0;
}

module _ {K : Type 0} (fd : ℕ → ℕ) (epoll_ctl : Control → ℕ → K → Bool × K) where
  -- What can happen: a Pollable is added that does not wait in `pending_remove_` (epoll still polls
  -- its descriptor then, and refuses it), one is removed or has
  -- its mode changed, a round collects what waits and drops one after another, and others take a
  -- reference, or give up one that they hold.
  pub data Step : World K → World K → Type 0 where
    adds :
        (w : World K) (p m : ℕ) (t : PollThread K)
        → elem p w.thread.pending_remove ≡ false
        → add fd epoll_ctl p m w.thread ≡ done t
        → Step w (record w { thread = t; added = w.added + 1 })
    removes :
        (w : World K) (p : ℕ) (t : PollThread K)
        → remove fd epoll_ctl p w.thread ≡ done t
        → Step w (record w { thread = t })
    updates :
        (w : World K) (p m : ℕ) (t : PollThread K)
        → update_mode fd epoll_ctl p m w.thread ≡ done t
        → Step w (record w { thread = t })
    collects :
        (w : World K)
        → w.remove_poll ≡ []
        → Step w (record w { thread = (collect w.thread).1; remove_poll = (collect w.thread).0 })
    drops :
        (w : World K) (p : ℕ) (ps : List ℕ) (t : PollThread K)
        → w.remove_poll ≡ p ∷ ps
        → drop_one fd epoll_ctl p w.thread ≡ done t
        → Step w (record w { thread = t; remove_poll = ps })
    takes :
        (w : World K) (p : ℕ)
        → Step w (record w {
          thread = record w.thread { refs = bump p w.thread.refs };
          others = bump p w.others;
        })
    leaves :
        (w : World K) (p : ℕ)
        → 0 < w.others p
        → Step w (record w {
          thread = record w.thread { refs = lower p w.thread.refs };
          others = lower p w.others;
        })

  pub data Run : World K → World K → Type 0 where
    stop : (w : World K) → Run w w
    more : (w x y : World K) → Step w x → Run x y → Run w y

  pub record IsValid (w : World K) : Type 0 where
    pub held : IsHeld (beside w.others w.remove_poll) w.thread
    pub once : OnceEach w.remove_poll
    pub array : length w.thread.poll_set_arr ≡ w.added

  taken :
      (w : World K) (p : ℕ)
      → IsHeld (beside w.others w.remove_poll) w.thread
      → IsHeld
          (beside (bump p w.others) w.remove_poll)
          (record w.thread { refs = bump p w.thread.refs })
  taken w p h = record {
    counted = λ q.
        at_or_other
          (λ x.
            bump p w.thread.refs x
            ≡ beside (bump p w.others) w.remove_poll x
              + bit (elem x w.thread.poll_set)
              + bit (elem x w.thread.pending_remove))
          p q (ground (arith, h.counted p)) (λ other. rw other (h.counted q));
    apart = h.apart;
    once = h.once;
  }

  left_by :
      (w : World K) (p : ℕ)
      → 0 < w.others p
      → IsHeld (beside w.others w.remove_poll) w.thread
      → IsHeld
          (beside (lower p w.others) w.remove_poll)
          (record w.thread { refs = lower p w.thread.refs })
  left_by w p lt h = record {
    counted = λ q.
        at_or_other
          (λ x.
            lower p w.thread.refs x
            ≡ beside (lower p w.others) w.remove_poll x
              + bit (elem x w.thread.poll_set)
              + bit (elem x w.thread.pending_remove))
          p q (ground (arith, h.counted p, lt)) (λ other. rw other (h.counted q));
    apart = h.apart;
    once = h.once;
  }

  collected :
      (w : World K)
      → w.remove_poll ≡ []
      → IsHeld (beside w.others w.remove_poll) w.thread
      → IsHeld (beside w.others (collect w.thread).0) (collect w.thread).1
  unfolding collect
  collected w e h = record {
    counted = λ q. omega (arith, h.counted q, ap (λ l. bit (elem q l)) e);
    apart = λ q _. refl;
    once = tt;
  }

  Step-IsValid : (w x : World K) → Step w x → IsValid w → IsValid x
  unfolding collect
  Step-IsValid _ _ (adds w p m t free e) v =
      let (held, n) =
        subst (After _) e
          (add-IsHeld fd epoll_ctl (beside w.others w.remove_poll) p m w.thread free v.held) in
      record { held = held; once = v.once; array = n ∙ ap (λ k. k + 1) v.array }
  Step-IsValid _ _ (removes w p t e) v =
      let (held, n) =
        subst (After _) e
          (remove-IsHeld fd epoll_ctl (beside w.others w.remove_poll) p w.thread v.held) in
      record { held = held; once = v.once; array = ap length n ∙ v.array }
  Step-IsValid _ _ (updates w p m t e) v =
      let (held, n) =
        subst (After _) e
          (update_mode-IsHeld fd epoll_ctl (beside w.others w.remove_poll) p m w.thread v.held) in
      record { held = held; once = v.once; array = ap length n ∙ v.array }
  Step-IsValid _ _ (collects w e) v = record {
    held = collected w e v.held;
    once = v.held.once;
    array = v.array;
  }
  Step-IsValid _ _ (drops w p ps t e d) v =
      let h = subst (λ l. IsHeld (beside w.others l) w.thread) e v.held in
      let o = subst OnceEach e v.once in
      let (held, n) =
        subst (Succeeds _) d (drop_one-IsHeld fd epoll_ctl w.others p ps w.thread o.0 h) in
      record { held = held; once = o.1; array = ap length n ∙ v.array }
  Step-IsValid _ _ (takes w p) v = record {
    held = taken w p v.held;
    once = v.once;
    array = v.array;
  }
  Step-IsValid _ _ (leaves w p lt) v = record {
    held = left_by w p lt v.held;
    once = v.once;
    array = v.array;
  }

  Run-IsValid : (w x : World K) → Run w x → IsValid w → IsValid x
  Run-IsValid _ _ (stop w) v = v
  Run-IsValid _ _ (more w x y step run) v = Run-IsValid x y run (Step-IsValid w x step v)

  new_world-IsValid : (k : K) (refs : ℕ → ℕ) → IsValid (new_world k refs)
  new_world-IsValid k refs = record {
    held = record { counted = λ q. omega arith; apart = λ q e. refl; once = tt };
    once = tt;
    array = refl;
  }

  -- From a new PollThread on, after any calls of add (of Pollables that do not wait in
  -- pending_remove_), remove and update_mode, rounds of poll_loop that collect and drop, and
  -- references that others take and give up, in any order: the counter of each Pollable is the
  -- number of references that others hold, and one for each of the three places where the thread
  -- has it, poll_set_, pending_remove_ and the list of those that the round drops; and the next
  -- one of that list is released and not yet deleted.
  pub references_lem :
      (k : K) (refs : ℕ → ℕ) (w : World K)
      → Run (new_world k refs) w
      → ((q : ℕ)
          → w.thread.refs q
            ≡ w.others q
              + bit (elem q w.thread.poll_set)
              + bit (elem q w.thread.pending_remove)
              + bit (elem q w.remove_poll))
        × ((p : ℕ) (ps : List ℕ)
            → w.remove_poll ≡ p ∷ ps
            → (t : PollThread K) × (drop_one fd epoll_ctl p w.thread ≡ done t))
  references_lem k refs w run =
      let v = Run-IsValid (new_world k refs) w run (new_world-IsValid k refs) in
      (
        λ q. omega (arith, v.held.counted q),
        λ p ps e.
            let o = subst OnceEach e v.once in
            let (t, d, _) = Succeeds-done _ (drop_one fd epoll_ctl p w.thread) (
              drop_one-IsHeld fd epoll_ctl w.others p ps w.thread o.0
                (subst (λ l. IsHeld (beside w.others l) w.thread) e v.held)) in
            (t, d),
      )

  -- After 1024 or more calls of add on a PollThread, whatever was removed since, add of a Pollable
  -- that is not polled and whose descriptor has no mode writes past the end of poll_set_arr_:
  -- remove never takes an entry off it.
  pub add_overruns :
      (k : K) (refs : ℕ → ℕ) (w : World K) (p m : ℕ)
      → Run (new_world k refs) w
      → 1024 ≤ w.added
      → elem p w.thread.poll_set ≡ false
      → is_none (mode_at (fd p) w.thread.mode) ≡ true
      → add fd epoll_ctl p m w.thread ≡ fault overrun
  unfolding add
  add_overruns k refs w p m run many new free =
      let v = Run-IsValid (new_world k refs) w run (new_world-IsValid k refs) in
      rw (new, free, le→ltb (length w.thread.poll_set_arr) 1024 (omega (arith, many, v.array))) refl
