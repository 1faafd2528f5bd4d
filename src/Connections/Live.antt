-- ===== src/Connections/Live.antt =====
-- What holds of the connections of a server after any sequence of steps: who owns them.
use mathlib.Core.Path.{subst}
use s_rpc.Base.{ℕ, ◌+◌, ◌≡◌, refl, sym, ◌∙◌, ap, List, [], ◌∷◌, Bool, true, false, arith, elem}
use s_rpc.Base.Outcome.{done, Succeeds, Succeeds-After, After, After-bind, After-both}
use s_rpc.Polling.{Control, add, drop_one, collect, lower, bump}
use s_rpc.Polling.Held.{
  bit, at_or_other, OnceEach, IsHeld, beside, add-IsHeld, update_mode-IsHeld, drop_one-IsHeld,
}
use s_rpc.Connections.{Connections, update, accept, close, close_each}
use s_rpc.Connections.Steps.{
  no_connections, Step, accepts, closes, updates, collects, drops, takes, gives, Run, rest, more,
}
use s_rpc.Connections.Polls.{add_polls, update_mode_polls, drop_one_keeps}

-- The server holds one reference on each connection of sconns_, and handlers hold others.
abbrev pub owners : {K : Type 0} → Connections K → ℕ → ℕ
owners s q = s.held q + bit (elem q s.sconns)

pub record IsLive {K : Type 0} (s : Connections K) : Type 0 where
  pub counted : IsHeld (beside (owners s) s.remove_poll) s.thread
  pub once : OnceEach s.remove_poll
  pub polled : (q : ℕ) → elem q s.sconns ≡ elem q s.thread.poll_set
  pub hidden : s.server_sconns ≡ []

bit-zero : (b : Bool) → bit b ≡ 0 → b ≡ false
bit-zero true e = absurd (omega (arith, e))
bit-zero false e = refl

module _ {K : Type 0} (fd : ℕ → ℕ) (epoll_ctl : Control → ℕ → K → Bool × K) where
  -- A connection that is deleted, or is not yet made, is held nowhere.
  abbrev Nowhere : ℕ → Connections K → Type 0
  Nowhere c s =
      (s.held c ≡ 0)
      × (elem c s.sconns ≡ false)
      × (elem c s.remove_poll ≡ false)
      × (elem c s.thread.poll_set ≡ false)
      × (elem c s.thread.pending_remove ≡ false)

  nowhere_lem : (c : ℕ) (s : Connections K) → IsLive s → s.thread.refs c ≡ 0 → Nowhere c s
  nowhere_lem c s v gone =
      let e = v.counted.counted c in
      (
        omega (arith, e, gone),
        bit-zero _ (omega (arith, e, gone)),
        bit-zero _ (omega (arith, e, gone)),
        bit-zero _ (omega (arith, e, gone)),
        bit-zero _ (omega (arith, e, gone)),
      )

  -- A new connection: it has the reference of sconns_.
  new_counted :
      (c : ℕ) (s : Connections K)
      → IsLive s
      → Nowhere c s
      → IsHeld
          (beside (owners (record s { sconns = c ∷ s.sconns })) s.remove_poll)
          (record s.thread { refs = update c 1 s.thread.refs })
  new_counted c s v (a, b, d, e, f) = record {
    counted = λ q.
        at_or_other
          (λ x.
            update c 1 s.thread.refs x
            ≡ s.held x
              + bit (elem x (c ∷ s.sconns))
              + bit (elem x s.remove_poll)
              + bit (elem x s.thread.poll_set)
              + bit (elem x s.thread.pending_remove))
          c q (ground (arith, a, b, d, e, f)) (λ other. rw other (v.counted.counted q));
    apart = v.counted.apart;
    once = v.counted.once;
  }

  accept-IsLive :
      (c m : ℕ) (s : Connections K)
      → IsLive s
      → s.thread.refs c ≡ 0
      → After (IsLive) (accept fd epoll_ctl c m s)
  unfolding accept
  accept-IsLive c m s v gone =
      let n = nowhere_lem c s v gone in
      let thread = record s.thread { refs = update c 1 s.thread.refs } in
      After-bind _ (IsLive) (add fd epoll_ctl c m thread) _
        (After-both _ _ (add fd epoll_ctl c m thread)
          (add-IsHeld fd epoll_ctl
            (beside (owners (record s { sconns = c ∷ s.sconns })) s.remove_poll) c m thread n.4
            (new_counted c s v n))
          (add_polls fd epoll_ctl c m thread))
        (λ t h. record {
          counted = h.0.0;
          once = v.once;
          polled = λ q. ground (arith, v.polled q, ap (elem q) h.1);
          hidden = v.hidden;
        })

  -- No connection is found, so close does nothing.
  pub close-IsLive : (c : ℕ) (s : Connections K) → IsLive s → close fd epoll_ctl c s ≡ done s
  unfolding close
  close-IsLive c s v = rw v.hidden (ground arith)

  pub close_each-IsLive :
      (cs : List ℕ) (s : Connections K) → IsLive s → close_each fd epoll_ctl cs s ≡ done s
  unfolding close_each
  close_each-IsLive [] s v = refl
  close_each-IsLive (c ∷ cs) s v = rw (close-IsLive c s v) (close_each-IsLive cs s v)

  pub no_connections-IsLive : (k : K) → IsLive (no_connections k)
  no_connections-IsLive k = record {
    counted = record { counted = λ q. omega arith; apart = λ q e. refl; once = tt };
    once = tt;
    polled = λ q. refl;
    hidden = refl;
  }

  -- The references of handlers change.
  held-IsLive :
      (s : Connections K) (refs held : ℕ → ℕ)
      → ((q : ℕ) → refs q + s.held q ≡ s.thread.refs q + held q)
      → IsLive s
      → IsLive (record s { thread = record s.thread { refs = refs }; held = held })
  held-IsLive s refs held same v = record {
    counted = record {
      counted = λ q. omega (arith, v.counted.counted q, same q);
      apart = v.counted.apart;
      once = v.counted.once;
    };
    once = v.once;
    polled = v.polled;
    hidden = v.hidden;
  }

  pub Step-IsLive : (s t : Connections K) → Step fd epoll_ctl s t → IsLive s → IsLive t
  unfolding collect
  Step-IsLive _ _ (accepts s c m t gone e) v = subst (After _) e (accept-IsLive c m s v gone)
  Step-IsLive _ _ (closes s c t e) v = subst (Succeeds IsLive) (sym (close-IsLive c s v) ∙ e) v
  Step-IsLive _ _ (updates s c m t e) v =
      let (held, _) = subst (After _) e (
        update_mode-IsHeld fd epoll_ctl (beside (owners s) s.remove_poll) c m s.thread v.counted) in
      let same = subst (After _) e (update_mode_polls fd epoll_ctl c m s.thread) in
      record {
        counted = held;
        once = v.once;
        polled = λ q. v.polled q ∙ ap (elem q) (sym same);
        hidden = v.hidden;
      }
  Step-IsLive _ _ (collects s e) v = record {
    counted = record {
      counted = λ q. omega (arith, v.counted.counted q, ap (λ l. bit (elem q l)) e);
      apart = λ q _. refl;
      once = tt;
    };
    once = v.counted.once;
    polled = v.polled;
    hidden = v.hidden;
  }
  Step-IsLive _ _ (drops s p ps t e d) v =
      let once = subst OnceEach e v.once in
      let before = subst (λ l. IsHeld (beside (owners s) l) s.thread) e v.counted in
      let (held, same) = subst (Succeeds _) d (
        Succeeds-After _ _ (drop_one fd epoll_ctl p s.thread)
          (drop_one-IsHeld fd epoll_ctl (owners s) p ps s.thread once.0 before)
          (drop_one_keeps fd epoll_ctl p s.thread)) in
      record {
        counted = held.0;
        once = once.1;
        polled = λ q. v.polled q ∙ ap (elem q) (sym same);
        hidden = v.hidden;
      }
  Step-IsLive _ _ (takes s c lt) v =
      held-IsLive s (bump c s.thread.refs) (bump c s.held) (λ q. ground arith) v
  Step-IsLive _ _ (gives s c lt) v =
      held-IsLive s (lower c s.thread.refs) (lower c s.held)
        (λ q.
          at_or_other (λ x. lower c s.thread.refs x + s.held x ≡ s.thread.refs x + lower c s.held x)
            c q (ground (arith, v.counted.counted c, lt)) (λ other. rw other refl))
        v

  pub Run-IsLive : (s t : Connections K) → Run fd epoll_ctl s t → IsLive s → IsLive t
  Run-IsLive _ _ (rest s) v = v
  Run-IsLive _ _ (more s t u step run) v = Run-IsLive t u run (Step-IsLive s t step v)
