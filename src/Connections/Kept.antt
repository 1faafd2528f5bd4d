-- ===== src/Connections/Kept.antt =====
-- Connections stay: no close finds one.
use mathlib.Core.Path.{subst}
use s_rpc.Base.{ℕ, ◌+◌, ◌≤◌, ◌≡◌, refl, sym, ◌∙◌, ap, ◌∷◌, Bool, true, arith, elem}
use s_rpc.Base.Outcome.{done, Succeeds, After, After-then}
use s_rpc.Polling.{Control, add}
use s_rpc.Polling.Held.{bit}
use s_rpc.Connections.{Connections, update, accept, close, close_all}
use s_rpc.Connections.Steps.{
  no_connections, Step, accepts, closes, updates, collects, drops, takes, gives, Run, rest, more,
}
use s_rpc.Connections.Live.{
  IsLive, close-IsLive, close_each-IsLive, no_connections-IsLive, Step-IsLive, Run-IsLive,
}

module _ {K : Type 0} (fd : ℕ → ℕ) (epoll_ctl : Control → ℕ → K → Bool × K) where
  accept_adds :
      (c m : ℕ) (s : Connections K)
      → After (λ t. t.sconns ≡ c ∷ s.sconns) (accept fd epoll_ctl c m s)
  unfolding accept
  accept_adds c m s =
      After-then _ (add fd epoll_ctl c m (record s.thread { refs = update c 1 s.thread.refs })) _
        (λ t. refl)

  Step-keeps :
      (c : ℕ) (s t : Connections K)
      → Step fd epoll_ctl s t
      → IsLive s
      → elem c s.sconns ≡ true
      → elem c t.sconns ≡ true
  Step-keeps c _ _ (accepts s d m t gone e) v there =
      let adds = subst (After _) e (accept_adds d m s) in ap (elem c) adds ∙ ground (arith, there)
  Step-keeps c _ _ (closes s d t e) v there =
      subst (Succeeds (λ u. elem c u.sconns ≡ true)) (sym (close-IsLive fd epoll_ctl d s v) ∙ e)
        there
  Step-keeps c _ _ (updates s d m t e) v there = there
  Step-keeps c _ _ (collects s e) v there = there
  Step-keeps c _ _ (drops s p ps t e d) v there = there
  Step-keeps c _ _ (takes s d lt) v there = there
  Step-keeps c _ _ (gives s d lt) v there = there

  Run-keeps :
      (c : ℕ) (s t : Connections K)
      → Run fd epoll_ctl s t
      → IsLive s
      → elem c s.sconns ≡ true
      → elem c t.sconns ≡ true
  Run-keeps c _ _ (rest s) v there = there
  Run-keeps c _ _ (more s t u step run) v there =
      Run-keeps c t u run (Step-IsLive fd epoll_ctl s t step v) (Step-keeps c s t step v there)

  -- From a server without connections on, after any steps (connections accepted under names that no
  -- object has, closed, or given another mode; the polling thread collecting and dropping;
  -- references on connections taken and given up by handlers), in any order: close of any
  -- connection and the loop of stop return and change nothing, and the counter of every connection
  -- is the number of references that handlers hold, and one for each of sconns_, poll_set_,
  -- pending_remove_ and the list being dropped where it stands.
  pub closes_nothing :
      (k : K) (s : Connections K)
      → Run fd epoll_ctl (no_connections k) s
      → ((c : ℕ) → close fd epoll_ctl c s ≡ done s)
        × (close_all fd epoll_ctl s ≡ done s)
        × ((q : ℕ)
            → s.thread.refs q
              ≡ s.held q
                + bit (elem q s.sconns)
                + bit (elem q s.thread.poll_set)
                + bit (elem q s.thread.pending_remove)
                + bit (elem q s.remove_poll))
  unfolding close_all
  closes_nothing k s run =
      let v =
        Run-IsLive fd epoll_ctl (no_connections k) s run (no_connections-IsLive fd epoll_ctl k) in
      (
        λ c. close-IsLive fd epoll_ctl c s v,
        close_each-IsLive fd epoll_ctl s.sconns s v,
        λ q. omega (arith, v.counted.counted q),
      )

  -- From a server without connections on, once any steps (connections accepted under names that no
  -- object has, closed, or given another mode; the polling thread collecting and dropping;
  -- references on connections taken and given up by handlers) have entered a connection in sconns_,
  -- it stays there and in poll_set_, with a counter of at least 2, after any more of them, its
  -- closes included: it is never deleted.
  pub never_deleted :
      (k : K) (s t : Connections K) (c : ℕ)
      → Run fd epoll_ctl (no_connections k) s
      → elem c s.sconns ≡ true
      → Run fd epoll_ctl s t
      → (elem c t.sconns ≡ true) × (elem c t.thread.poll_set ≡ true) × (2 ≤ t.thread.refs c)
  never_deleted k s t c before there after =
      let v =
        Run-IsLive fd epoll_ctl (no_connections k) s before
          (no_connections-IsLive fd epoll_ctl k) in
      let w = Run-IsLive fd epoll_ctl s t after v in
      let stays = Run-keeps c s t after v there in
      let polls = sym (w.polled c) ∙ stays in
      (stays, polls, omega (arith, w.counted.counted c, ap bit stays, ap bit polls))
