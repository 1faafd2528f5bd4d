-- ===== src/Connections/Steps.antt =====
-- A server at work: what happens to its connections.
use s_rpc.Base.{ℕ, ◌<◌, ◌≡◌, List, [], ◌∷◌, Bool, false}
use s_rpc.Base.Outcome.{done}
use s_rpc.Polling.{PollThread, Control, update_mode, drop_one, collect, lower, bump}
use s_rpc.Connections.{Connections, accept, close}

abbrev pub no_connections : {K : Type 0} → K → Connections K
no_connections k = record {
  thread = record {
    mode = [];
    poll_set = [];
    poll_set_arr = [];
    pending_remove = [];
    fjobs = [];
    epoll = k;
    refs = λ c. 0;
  };
  remove_poll = [];
  sconns = [];
  server_sconns = [];
  closed = λ c. false;
  held = λ c. 0;
}

module _ {K : Type 0} (fd : ℕ → ℕ) (epoll_ctl : Control → ℕ → K → Bool × K) where
  -- What can happen: a connection is accepted, of a name that no object has, one is closed or has its
  -- mode changed, the polling thread collects and drops, and handlers take references on connections
  -- that are there, and give them up.
  pub data Step : Connections K → Connections K → Type 0 where
    accepts :
        (s : Connections K) (c m : ℕ) (t : Connections K)
        → s.thread.refs c ≡ 0
        → accept fd epoll_ctl c m s ≡ done t
        → Step s t
    closes :
        (s : Connections K) (c : ℕ) (t : Connections K) → close fd epoll_ctl c s ≡ done t → Step s t
    updates :
        (s : Connections K) (c m : ℕ) (t : PollThread K)
        → update_mode fd epoll_ctl c m s.thread ≡ done t
        → Step s (record s { thread = t })
    collects :
        (s : Connections K)
        → s.remove_poll ≡ []
        → Step s (record s { thread = (collect s.thread).1; remove_poll = (collect s.thread).0 })
    drops :
        (s : Connections K) (p : ℕ) (ps : List ℕ) (t : PollThread K)
        → s.remove_poll ≡ p ∷ ps
        → drop_one fd epoll_ctl p s.thread ≡ done t
        → Step s (record s { thread = t; remove_poll = ps })
    takes :
        (s : Connections K) (c : ℕ)
        → 0 < s.thread.refs c
        → Step s (record s {
          thread = record s.thread { refs = bump c s.thread.refs };
          held = bump c s.held;
        })
    gives :
        (s : Connections K) (c : ℕ)
        → 0 < s.held c
        → Step s (record s {
          thread = record s.thread { refs = lower c s.thread.refs };
          held = lower c s.held;
        })

  pub data Run : Connections K → Connections K → Type 0 where
    rest : (s : Connections K) → Run s s
    more : (s t u : Connections K) → Step s t → Run t u → Run s u
