-- ===== src/Connections.antt =====
-- The connections of a TCPServer (src/rpc/server.cpp) and the thread that polls them: who holds a
-- TCPConnection, what closes it and what deletes it. The PollMgr has one thread, as by default.
-- A connection is named by a number, `fd` is its socket. An operation is one step.
pub mod Steps
pub mod Polls
pub mod Live
pub mod Kept
use s_rpc.Base.{ℕ, ◌+◌, List, [], ◌∷◌, Bool, true, false, not, elem, erase_all, ◌==◌, if◌then◌else◌}
use s_rpc.Base.Outcome.{Outcome, done, ◌>>=◌}
use s_rpc.Polling.{PollThread, Control, add, remove, release}

-- `sconns` is TCPServer::sconns_, where server_loop enters a connection and whose connections stop
-- closes; `server_sconns` is Server::sconns_, which it hides, and where a connection looks for itself,
-- since its server_ is a pointer to a Server. `closed` is where status_ is CLOSED, `remove_poll` the
-- list that the polling thread is dropping, and `held` the references that handlers hold.
pub record Connections (K : Type 0) : Type 0 where
  pub thread : PollThread K
  pub remove_poll : List ℕ
  pub sconns : List ℕ
  pub server_sconns : List ℕ
  pub closed : ℕ → Bool
  pub held : ℕ → ℕ

abbrev pub update : {A : Type 0} → ℕ → A → (ℕ → A) → ℕ → A
update c a f q = if q == c then a else f q

module _ {K : Type 0} (fd : ℕ → ℕ) (epoll_ctl : Control → ℕ → K → Bool × K) where
  -- The end of a turn of `server_loop`, for a new connection whose poll_mode() answers `m`.
  unfoldable pub accept : ℕ → ℕ → Connections K → Outcome (Connections K)
  accept c m s = do
    t ← add fd epoll_ctl c m (record s.thread { refs = update c 1 s.thread.refs })
    done (record s { thread = t; sconns = c ∷ s.sconns; closed = update c false s.closed })

  -- TCPConnection::close, where the connection is found.
  unfoldable pub close_member : ℕ → Connections K → Outcome (Connections K)
  close_member c s = do
    t ← remove fd epoll_ctl c s.thread
    refs ← release c t.refs
    done (record s {
      thread = record t { refs = refs };
      server_sconns = erase_all c s.server_sconns;
      closed = update c true s.closed;
    })

  unfoldable pub close : ℕ → Connections K → Outcome (Connections K)
  close c s =
      if s.closed c then done s else if elem c s.server_sconns then close_member c s else done s

  -- The loop of TCPServer::stop.
  unfoldable pub close_each : List ℕ → Connections K → Outcome (Connections K)
  close_each [] s = done s
  close_each (c ∷ cs) s = do t ← close c s; close_each cs t

  -- What TCPServer::stop does before it waits for the connections to be deleted.
  unfoldable pub close_all : Connections K → Outcome (Connections K)
  close_all s = close_each s.sconns s
