-- ===== src/Server/Events.antt =====
-- What the poll thread calls on a TCPConnection (src/rpc/server.cpp): `handle_read`, `handle_write`,
-- `poll_mode`. The socket is an argument, and `fuel` bounds the loops.
use s_rpc.Base.{ℕ, Bool, false, not, List, ◌==◌, if◌then◌else◌}
use s_rpc.Base.Outcome.{Outcome, done, fault, blocked, ◌>>=◌}
use s_rpc.Marshal.Wire.{State}
use s_rpc.Marshal.Socket.{Socket, read_from_fd, write_to_fd}
use s_rpc.Server.{Connection, Handlers, serve}

-- A connection with its incoming side and its status.
pub record Session : Type 0 where
  pub is_connected : Bool
  pub in_ : State
  pub conn : Connection

module _ {S : Type 0} (socket : Socket S) where
  -- `handle_read()`
  unfoldable pub handle_read : (ℕ → List ℕ) → ℕ → Handlers → Session → S → Outcome (Session × S)
  handle_read junk fuel handlers c s =
      if c.is_connected
      then (read_from_fd socket fuel c.in_ s >>= λ (bytes_read, in_, s').
          if bytes_read == 0
          then done (record c { in_ = in_ }, s')
          else (serve junk fuel handlers in_ c.conn >>= λ (in_, conn).
              done (record c { in_ = in_; conn = conn }, s')))
      else done (c, s)

  -- `handle_write()`
  unfoldable pub handle_write : ℕ → Session → S → Outcome (Session × S)
  handle_write fuel c s =
      if not c.is_connected
      then done (c, s)
      else (if c.conn.out_l
          then fault blocked
          else (write_to_fd socket fuel c.conn.out s >>= λ (n, out, s'). done (
            record c {
              conn = record c.conn {
                out = out;
                writing = if out.1.content_size == 0 then false else c.conn.writing;
              };
            },
            s',
          )))

-- The WRITE bit of `poll_mode()`.
unfoldable pub poll_mode : Connection → Bool
poll_mode c = not (c.out.1.content_size == 0)
