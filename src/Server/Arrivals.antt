-- ===== src/Server/Arrivals.antt =====
-- However the network cuts the stream of requests into pieces, each request is answered once.
use s_rpc.Base.{ℕ, zero, suc, ◌≡◌, true, List, ◌++◌}
use s_rpc.Base.Int.{ℤ}
use s_rpc.Base.Outcome.{Outcome, done, ◌>>=◌}
use s_rpc.Marshal.Wire.Scalars.{Valid, pending}
use s_rpc.Marshal.Socket.{Socket}
use s_rpc.Packet.{Incomplete}
use s_rpc.Server.{Handlers}
use s_rpc.Server.Requests.{Sent, stream}
use s_rpc.Server.Replies.{Ready}
use s_rpc.Server.Service.{Service, replies}
use s_rpc.Server.Events.{Session, handle_read}
use s_rpc.Server.Cut.{Cut}

-- Where a connection stands: the first requests are answered, the others are still to come.
pub record Serves {S : Type 0} (ahead : S → List ℕ) (gs : List (ℤ × Service)) (qs : List Sent)
    (before : List ℕ) (c : Session) (s : S) : Type 0 where
  pub answered : List Sent
  pub later : List Sent
  pub all : qs ≡ answered ++ later
  pub replied : pending c.conn.out ≡ before ++ replies gs answered
  pub waiting : pending c.in_ ++ ahead s ≡ stream later
  pub incomplete : Incomplete (pending c.in_)
  pub valid : Valid c.in_
  pub ready : Ready c.conn
  pub open_ : c.is_connected ≡ true

-- `handle_read`, `n` times.
unfoldable pub polls :
    {S : Type 0} → Socket S → (ℕ → List ℕ) → ℕ → Handlers → ℕ → Session → S → Outcome (Session × S)
polls socket junk fuel fs zero c s = done (c, s)
polls socket junk fuel fs (suc n) c s =
    handle_read socket junk fuel fs c s >>= λ r. polls socket junk fuel fs n r.0 r.1
