-- ===== src/Server.antt =====
-- src/rpc/server.cpp and server.hpp: a TCP connection of the server, from the bytes that come in to
-- the replies that go out. `begin_reply` … `end_reply` stand under the lock `out_l_`; a call that
-- would have to wait for it is the fault `blocked`.
pub mod Requests
pub mod Replies
pub mod Service
pub mod Events
pub mod Cut
pub mod Arrivals
use s_rpc.Base.{
  ℕ, zero, suc, ◌+◌, ◌*◌, ◌%◌, ◌^◌, Bool, true, false, not, ◌&&◌, List, [], ◌∷◌, ◌++◌, Option, none,
  some, ◌==◌, ltb, if◌then◌else◌, length,
}
use s_rpc.Base.Int.{ℤ, pos, eq_ℤ}
use s_rpc.Base.Outcome.{Outcome, done, fault, blocked, out_of_fuel, ◌>>=◌, ◌>>◌, verify}
use s_rpc.Marshal.Memory.{Memory}
use s_rpc.Marshal.Buffer.{Marshal, empty_marshal}
use s_rpc.Marshal.Slice.{read_from_marshal}
use s_rpc.Marshal.Bookmark.{Place, set_bookmark, write_bookmark, get_and_reset_write_cnt}
use s_rpc.Marshal.Wire.{State, bytes_of, get_bytes, get_int, get_v64, put_v32, put_v64}
use s_rpc.Packet.{size_t_of, complete}

-- `Request<Marshal>`: its Marshal stands in the memory of the connection's `in_`.
pub record Request : Type 0 where
  pub xid : ℤ
  pub m : Marshal

-- One round of the loop of `handle_read` that cuts packets off. `junk` is what stands in the array of
-- `operator>>(Marshal&, v64&)`.
unfoldable pub cut_packet : List ℕ → State → Outcome (Request × State)
cut_packet junk s = do
  (packet_size, t) ← get_bytes 4 s
  (h, m, in_) ← read_from_marshal t.0 empty_marshal t.1 (size_t_of packet_size)
  (v_xid, u) ← get_v64 junk (h, m)
  done (record { xid = v_xid; m = u.1 }, (u.0, in_))

-- The loop, and the list `complete_requests`.
unfoldable pub cut_packets : (ℕ → List ℕ) → ℕ → State → Outcome (List Request × State)
cut_packets junk zero s = fault out_of_fuel
cut_packets junk (suc fuel) s =
    if complete s
    then (cut_packet (junk fuel) s >>= λ r.
        cut_packets junk fuel r.1 >>= λ q. done (r.0 ∷ q.0, q.1))
    else done ([], s)

-- `server_connection`: the outgoing side, which the replies are written to. `writing` is the WRITE bit
-- of the poll mode, and `out_l` says whether the lock is held.
pub record Connection : Type 0 where
  pub out : State
  pub bmark : Option (List Place)
  pub out_l : Bool
  pub writing : Bool

abbrev pub einval : ℤ
einval = pos 22

abbrev pub enoent : ℤ
enoent = pos 2

abbrev pub eexist : ℤ
eexist = pos 17

-- `begin_reply(req, error_code)`
unfoldable pub begin_reply : ℤ → ℤ → Connection → Outcome Connection
unfolding set_bookmark put_v64 put_v32
begin_reply xid error_code c = do
  if c.out_l then fault blocked else done tt
  (t, bm) ← set_bookmark 4 c.out
  done (record c { out_l = true; bmark = some bm; out = put_v32 error_code (put_v64 xid t) })

-- The part of `end_reply` under `if (bmark_ != nullptr)`.
abbrev pub close_packet : Option (List Place) → State → State
close_packet none s = s
close_packet (some bm) s =
    let (reply_size, t) = get_and_reset_write_cnt s in write_bookmark bm (bytes_of 4 reply_size) t

-- `end_reply()`
unfoldable pub end_reply : Connection → Connection
end_reply c = record c {
  out = close_packet c.bmark c.out;
  bmark = none;
  writing = true;
  out_l = false;
}

-- `begin_reply(req, error_code); end_reply();`
abbrev pub refuse : ℤ → ℤ → Connection → Outcome Connection
refuse xid error_code c = begin_reply xid error_code c >>= λ d. done (end_reply d)

-- A registered function: what it does to the memory with the request's arguments is not kept, since it
-- deletes the request.
abbrev pub Handler : Type 0
Handler = ℤ → State → Connection → Outcome Connection

abbrev pub Handlers : Type 0
Handlers = List (ℤ × Handler)

-- `handlers_.find(rpc_id)`
unfoldable pub find : ℤ → Handlers → Option Handler
find rpc_id [] = none
find rpc_id ((k, f) ∷ hs) = if eq_ℤ k rpc_id then some f else find rpc_id hs

abbrev pub run_or : Option Handler → Handler → Handler
run_or none g = g
run_or (some f) g = f

-- The body of the second loop of `handle_read`.
unfoldable pub dispatch : Handlers → Memory → Request → Connection → Outcome Connection
dispatch handlers h req c =
    if ltb req.m.content_size 4
    then refuse req.xid einval c
    else get_int 4 (h, req.m) >>= λ r.
        run_or (find r.0 handlers) (λ xid arguments. refuse xid enoent) req.xid r.1 c

unfoldable pub dispatch_all : Handlers → Memory → List Request → Connection → Outcome Connection
dispatch_all handlers h [] c = done c
dispatch_all handlers h (req ∷ reqs) c =
    dispatch handlers h req c >>= λ d. dispatch_all handlers h reqs d

-- `handle_read` behind `read_from_fd`: the packets are cut off and then dispatched, in their order.
unfoldable pub serve :
    (ℕ → List ℕ) → ℕ → Handlers → State → Connection → Outcome (State × Connection)
serve junk fuel handlers in_ c = do
  (reqs, rest) ← cut_packets junk fuel in_
  d ← dispatch_all handlers rest.0 reqs c
  done (rest, d)

-- `Server::reg`: the answer and the table.
unfoldable pub reg : ℤ → Handler → Handlers → ℤ × Handlers
unfolding find
reg rpc_id f hs = elim (find rpc_id hs) [ some g ↦ (eexist, hs) | none ↦ (pos 0, (rpc_id, f) ∷ hs) ]

-- `handlers_.erase(rpc_id)` of `Server::unreg`.
unfoldable pub unreg : ℤ → Handlers → Handlers
unreg rpc_id [] = []
unreg rpc_id ((k, f) ∷ hs) =
    let rest = unreg rpc_id hs in if eq_ℤ k rpc_id then rest else (k, f) ∷ rest
