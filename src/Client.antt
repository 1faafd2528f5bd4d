-- ===== src/Client.antt =====
-- src/rpc/client.cpp and client.hpp: futures, and the TCP client that hands them out. Futures stand
-- in a store, since the caller and the client's table share them; `futures` is that store, and
-- addresses below `allocated` are in use. Another thread can act between two steps of
-- `begin_request`: it is an argument. A future with no reference left is deleted.
pub mod Futures
pub mod Requests
pub mod Replies
pub mod Stream
pub mod Table
pub mod Tracked
pub mod Emptied
pub mod Steps
pub mod Moves
pub mod Woken
use s_rpc.Base.{
  ℕ, zero, suc, ◌+◌, ◌-◌, ◌*◌, ◌%◌, ◌^◌, Bool, true, false, not, ◌&&◌, ◌||◌, List, [], ◌∷◌, ◌++◌,
  Option, none, some, ◌==◌, ltb, if◌then◌else◌, length,
}
use s_rpc.Base.Int.{ℤ, pos, eq_ℤ}
use s_rpc.Base.Outcome.{
  Outcome, done, fault, blocked, below_zero, deleted, out_of_fuel, ◌>>=◌, ◌>>◌, verify,
}
use s_rpc.SparseInt.{signed, val_size}
use s_rpc.Marshal.Memory.{Memory}
use s_rpc.Marshal.Buffer.{Marshal, empty_marshal}
use s_rpc.Marshal.Slice.{read_from_marshal}
use s_rpc.Marshal.Bookmark.{Place, set_bookmark}
use s_rpc.Marshal.Wire.{State, get_bytes, get_v32, get_v64, put_int, put_v64}
use s_rpc.Packet.{size_t_of, complete}
use s_rpc.Server.{close_packet}

-- `Future`. `calls` counts the calls of `attr_.callback`, which is null where `callback` is false.
pub record Future : Type 0 where
  pub xid : ℤ
  pub error_code : ℤ
  pub callback : Bool
  pub calls : ℕ
  pub reply : Marshal
  pub ready : Bool
  pub timed_out : Bool
  pub refs : ℕ

-- `Future(i64 xid, const FutureAttr& attr)`
abbrev pub new_future : ℤ → Bool → Future
new_future xid callback = record {
  xid = xid;
  error_code = pos 0;
  callback = callback;
  calls = 0;
  reply = empty_marshal;
  ready = false;
  timed_out = false;
  refs = 1;
}

abbrev pub ref_copy : Future → Future
ref_copy f = record f { refs = suc f.refs }

abbrev pub enotconn : ℤ
enotconn = pos 107

abbrev pub etimedout : ℤ
etimedout = pos 110

-- `wait` returns, and the loop of `timed_wait` ends, when this holds.
abbrev pub settled : Future → Bool
settled f = f.ready || f.timed_out

abbrev pub call_back : Future → Future
call_back f = if f.callback then record f { calls = suc f.calls } else f

-- `pthread_cond_timedwait` of `timed_wait` returns ETIMEDOUT. The future may have become ready between
-- the deadline and the return; the loop looks at that only after it has set `timed_out_`.
unfoldable pub expire : Future → Future
expire f = record f { timed_out = true }

-- `timed_wait` behind its loop.
unfoldable pub finish_timed_wait : Future → Future
finish_timed_wait f = if f.timed_out then call_back (record f { error_code = etimedout }) else f

-- `notify_ready()`
unfoldable pub notify_ready : Future → Future
notify_ready f =
    let g = if f.timed_out then f else record f { ready = true } in
    if g.ready then call_back g else g

-- `release()`: the future is deleted when no reference is left.
unfoldable pub release : Future → Outcome Future
release f = if ltb 0 f.refs then done (record f { refs = f.refs - 1 }) else fault below_zero

pub data Status : Type 0 where
  new connected closed : Status

abbrev pub is_connected : Status → Bool
is_connected new = false
is_connected connected = true
is_connected closed = false

pub record Client : Type 0 where
  pub in_ : State
  pub out : State
  pub bmark : Option (List Place)
  pub out_l : Bool
  pub writing : Bool
  pub status : Status
  pub xid_counter : ℕ
  pub pending_fu : List (ℤ × ℕ)
  pub futures : ℕ → Future
  pub allocated : ℕ

-- `TCPClient(PollMgr*)`. What stands at the addresses that are not in use does not matter.
abbrev pub new_client : State → State → (ℕ → Future) → Client
new_client in_ out futures = record {
  in_ = in_;
  out = out;
  bmark = none;
  out_l = false;
  writing = false;
  status = new;
  xid_counter = 0;
  pending_fu = [];
  futures = futures;
  allocated = 0;
}

abbrev pub update : (ℕ → Future) → ℕ → Future → ℕ → Future
update fs a f b = if b == a then f else fs b

-- `TCPClient::connect`: `failed` is the error that resolving the address or the socket calls lead to.
unfoldable pub connect : Option ℤ → Client → Outcome (ℤ × Client)
connect failed c = do
  verify (not (is_connected c.status))
  done (elim failed [ some e ↦ (e, c) | none ↦ (pos 0, record c { status = connected }) ])

-- `pending_fu_.find(xid)` and `pending_fu_.erase(it)`.
unfoldable pub find : ℤ → List (ℤ × ℕ) → Option ℕ
find xid [] = none
find xid ((k, a) ∷ es) = if eq_ℤ k xid then some a else find xid es

unfoldable pub erase : ℤ → List (ℤ × ℕ) → List (ℤ × ℕ)
erase xid [] = []
erase xid ((k, a) ∷ es) = let rest = erase xid es in if eq_ℤ k xid then rest else (k, a) ∷ rest

-- `begin_request` up to the second look at `status_`: a future is made and entered under the next xid.
unfoldable pub enter : Bool → Client → Client
enter callback c =
    let xid = signed 64 c.xid_counter in
    record c {
      xid_counter = (c.xid_counter + 1) % 2 ^ 64;
      futures = update c.futures c.allocated (new_future xid callback);
      allocated = suc c.allocated;
      pending_fu = (xid, c.allocated) ∷ erase xid c.pending_fu;
    }

-- `Client& operator<<`, of an operation on the Marshal.
abbrev pub write_argument : (State → State) → Client → Client
write_argument put c = if is_connected c.status then record c { out = put c.out } else c

-- A member of a future is used, which must not be deleted.
abbrev pub alive : Future → Outcome (Unit {0})
alive f = if ltb 0 f.refs then done tt else fault deleted

-- Where the client was closed meanwhile, the entry is taken back.
abbrev pub take_back : Option ℕ → ℤ → Client → Outcome Client
take_back none xid c = done c
take_back (some a) xid c = release (c.futures a) >>= λ f.
    done (record c { futures = update c.futures a f; pending_fu = erase xid c.pending_fu })

unfoldable pub give_up : ℕ → Client → Outcome Client
give_up a c =
    let xid = (c.futures a).xid in
    alive (c.futures a) >>= λ _. take_back (find xid c.pending_fu) xid c

-- Where it was not: the bookmark, the xid and the rpc id,
unfoldable pub write_head : ℕ → ℤ → Client → Outcome Client
write_head a rpc_id c = do
  r ← set_bookmark 4 c.out
  alive (c.futures a)
  let marked = record c { bmark = some r.1; out = r.0 }
  done (write_argument (put_int 4 rpc_id) (write_argument (put_v64 (c.futures a).xid) marked))

-- and the reference for the caller.
unfoldable pub hand_out : ℕ → Client → Outcome Client
hand_out a c = alive (c.futures a) >>= λ _.
    done (record c { futures = update c.futures a (ref_copy (c.futures a)) })

-- `begin_request` from the second look at `status_` on. `meanwhile i` is what other threads do in the
-- gap `i`: 0 before that look, 1 behind it, and 2 before the `ref_copy`.
unfoldable pub open_packet : (ℕ → Client → Client) → ℕ → ℤ → Client → Outcome (Option ℕ × Client)
open_packet meanwhile a rpc_id c =
    if is_connected c.status
    then (write_head a rpc_id (meanwhile 1 c) >>= λ d.
        hand_out a (meanwhile 2 d) >>= λ e. done (some a, e))
    else (give_up a (meanwhile 1 c) >>= λ d. done (none, d))

-- `begin_request(rpc_id, attr)`: the address of the future, or none for nullptr. The lock is held
-- afterwards in any case; `end_request` is to follow.
unfoldable pub begin_request :
    (ℕ → Client → Client) → ℤ → Bool → Client → Outcome (Option ℕ × Client)
begin_request meanwhile rpc_id callback c = do
  if c.out_l then fault blocked else done tt
  let locked = record c { out_l = true }
  if is_connected c.status
      then open_packet meanwhile c.allocated rpc_id (meanwhile 0 (enter callback locked))
      else done (none, locked)

-- `end_request()`
unfoldable pub end_request : Client → Client
end_request c = record c {
  out = close_packet c.bmark c.out;
  bmark = none;
  writing = true;
  out_l = false;
}

-- `packet_size - v_reply_xid.val_size() - v_error_code.val_size()`, in size_t.
abbrev pub results_size : List ℕ → ℤ → ℤ → ℕ
results_size packet_size xid error_code =
    (size_t_of packet_size + 2 * 2 ^ 64 - val_size xid - val_size error_code) % 2 ^ 64

-- The reply is handed to its future.
abbrev pub deliver : Option ℕ → ℤ → ℤ → ℕ → Client → Outcome Client
deliver none xid error_code size c = done c
deliver (some a) xid error_code size c = do
  let fu = c.futures a
  verify (eq_ℤ fu.xid xid)
  (h, reply, in_) ← read_from_marshal c.in_.0 fu.reply c.in_.1 size
  f ← release (notify_ready (record fu { error_code = error_code; reply = reply }))
  done (record c {
    in_ = (h, in_);
    pending_fu = erase xid c.pending_fu;
    futures = update c.futures a f;
  })

-- One round of the loop of `handle_read`. `junk` is what stands in the arrays of the two readers.
unfoldable pub take_reply : List ℕ × List ℕ → Client → Outcome Client
take_reply junk c = do
  (packet_size, t) ← get_bytes 4 c.in_
  (v_reply_xid, u) ← get_v64 junk.0 t
  (v_error_code, w) ← get_v32 junk.1 u
  deliver (find v_reply_xid c.pending_fu) v_reply_xid v_error_code
      (results_size packet_size v_reply_xid v_error_code) (record c { in_ = w })

-- The loop.
unfoldable pub take_replies : (ℕ → List ℕ × List ℕ) → ℕ → Client → Outcome Client
take_replies junk zero c = fault out_of_fuel
take_replies junk (suc fuel) c =
    if complete c.in_ then (take_reply (junk fuel) c >>= λ d. take_replies junk fuel d) else done c

-- The loop of `invalidate_pending_futures`.
unfoldable pub fail_all : List (ℤ × ℕ) → (ℕ → Future) → Outcome (ℕ → Future)
fail_all [] fs = done fs
fail_all ((k, a) ∷ es) fs =
    release (notify_ready (record (fs a) { error_code = enotconn })) >>= λ f.
    fail_all es (update fs a f)

unfoldable pub invalidate_pending_futures : Client → Outcome Client
invalidate_pending_futures c =
    fail_all c.pending_fu c.futures >>= λ fs. done (record c { futures = fs; pending_fu = [] })

-- `TCPClient::close()`
unfoldable pub close : Client → Outcome Client
close c = invalidate_pending_futures (record c { status = closed })
