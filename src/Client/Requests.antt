-- ===== src/Client/Requests.antt =====
-- `TCPClient::begin_request` … `end_request`: what a request puts on the wire.
use s_rpc.Base.{
  ℕ, ◌^◌, ◌<◌, ◌≡◌, refl, sym, ◌∙◌, ap, true, false, some, List, ◌∷◌, ◌++◌, Bool, arith, ==_refl,
  ltb, lt→ltb,
}
use mathlib.Core.Path.{subst}
use s_rpc.Base.Int.{ℤ, pos}
use s_rpc.Base.Outcome.{done}
use s_rpc.SparseInt.{pattern_of, signed}
use s_rpc.Marshal.Buffer.Write.{write-IsValid}
use s_rpc.Marshal.Bookmark.{Place, set_bookmark}
use s_rpc.Marshal.Bookmark.Marked.{written, join}
use s_rpc.Marshal.Wire.{State, bytes_of, put_bytes, put_int, put_v64}
use s_rpc.Marshal.Wire.Scalars.{Valid, pending}
use s_rpc.Marshal.Wire.Sparse.{sent}
use s_rpc.Packet.{frame, request_packet}
use s_rpc.Server.Replies.{close_packet_lem}
use s_rpc.Client.{
  Client, is_connected, ref_copy, update, enter, open_packet, write_head, hand_out, begin_request,
  end_request,
}

-- The state of a client between two requests.
pub record Ready (c : Client) : Type 0 where
  pub free : c.out_l ≡ false
  pub open_ : is_connected c.status ≡ true
  pub valid : Valid c.out
  pub counted : c.out.1.write_cnt ≡ 0
  pub xids_left : c.xid_counter < 2 ^ 63

-- The xid and the body of a request.
abbrev pub xid_of : Client → ℤ
xid_of c = pos c.xid_counter

abbrev pub body_of : ℤ → List (List ℕ) → List ℕ
body_of rpc_id arguments = bytes_of 4 (pattern_of 32 rpc_id) ++ join arguments

pub signed_small : (n : ℕ) → n < 2 ^ 63 → signed 64 n ≡ pos n
signed_small n h = let b : ltb n (2 ^ 63) ≡ true = lt→ltb n (2 ^ 63) h in ground (arith, b, h)

enter-out : (callback : Bool) (c : Client) → (enter callback c).out ≡ c.out
unfolding enter
enter-out callback c = refl

enter-xid :
    (callback : Bool) (c : Client)
    → c.xid_counter < 2 ^ 63
    → ((enter callback c).futures c.allocated).xid ≡ pos c.xid_counter
unfolding enter
enter-xid callback c small = rw (==_refl c.allocated) (signed_small c.xid_counter small)

-- A new future has the table's reference.
enter-refs : (callback : Bool) (c : Client) → ((enter callback c).futures c.allocated).refs ≡ 1
unfolding enter
enter-refs callback c = rw (==_refl c.allocated) refl

enter-open :
    (callback : Bool) (c : Client)
    → is_connected c.status ≡ true
    → is_connected (enter callback c).status ≡ true
unfolding enter
enter-open callback c h = h

write_head_lem :
    (rpc_id : ℤ) (a : ℕ) (m : Client) (t : State) (bm : List Place)
    → is_connected m.status ≡ true
    → set_bookmark 4 m.out ≡ done (t, bm)
    → 0 < (m.futures a).refs
    → write_head a rpc_id m
      ≡ done (record m { bmark = some bm; out = put_int 4 rpc_id (put_v64 (m.futures a).xid t) })
unfolding write_head
write_head_lem rpc_id a m t bm open_ set some_refs =
    let l : ltb 0 (m.futures a).refs ≡ true = ground (arith, some_refs) in
    rw (set, l, open_) (rw open_ refl)

open_packet_lem :
    (rpc_id : ℤ) (a : ℕ) (m : Client) (t : State) (bm : List Place)
    → is_connected m.status ≡ true
    → set_bookmark 4 m.out ≡ done (t, bm)
    → 0 < (m.futures a).refs
    → open_packet (λ i x. x) a rpc_id m
      ≡ done (
        some a,
        record m {
          bmark = some bm;
          out = put_int 4 rpc_id (put_v64 (m.futures a).xid t);
          futures = update m.futures a (ref_copy (m.futures a));
        },
      )
unfolding open_packet hand_out
open_packet_lem rpc_id a m t bm open_ set some_refs =
    let l : ltb 0 (m.futures a).refs ≡ true = ground (arith, some_refs) in
    rw (open_, write_head_lem rpc_id a m t bm open_ set some_refs, l) refl

-- On a connected client whose lock is free, and where no other thread acts meanwhile, `begin_request`,
-- any writes of arguments whose asserts hold, and `end_request` append one packet to what waits to be sent: its size, the
-- next xid, the rpc id and the arguments; `begin_request` returns the future just made, with a
-- reference for the caller, and `end_request` frees the lock.
pub end_request-begin_request :
    (rpc_id : ℤ) (callback : Bool) (arguments : List (List ℕ)) (c : Client)
    → Ready c
    → (d : Client) × (begin_request (λ i x. x) rpc_id callback c ≡ done (some c.allocated, d))
      × Valid d.out
      × (let e = end_request (record d { out = written arguments d.out }) in
          (pending e.out
            ≡ pending c.out ++ frame (request_packet (xid_of c) (body_of rpc_id arguments)))
          × Valid e.out
          × (e.out.1.write_cnt ≡ 0)
          × (e.out_l ≡ false)
          × (let m = enter callback (record c { out_l = true }) in
              (e.futures ≡ update m.futures c.allocated (ref_copy (m.futures c.allocated)))
              × (e.pending_fu ≡ m.pending_fu)
              × (e.in_ ≡ m.in_)))
unfolding begin_request end_request put_v64 put_int
end_request-begin_request rpc_id callback arguments c r =
    let locked : Client = record c { out_l = true } in
    let m = enter callback locked in
    let id = bytes_of 4 (pattern_of 32 rpc_id) in
    let same : m.out ≡ c.out = enter-out callback locked in
    let valid : Valid m.out = subst (λ s. Valid s) (sym same) r.valid in
    let counted : m.out.1.write_cnt ≡ 0 = ap (λ (s : State). s.1.write_cnt) same ∙ r.counted in
    let (t, bm, set, valid_t, (all, valid', cnt)) =
      close_packet_lem (sent (xid_of c) ∷ id ∷ arguments) m.out valid counted in
    let xid : (m.futures c.allocated).xid ≡ xid_of c = enter-xid callback locked r.xids_left in
    let owned : 0 < (m.futures c.allocated).refs = omega (arith, enter-refs callback locked) in
    let open_ : is_connected m.status ≡ true = enter-open callback locked r.open_ in
    let head : State = put_bytes (sent (xid_of c)) t in
    let d : Client = record m {
      bmark = some bm;
      out = put_bytes id head;
      futures = update m.futures c.allocated (ref_copy (m.futures c.allocated));
    } in
    (
      d,
      rw (r.free, r.open_, open_packet_lem rpc_id c.allocated m t bm open_ set owned, xid) refl,
      write-IsValid head.0 head.1 id (write-IsValid t.0 t.1 (sent (xid_of c)) valid_t),
      (
        all
            ∙ ap (λ s. pending s ++ frame (request_packet (xid_of c) (body_of rpc_id arguments)))
                same,
        valid',
        cnt,
        refl,
        (refl, refl, refl),
      ),
    )
