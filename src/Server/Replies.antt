-- ===== src/Server/Replies.antt =====
-- Replies of `TCPConnection`: `begin_reply`, what a handler writes, and `end_reply`.
use s_rpc.Base.{ℕ, ◌%◌, ◌^◌, ◌<◌, ◌≡◌, refl, sym, true, false, some, List, [], ◌∷◌, ◌++◌, length}
use mathlib.Core.Path.{subst}
use s_rpc.Base.Int.{ℤ}
use s_rpc.Base.Outcome.{done}
use s_rpc.SparseInt.{magnitude}
use s_rpc.SparseInt.Sizes.{dump_i32-eq-dump_i64}
use s_rpc.Marshal.Bookmark.{Place, set_bookmark, fill}
use s_rpc.Marshal.Bookmark.Marked.{written, join}
use s_rpc.Marshal.Bookmark.Filled.{write_bookmark-written}
use s_rpc.Marshal.Wire.{State, bytes_of, put_bytes, put_v32, put_v64}
use s_rpc.Marshal.Wire.Scalars.{Valid, pending, length-bytes_of}
use s_rpc.Marshal.Wire.Sparse.{sent}
use s_rpc.Packet.{frame, reply_packet}
use s_rpc.Server.{Connection, begin_reply, end_reply, close_packet, refuse}

-- The state of a connection between two replies: the lock is free and no byte is counted.
pub record Ready (c : Connection) : Type 0 where
  pub free : c.out_l ≡ false
  pub valid : Valid c.out
  pub counted : c.out.1.write_cnt ≡ 0

-- A packet is closed by its size.
pub close_packet_lem :
    (ps : List (List ℕ)) (s : State)
    → Valid s
    → s.1.write_cnt ≡ 0
    → (t : State) × (bm : List Place) × (set_bookmark 4 s ≡ done (t, bm))
      × Valid t
      × (let u = close_packet (some bm) (written ps t) in
          (pending u ≡ pending s ++ frame (join ps)) × Valid u × (u.1.write_cnt ≡ 0))
close_packet_lem ps s v z =
    let size = bytes_of 4 (length (join ps) % 2 ^ 32) in
    let (t, bm, set, valid_t, (all, valid, cnt)) = write_bookmark-written size ps s v z in
    (
      t,
      bm,
      rw (length-bytes_of 4 (length (join ps) % 2 ^ 32)) at set,
      valid_t,
      (
        subst
            (λ k.
              pending (fill (written ps t).0 bm (bytes_of 4 k), (written ps t).1)
              ≡ pending s ++ frame (join ps))
            (sym cnt) all,
        subst
            (λ k.
              Valid (
                fill (written ps t).0 bm (bytes_of 4 k),
                record (written ps t).1 { write_cnt = 0 },
              ))
            (sym cnt)
            (record { chain = valid.chain; apart = valid.apart; counted = valid.counted }),
        refl,
      ),
    )

-- On a connection whose lock is free, `begin_reply` with an error code of 32 bits, any writes to
-- the connection whose asserts hold, and `end_reply` append one packet to what waits to be sent: its size, the xid, the
-- error code and what was written. The lock is then free again, and the poll mode has its WRITE
-- bit.
pub end_reply-begin_reply :
    (xid error_code : ℤ) (ps : List (List ℕ)) (c : Connection)
    → magnitude error_code < 2 ^ 31
    → Ready c
    → (d : Connection) × (begin_reply xid error_code c ≡ done d)
      × (let e = end_reply (record d { out = written ps d.out }) in
          (pending e.out ≡ pending c.out ++ frame (reply_packet xid error_code (join ps)))
          × Ready e
          × (e.writing ≡ true))
unfolding begin_reply end_reply put_v64 put_v32
end_reply-begin_reply xid error_code ps c small r =
    let (t, bm, set, _, (all, valid, cnt)) =
      close_packet_lem (sent xid ∷ sent error_code ∷ ps) c.out r.valid r.counted in
    let same = dump_i32-eq-dump_i64 error_code small in
    let d : Connection = record c {
      out_l = true;
      bmark = some bm;
      out = put_bytes (sent error_code) (put_bytes (sent xid) t);
    } in
    (
      d,
      rw (r.free, set, same) refl,
      (all, record { free = refl; valid = valid; counted = cnt }, refl),
    )

-- A reply that is an error code alone.
pub refuse_lem :
    (xid error_code : ℤ) (c : Connection)
    → magnitude error_code < 2 ^ 31
    → Ready c
    → (e : Connection) × (refuse xid error_code c ≡ done e)
      × (pending e.out ≡ pending c.out ++ frame (reply_packet xid error_code []))
      × Ready e
      × (e.writing ≡ true)
refuse_lem xid error_code c small r =
    let (d, begun, (all, ready, on)) = end_reply-begin_reply xid error_code [] c small r in
    (end_reply d, rw begun refl, all, ready, on)
