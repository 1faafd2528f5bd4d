-- ===== src/Marshal/Slice/Whole.antt =====
-- `read_from_marshal` into a Marshal that holds nothing, as the server's and the client's packet loops
-- call it.
use s_rpc.Base.{
  ℕ, ◌+◌, ◌-◌, ◌≤◌, ◌≡◌, refl, ap, true, arith, length, take, drop, leb, length-take, length-drop,
}
use s_rpc.Base.Outcome.{done, Succeeds-done}
use s_rpc.Marshal.Memory.{Memory}
use s_rpc.Marshal.Buffer.{Marshal, IsValid, contents, empty_marshal, add_cnt}
use s_rpc.Marshal.Buffer.Write.{content_size_slow-contents}
use s_rpc.Marshal.Slice.{read_from_marshal, share, share_chain}
use s_rpc.Marshal.Slice.Shared.{Splits}
use s_rpc.Marshal.Slice.Parted.{share_chain-Splits}

-- From a valid Marshal with at least `n` bytes waiting, `read_from_marshal` into an empty one succeeds
-- and moves no byte of memory: the receiver then holds exactly the first `n` bytes, the sender the
-- others, in order, and both are valid.
pub read_from_marshal_lem :
    (h : Memory) (m : Marshal) (n : ℕ)
    → IsValid h m
    → n ≤ length (contents h m.chunks)
    → (req : Marshal) × (m' : Marshal) × (read_from_marshal h empty_marshal m n ≡ done (h, req, m'))
      × (contents h req.chunks ≡ take n (contents h m.chunks))
      × (contents h m'.chunks ≡ drop n (contents h m.chunks))
      × IsValid h req
      × IsValid h m'
unfolding read_from_marshal share
read_from_marshal_lem h m n v le =
    let (r, e, p) =
      Succeeds-done (Splits h m.chunks n) (share_chain m.chunks n)
        (share_chain-Splits h m.chunks n v.chain le) in
    let size = content_size_slow-contents h m.chunks in
    let enough : leb n m.content_size ≡ true = ground (arith, v.counted, size) in
    let (a, b) = p.apart h.next v.apart in
    (
      record { chunks = r.0; write_cnt = add_cnt 0 n; content_size = 0 + n },
      record m { chunks = r.1; content_size = m.content_size - n },
      rw (enough, e) refl,
      p.taken,
      p.left,
      record {
        chain = p.chain_taken;
        apart = a;
        counted = omega (
          arith,
          content_size_slow-contents h r.0,
          ap length p.taken,
          length-take n (contents h m.chunks),
          le,
        );
      },
      record {
        chain = p.chain_left;
        apart = b;
        counted = omega (
          arith,
          v.counted,
          size,
          content_size_slow-contents h r.1,
          ap length p.left,
          length-drop n (contents h m.chunks),
        );
      },
    )
