-- ===== src/Packet.antt =====
-- The packets that src/rpc/client.cpp and src/rpc/server.cpp exchange: a size of four bytes, and as many
-- bytes as it says.
--   request: <size> <xid> <rpc_id> <arguments>      reply: <size> <xid> <error code> <results>
pub mod Complete
pub mod Reading
use s_rpc.Base.{
  ℕ, ◌+◌, ◌*◌, ◌%◌, ◌^◌, ◌≤◌, ◌<◌, ◌≡◌, ◌⊎◌, Bool, ◌&&◌, List, ◌++◌, ◌==◌, leb, length,
}
use s_rpc.Base.Int.{ℤ}
use s_rpc.SparseInt.{pattern_of, signed, of_bytes}
use s_rpc.Marshal.Buffer.{Marshal, peek}
use s_rpc.Marshal.Wire.{State, bytes_of}
use s_rpc.Marshal.Wire.Sparse.{sent}

-- The i32 in four bytes, as the size_t that it becomes where it is added to `sizeof(i32)` or passed to
-- `read_from_marshal`.
abbrev pub size_t_of : List ℕ → ℕ
size_t_of p = pattern_of 64 (signed 32 (of_bytes p))

-- `n_peek == sizeof(i32) && in_.content_size() >= packet_size + sizeof(i32)`
unfoldable pub complete : State → Bool
complete s =
    let packet_size = peek s.0 s.1 4 in
    (length packet_size == 4) && leb ((size_t_of packet_size + 4) % 2 ^ 64) s.1.content_size

-- What one packet is on the wire. `write_cnt_` is an i32, so the size wraps at 2 ^ 32.
abbrev pub frame : List ℕ → List ℕ
frame p = bytes_of 4 (length p % 2 ^ 32) ++ p

abbrev pub request_packet : ℤ → List ℕ → List ℕ
request_packet xid body = sent xid ++ body

abbrev pub reply_packet : ℤ → ℤ → List ℕ → List ℕ
reply_packet xid error_code results = sent xid ++ (sent error_code ++ results)

-- What stands at the end of the stream: no packet yet, or the beginning of one.
abbrev pub Incomplete : List ℕ → Type 0
Incomplete rest =
    (length rest < 4)
    ⊎ ((p : List ℕ) × (more : List ℕ) × (frame p ≡ rest ++ more)
        × (length p < 2 ^ 31)
        × (0 < length more))
