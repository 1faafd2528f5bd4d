-- ===== src/Marshal/Socket.antt =====
-- `Marshal::read_from_fd` and `write_to_fd` (src/misc/marshal.cpp), and those of a chunk
-- (marshal.hpp). The socket is an argument: `::read` and `::write` on a descriptor that does not
-- block.
pub mod Incoming
pub mod Outgoing
use s_rpc.Base.{
  ℕ, zero, suc, ◌+◌, ◌-◌, ◌≤◌, ◌≡◌, Bool, List, [], ◌∷◌, ◌++◌, ◌==◌, ltb, if◌then◌else◌, length,
  take,
}
use s_rpc.Base.Outcome.{Outcome, done, fault, out_of_fuel, null_pointer, ◌>>=◌}
use s_rpc.Marshal.Memory.{Memory, store}
use s_rpc.Marshal.Chunk
use s_rpc.Marshal.Chunk.{Chunk, new_empty, fully_written, fully_read, window}
use s_rpc.Marshal.Buffer.{Marshal, add_cnt}
use s_rpc.Marshal.Buffer.{room}
use s_rpc.Marshal.Wire.{State}

-- `receive n` is a `::read` of at most `n` bytes: what it gives, which is nothing where the call
-- returns 0 or -1. `send p` is a `::write`: how many bytes it took, 0 where it fails.
pub record Socket (S : Type 0) : Type 0 where
  pub receive : ℕ → S → List ℕ × S
  pub send : List ℕ → S → ℕ × S

-- What the system promises: a call gives or takes no more than it is asked to, and the bytes of the
-- stream in their order. `ahead` are the bytes that can still be received, `behind` those that were
-- sent.
pub record InOrder {S : Type 0} (socket : Socket S) : Type 0 where
  pub ahead : S → List ℕ
  pub behind : S → List ℕ
  pub receive_le : (n : ℕ) (s : S) → length (socket.receive n s).0 ≤ n
  pub receive_next :
      (n : ℕ) (s : S) → ahead s ≡ (socket.receive n s).0 ++ ahead (socket.receive n s).1
  pub send_le : (p : List ℕ) (s : S) → (socket.send p s).0 ≤ length p
  pub send_next :
      (p : List ℕ) (s : S) → behind (socket.send p s).1 ≡ behind s ++ take (socket.send p s).0 p

-- A tail with room: the beginning of the loop of `read_from_fd`.
unfoldable pub ensure_tail : Memory → List Chunk → Memory × List Chunk
ensure_tail h [] = let (h', d) = new_empty h in (h', d ∷ [])
ensure_tail h (c ∷ []) =
    if fully_written c then (let (h', d) = new_empty h in (h', c ∷ d ∷ [])) else (h, c ∷ [])
ensure_tail h (c ∷ d ∷ cs) = let (h', ds) = ensure_tail h (d ∷ cs) in (h', c ∷ ds)

-- The bytes that `::read` has put behind the tail's own.
unfoldable pub fill_tail : Memory → List Chunk → List ℕ → Memory × List Chunk
fill_tail h [] p = (h, [])
fill_tail h (c ∷ []) p =
    (store h c.data_ptr c.write_idx p, record c { write_idx = c.write_idx + length p } ∷ [])
fill_tail h (c ∷ d ∷ cs) p = let (h', ds) = fill_tail h (d ∷ cs) p in (h', c ∷ ds)

-- `head_` after `cnt` of its bytes were written.
abbrev pub advance : Chunk → ℕ → List Chunk → List Chunk
advance c cnt cs =
    let c' = record c { read_idx = c.read_idx + cnt } in if fully_read c' then cs else c' ∷ cs

module _ {S : Type 0} (socket : Socket S) where
  -- `chunk::read_from_fd` at the tail.
  abbrev pub pull : List Chunk → S → List ℕ × S
  pull cs s = if ltb 0 (room cs) then socket.receive (room cs) s else ([], s)

  -- The loop of `read_from_fd`, with the number of bytes that it has read.
  unfoldable pub pull_all : ℕ → Memory → List Chunk → S → Outcome (Memory × List Chunk × ℕ × S)
  pull_all zero h cs s = fault out_of_fuel
  pull_all (suc fuel) h cs s =
      let (h', ds) = ensure_tail h cs in
      let (p, s') = pull ds s in
      let (h'', es) = fill_tail h' ds p in
      let rest = pull_all fuel h'' es s' >>= λ r. done (r.0, r.1, length p + r.2, r.3) in
      if length p == 0 then done (h', ds, 0, s') else rest

  -- `read_from_fd(int fd)`: how many bytes were read.
  unfoldable pub read_from_fd : ℕ → State → S → Outcome (ℕ × State × S)
  read_from_fd fuel t s = pull_all fuel t.0 t.1.chunks s >>= λ (h, cs, n, s'). done (
    n,
    (
      h,
      record {
        chunks = cs;
        write_cnt = add_cnt t.1.write_cnt n;
        content_size = t.1.content_size + n;
      },
    ),
    s',
  )

  -- The loop of `write_to_fd`; `left` is `content_size_`.
  unfoldable pub push_all : ℕ → Memory → List Chunk → ℕ → S → Outcome (List Chunk × ℕ × S)
  push_all zero h cs left s = fault out_of_fuel
  push_all (suc fuel) h [] left s = if left == 0 then done ([], 0, s) else fault null_pointer
  push_all (suc fuel) h (c ∷ cs) left s =
      let (cnt, s') = socket.send (window h c) s in
      let ds = advance c cnt cs in
      let rest = push_all fuel h ds (left - cnt) s' in
      if left == 0 then done (c ∷ cs, left, s) else (if cnt == 0 then done (ds, left, s') else rest)

  -- `write_to_fd(int fd)`: how many bytes were written.
  unfoldable pub write_to_fd : ℕ → State → S → Outcome (ℕ × State × S)
  write_to_fd fuel t s = push_all fuel t.0 t.1.chunks t.1.content_size s >>= λ (cs, left, s').
      done (t.1.content_size - left, (t.0, record t.1 { chunks = cs; content_size = left }), s')
