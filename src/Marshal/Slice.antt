-- ===== src/Marshal/Slice.antt =====
-- `Marshal::read_from_marshal` and `chunk::shared_copy` (src/misc/marshal.cpp and marshal.hpp): the
-- first `n` bytes of one Marshal become the last of another. The two lie in one memory, and may
-- share blocks afterwards. The asserts stand: the build is a debug build. A null `head_` that is
-- followed is a fault.
pub mod Shared
pub mod Parted
pub mod Whole
use s_rpc.Base.{
  ℕ, zero, suc, ◌+◌, ◌-◌, ◌≡◌, refl, arith, Bool, true, false, List, [], ◌∷◌, ◌++◌, ◌==◌, ltb, leb,
  if◌then◌else◌, length, min,
}
use s_rpc.Base.Outcome.{Outcome, done, fault, null_pointer, verify_failed, ◌>>=◌, ◌>>◌, verify}
use s_rpc.Marshal.Memory.{Memory}
use s_rpc.Marshal.Chunk
use s_rpc.Marshal.Chunk.{Chunk, fully_written, fully_read}
use s_rpc.Marshal.Buffer
use s_rpc.Marshal.Buffer.{Marshal, add_cnt, last_full, room, assert_write}

-- `shared_copy`: another window of the same block, and the cut to what is still needed.
abbrev pub shared_copy : Chunk → Chunk
shared_copy c = c

unfoldable pub cut_copy : ℕ → Chunk → Chunk
cut_copy n c =
    let d = shared_copy c in
    if ltb n (Chunk.content_size d)
    then record d { write_idx = d.write_idx - (Chunk.content_size d - n) }
    else d

-- The loop that shares blocks: `n` bytes are still to be fetched. It gives the chunks that go behind
-- those of the receiver, and what is left of the sender's. Where the head is not fully read after its
-- part, the loop's test has failed: it had more than was needed, or the asserts failed.
unfoldable pub share_chain : List Chunk → ℕ → Outcome (List Chunk × List Chunk)
unfolding cut_copy
share_chain [] n = if n == 0 then done ([], []) else fault null_pointer
share_chain (c ∷ cs) n =
    let d = cut_copy n c in
    let cnt = Chunk.content_size d in
    let more = share_chain cs (n - cnt) in
    let (c', discarded) = Chunk.discard c cnt in
    if n == 0 then done ([], c ∷ cs) else (do
      verify (ltb 0 cnt)
      verify (discarded == cnt)
      if fully_read c'
          then (do (ds, rest) ← more; done (d ∷ ds, rest))
          else (if n - cnt == 0 then done (d ∷ [], c' ∷ cs) else fault verify_failed))

-- The branch that copies pointers.
unfoldable pub share : Marshal → Marshal → ℕ → Outcome (Marshal × Marshal)
unfolding share_chain
share this m n = do
  (ds, rest) ← share_chain m.chunks n
  verify (leb n m.content_size)
  done (
    record {
      chunks = this.chunks ++ ds;
      write_cnt = add_cnt this.write_cnt n;
      content_size = this.content_size + n;
    },
    record m { chunks = rest; content_size = m.content_size - n },
  )

-- The branch that copies bytes into the tail; the rest goes through the other branch, since the tail
-- is then full.
unfoldable pub copy : Memory → Marshal → Marshal → ℕ → Outcome (Memory × Marshal × Marshal)
unfolding share Buffer.read assert_write
copy h this m n = do
  let copy_n = min (room this.chunks) n
  let (buf, m') = Buffer.read h m copy_n
  verify (length buf == copy_n)
  (h', this') ← assert_write h this buf
  let leftover = n - copy_n
  if ltb 0 leftover
      then (do
        verify (last_full this'.chunks)
        verify (leb leftover m'.content_size)
        (this'', m'') ← share this' m' leftover
        done (h', this'', m''))
      else done (h', this', m')

-- `read_from_marshal(Marshal& m, size_t n)`
unfoldable pub read_from_marshal :
    Memory → Marshal → Marshal → ℕ → Outcome (Memory × Marshal × Marshal)
unfolding share copy
read_from_marshal h this m n = do
  verify (leb n m.content_size)
  if last_full this.chunks
      then (do (this', m') ← share this m n; done (h, this', m'))
      else copy h this m n

-- `read` of no bytes.
read_zero : (h : Memory) (m : Marshal) → (Buffer.read h m 0).0 ≡ []
unfolding Buffer.read Buffer.read_chain
read_zero h m = go m.chunks
  where
    go : (cs : List Chunk) → (Buffer.read_chain h cs 0).0 ≡ []
    go [] = refl
    go (c ∷ cs) = ground arith

-- Where the tail of a Marshal has room, `read_from_marshal` of no bytes from any other Marshal fails
-- the assert of `write`.
pub read_nothing :
    (h : Memory) (this m : Marshal)
    → last_full this.chunks ≡ false
    → read_from_marshal h this m 0 ≡ fault verify_failed
unfolding read_from_marshal copy assert_write
read_nothing h this m e =
    let a : leb 0 m.content_size ≡ true = ground arith in
    let b : min (room this.chunks) 0 ≡ 0 = omega arith in
    let c : ltb 0 (min 0 (room this.chunks)) ≡ false = ground arith in
    rw (a, e, b, read_zero h m, c) refl
