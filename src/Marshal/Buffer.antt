-- ===== src/Marshal/Buffer.antt =====
-- The class Marshal itself: src/misc/marshal.hpp and marshal.cpp. `chunks` is the chain from `head_`
-- to `tail_`; `head_` and `tail_` are null when it is empty.
pub mod Write
pub mod Read
use s_rpc.Base.{
  ℕ, zero, suc, ◌+◌, ◌-◌, ◌%◌, ◌^◌, ◌≤◌, ◌<◌, ◌≡◌, ◌≢◌, ◌&&◌, ◌||◌, Bool, true, List, [], ◌∷◌, ◌++◌,
  ◌==◌, ltb, if◌then◌else◌, length, min, take, drop, All,
}
use s_rpc.Base.Outcome.{Outcome, done, verify, ◌>>=◌, ◌>>◌}
use s_rpc.Marshal.Memory.{Memory}
use s_rpc.Marshal.Chunk
use s_rpc.Marshal.Chunk.{
  Chunk, IsWindow, content_size, window, fully_written, fully_read, new_from, new_empty,
}

pub record Marshal : Type 0 where
  pub chunks : List Chunk
  pub write_cnt : ℕ
  pub content_size : ℕ

-- `Marshal()`
abbrev pub empty_marshal : Marshal
empty_marshal = record { chunks = []; write_cnt = 0; content_size = 0 }

-- `content_size_slow`
unfoldable pub content_size_slow : List Chunk → ℕ
content_size_slow [] = 0
content_size_slow (c ∷ cs) = Chunk.content_size c + content_size_slow cs

-- The bytes that are waiting to be read.
unfoldable pub contents : Memory → List Chunk → List ℕ
contents h [] = []
contents h (c ∷ cs) = window h c ++ contents h cs

-- `write` at the tail of the chain.
unfoldable pub write_tail : Memory → Chunk → List ℕ → Memory × List Chunk
write_tail h tail p =
    if fully_written tail
    then (let (h', d) = new_from h p in (h', tail ∷ d ∷ []))
    else let (h', tail', n_write) = Chunk.write h tail p in
      if ltb n_write (length p)
      then (let (h'', d) = new_from h' (drop n_write p) in (h'', tail' ∷ d ∷ []))
      else (h', tail' ∷ [])

unfoldable pub write_chain : Memory → List Chunk → List ℕ → Memory × List Chunk
unfolding write_tail
write_chain h [] p = let (h', c) = new_from h p in (h', c ∷ [])
write_chain h (c ∷ []) p = write_tail h c p
write_chain h (c ∷ d ∷ cs) p = let (h', ds) = write_chain h (d ∷ cs) p in (h', c ∷ ds)

-- `write_cnt_` is an i32: its bit pattern wraps at 2 ^ 32.
abbrev pub add_cnt : ℕ → ℕ → ℕ
add_cnt cnt n = (cnt + n) % 2 ^ 32

-- `write(const void* p, size_t n)` but for its assert(n_write > 0). On a valid Marshal that holds for
-- one byte or more (`assert_write-write` of Buffer/Write.antt); a caller that may have none to write
-- goes through `assert_write`.
unfoldable pub write : Memory → Marshal → List ℕ → Memory × Marshal
unfolding write_chain
write h m p =
    let (h', cs) = write_chain h m.chunks p in
    (
      h',
      record {
        chunks = cs;
        write_cnt = add_cnt m.write_cnt (length p);
        content_size = m.content_size + length p;
      },
    )

-- Whether the tail, if there is one, is fully written.
abbrev pub last_full : List Chunk → Bool
last_full [] = true
last_full (c ∷ []) = fully_written c
last_full (c ∷ d ∷ cs) = last_full (d ∷ cs)

-- What is free in the tail.
abbrev pub room : List Chunk → ℕ
room [] = 0
room (c ∷ []) = c.size - c.write_idx
room (c ∷ d ∷ cs) = room (d ∷ cs)

-- `write` with its assert(n_write > 0): where the tail has room, there must be bytes to put there.
unfoldable pub assert_write : Memory → Marshal → List ℕ → Outcome (Memory × Marshal)
unfolding write
assert_write h m p = do
  verify (last_full m.chunks || ltb 0 (min (length p) (room m.chunks)))
  done (write h m p)

-- The loop of `read`. A head that is not fully read ends it: either it gave all that was asked for,
-- or it has nothing left, and the loop's test fails.
unfoldable pub read_chain : Memory → List Chunk → ℕ → List ℕ × List Chunk
read_chain h [] n = ([], [])
read_chain h (c ∷ cs) n =
    let (out, c') = Chunk.read h c n in
    let (more, rest) = read_chain h cs (n - min n (Chunk.content_size c)) in
    if ltb 0 n && ltb 0 (Chunk.content_size c)
    then (if fully_read c' then (out ++ more, rest) else (out, c' ∷ cs))
    else ([], c ∷ cs)

-- `read(void* p, size_t n)`: the bytes copied to `p`.
unfoldable pub read : Memory → Marshal → ℕ → List ℕ × Marshal
unfolding read_chain
read h m n =
    let (out, cs) = read_chain h m.chunks n in
    (out, record m { chunks = cs; content_size = m.content_size - length out })

-- The loop of `peek`.
unfoldable pub peek_chain : Memory → List Chunk → ℕ → List ℕ
peek_chain h [] n = []
peek_chain h (c ∷ cs) n =
    let out = Chunk.peek h c n in
    let more = peek_chain h cs (n - length out) in
    if ltb 0 n then (if length out == 0 then [] else out ++ more) else []

-- `peek(void* p, size_t n)`
unfoldable pub peek : Memory → Marshal → ℕ → List ℕ
unfolding peek_chain
peek h m n = peek_chain h m.chunks n

-- The invariant of the chain: only the tail may have room, every other chunk has bytes to read, and
-- no chunk is read to the end of its block.
abbrev pub IsChain : List Chunk → Type 0
IsChain [] = Unit {0}
IsChain (c ∷ []) = IsWindow c × (c.read_idx < c.size)
IsChain (c ∷ d ∷ cs) =
    IsWindow c × (c.write_idx ≡ c.size) × (c.read_idx < c.size) × IsChain (d ∷ cs)

-- The blocks of the chain are in use, and no two chunks share one.
abbrev pub IsApart : ℕ → List Chunk → Type 0
IsApart n [] = Unit {0}
IsApart n (c ∷ cs) = (c.data_ptr < n) × All (λ d. d.data_ptr ≢ c.data_ptr) cs × IsApart n cs

pub record IsValid (h : Memory) (m : Marshal) : Type 0 where
  pub chain : IsChain m.chunks
  pub apart : IsApart h.next m.chunks
  pub counted : m.content_size ≡ content_size_slow m.chunks
