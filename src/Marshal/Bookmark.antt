-- ===== src/Marshal/Bookmark.antt =====
-- `Marshal::set_bookmark`, `write_bookmark` and `get_and_reset_write_cnt` (src/misc/marshal.hpp and
-- marshal.cpp): places in the chain are skipped, and filled in when what stands behind them is
-- known. A place is a block with an offset, the `char *` of the code.
pub mod Places
pub mod Reserve
pub mod Marked
pub mod Filled
use s_rpc.Base.{ℕ, zero, suc, List, [], ◌∷◌, ◌==◌, ◌+◌, if◌then◌else◌}
use s_rpc.Base.Outcome.{Outcome, done, ◌>>=◌, ◌>>◌, verify}
use s_rpc.Marshal.Memory.{Memory, store}
use s_rpc.Marshal.Chunk
use s_rpc.Marshal.Chunk.{Chunk, new_empty, fully_written}
use s_rpc.Marshal.Buffer.{Marshal}
use s_rpc.Marshal.Wire.{State}

abbrev pub Place : Type 0
Place = ℕ × ℕ

-- One round of the loop, with the place that it skips: at the tail of the chain.
unfoldable pub reserve_tail : Memory → Chunk → Memory × List Chunk × Place
reserve_tail h c =
    if fully_written c
    then (let (h', d) = new_empty h in let (d', p) = Chunk.set_bookmark d in (h', c ∷ d' ∷ [], p))
    else let (c', p) = Chunk.set_bookmark c in (h, c' ∷ [], p)

unfoldable pub reserve_chain : Memory → List Chunk → Memory × List Chunk × Place
unfolding reserve_tail
reserve_chain h [] =
    let (h', d) = new_empty h in let (d', p) = Chunk.set_bookmark d in (h', d' ∷ [], p)
reserve_chain h (c ∷ []) = reserve_tail h c
reserve_chain h (c ∷ d ∷ cs) = let (h', ds, p) = reserve_chain h (d ∷ cs) in (h', c ∷ ds, p)

-- The loop.
unfoldable pub reserve : ℕ → Memory → List Chunk → Memory × List Chunk × List Place
unfolding reserve_chain
reserve zero h cs = (h, cs, [])
reserve (suc n) h cs =
    let (h', cs', p) = reserve_chain h cs in
    let (h'', cs'', ps) = reserve n h' cs' in (h'', cs'', p ∷ ps)

-- `set_bookmark(size_t n)`
unfoldable pub set_bookmark : ℕ → State → Outcome (State × List Place)
unfolding reserve
set_bookmark n s = do
  verify (s.1.write_cnt == 0)
  let r = reserve n s.0 s.1.chunks
  done ((r.0, record s.1 { chunks = r.1; content_size = s.1.content_size + n }), r.2)

-- `write_bookmark(bookmark *bm, const void *p)`
unfoldable pub fill : Memory → List Place → List ℕ → Memory
fill h [] p = h
fill h (a ∷ bm) [] = h
fill h (a ∷ bm) (x ∷ p) = fill (store h a.0 a.1 (x ∷ [])) bm p

abbrev pub write_bookmark : List Place → List ℕ → State → State
write_bookmark bm p s = (fill s.0 bm p, s.1)

-- `get_and_reset_write_cnt()`: the pattern of the i32, and the Marshal.
abbrev pub get_and_reset_write_cnt : State → ℕ × State
get_and_reset_write_cnt s = (s.1.write_cnt, (s.0, record s.1 { write_cnt = 0 }))
