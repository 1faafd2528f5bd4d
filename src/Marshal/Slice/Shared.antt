-- ===== src/Marshal/Slice/Shared.antt =====
-- The loop of `read_from_marshal` that shares blocks: it splits what waits in the sender.
use s_rpc.Base.{
  ℕ, ◌<◌, ◌≡◌, ◌≢◌, refl, sym, true, false, List, [], ◌∷◌, arith, take, drop, min, All, ltb,
}
use s_rpc.Marshal.Memory.{Memory, take-bytes_from}
use s_rpc.Marshal.Chunk
use s_rpc.Marshal.Chunk.{Chunk, IsWindow, window, fully_read, window-read}
use s_rpc.Marshal.Buffer.{contents, IsChain, IsApart}
use s_rpc.Marshal.Slice.{cut_copy}

pub cut_copy-content_size :
    (c : Chunk) (n : ℕ)
    → IsWindow c
    → Chunk.content_size (cut_copy n c) ≡ min n (Chunk.content_size c)
unfolding cut_copy
cut_copy-content_size c n v = ground arith

pub cut_copy-data_ptr : (c : Chunk) (n : ℕ) → (cut_copy n c).data_ptr ≡ c.data_ptr
unfolding cut_copy
cut_copy-data_ptr c n = ground arith

pub cut_copy-window :
    (h : Memory) (c : Chunk) (n : ℕ) → IsWindow c → window h (cut_copy n c) ≡ take n (window h c)
cut_copy-window h c n v =
    let start : (cut_copy n c).read_idx ≡ c.read_idx = unfold cut_copy in ground arith in
    rw (cut_copy-content_size c n v, cut_copy-data_ptr c n, start)
      (sym (take-bytes_from n (Chunk.content_size c) (h.at c.data_ptr) c.read_idx))

-- The copy is a window that ends in its block.
pub cut_copy-IsChain :
    (c : Chunk) (n : ℕ) → IsWindow c → c.read_idx < c.size → IsChain (cut_copy n c ∷ [])
unfolding cut_copy
cut_copy-IsChain c n v lt = ground arith

-- The sender's chunk is as after `read`.
pub discard-read :
    (h : Memory) (c : Chunk) (n : ℕ)
    → IsWindow c
    → Chunk.discard c (Chunk.content_size (cut_copy n c))
      ≡ ((Chunk.read h c n).1, Chunk.content_size (cut_copy n c))
unfolding Chunk.discard Chunk.read
discard-read h c n v =
    let k = Chunk.content_size c in
    let e : min (min n k) k ≡ min n k = omega arith in rw (cut_copy-content_size c n v, e) refl

-- A chunk that is used up was full, and its copy is the chunk itself.
pub used_copy :
    (h : Memory) (c : Chunk) (n : ℕ)
    → IsWindow c
    → fully_read (Chunk.read h c n).1 ≡ true
    → (cut_copy n c ≡ c) × (c.write_idx ≡ c.size)
unfolding cut_copy Chunk.read
used_copy h c n v e =
    let whole : ltb n (Chunk.content_size c) ≡ false = ground arith in (rw whole refl, ground arith)

-- No chunk of the chain stands on block `b`.
abbrev pub Away : ℕ → List Chunk → Type 0
Away b cs = All (λ d. d.data_ptr ≢ b) cs

-- What the loop leaves: the chunks for the receiver and those of the sender.
pub record Splits (h : Memory) (cs : List Chunk) (n : ℕ) (r : List Chunk × List Chunk)
    : Type 0 where
  pub taken : contents h r.0 ≡ take n (contents h cs)
  pub left : contents h r.1 ≡ drop n (contents h cs)
  pub chain_taken : IsChain r.0
  pub chain_left : IsChain r.1
  pub others : (b : ℕ) → Away b cs → Away b r.0 × Away b r.1
  pub apart : (m : ℕ) → IsApart m cs → IsApart m r.0 × IsApart m r.1
