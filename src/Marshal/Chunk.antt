-- ===== src/Marshal/Chunk.antt =====
-- `Marshal::chunk` in src/misc/marshal.hpp: a window of a block, from `read_idx` to `write_idx`.
-- The asserts of its methods are the invariant `IsWindow`, which every method keeps.
use s_rpc.Base.{
  ℕ, suc, ◌+◌, ◌-◌, ◌≤◌, ◌<◌, ◌≡◌, ◌≢◌, Bool, List, ◌++◌, arith, ◌==◌, length, min, take, drop,
  length-take, sym,
}
use s_rpc.Marshal.Memory.{
  Memory, store, fresh, bytes_from, store_self, store_other, store_append, take-bytes_from,
  drop-bytes_from,
}
use Prim.Native.Nat.{max}

-- `size` is `data->size`, which no method changes; `next` is the place in the chain.
pub record Chunk : Type 0 where
  pub data_ptr : ℕ
  pub size : ℕ
  pub read_idx : ℕ
  pub write_idx : ℕ

-- `raw_bytes::min_size`
abbrev pub min_size : ℕ
min_size = 8192

-- `chunk()`
unfoldable pub new_empty : Memory → Memory × Chunk
new_empty h = (fresh h, record { data_ptr = h.next; size = min_size; read_idx = 0; write_idx = 0 })

-- `chunk(const void *p, size_t n)`
unfoldable pub new_from : Memory → List ℕ → Memory × Chunk
new_from h p = (
  store (fresh h) h.next 0 p,
  record { data_ptr = h.next; size = max (length p) min_size; read_idx = 0; write_idx = length p },
)

abbrev pub content_size : Chunk → ℕ
content_size c = c.write_idx - c.read_idx

-- `set_bookmark`: the place that is skipped, as block and offset.
unfoldable pub set_bookmark : Chunk → Chunk × (ℕ × ℕ)
set_bookmark c = (record c { write_idx = suc c.write_idx }, (c.data_ptr, c.write_idx))

-- `write`: as much of `p` as fits.
unfoldable pub write : Memory → Chunk → List ℕ → Memory × Chunk × ℕ
write h c p =
    let n_write = min (length p) (c.size - c.write_idx) in
    (
      store h c.data_ptr c.write_idx (take n_write p),
      record c { write_idx = c.write_idx + n_write },
      n_write,
    )

-- The bytes that a chunk holds.
abbrev pub window : Memory → Chunk → List ℕ
window h c = bytes_from (h.at c.data_ptr) c.read_idx (content_size c)

-- `read`, `peek` and `discard` copy, or skip, at most `n` bytes.
unfoldable pub read : Memory → Chunk → ℕ → List ℕ × Chunk
read h c n =
    let n_read = min n (content_size c) in
    (bytes_from (h.at c.data_ptr) c.read_idx n_read, record c { read_idx = c.read_idx + n_read })

unfoldable pub peek : Memory → Chunk → ℕ → List ℕ
peek h c n = bytes_from (h.at c.data_ptr) c.read_idx (min n (content_size c))

unfoldable pub discard : Chunk → ℕ → Chunk × ℕ
discard c n =
    let n_discard = min n (content_size c) in
    (record c { read_idx = c.read_idx + n_discard }, n_discard)

abbrev pub fully_written : Chunk → Bool
fully_written c = c.write_idx == c.size

abbrev pub fully_read : Chunk → Bool
fully_read c = c.read_idx == c.size

-- assert(write_idx <= data->size); assert(read_idx <= write_idx)
pub record IsWindow (c : Chunk) : Type 0 where
  pub written : c.write_idx ≤ c.size
  pub ordered : c.read_idx ≤ c.write_idx

pub window-new_from : (h : Memory) (p : List ℕ) → window (new_from h p).0 (new_from h p).1 ≡ p
unfolding new_from
window-new_from h p =
    let e : length p - 0 ≡ length p = omega arith in rw e (store_self (fresh h) h.next 0 p)

-- A new chunk leaves the windows on older blocks alone.
pub window-new_from_other :
    (h : Memory) (p : List ℕ) (d : Chunk)
    → d.data_ptr < h.next
    → window (new_from h p).0 d ≡ window h d
unfolding new_from
window-new_from_other h p d lt =
    store_other (fresh h) h.next 0 p d.data_ptr d.read_idx (content_size d) (λ e. omega arith)

-- What was in the chunk stays in front of what `write` took of `p`.
pub window-write :
    (h : Memory) (c : Chunk) (p : List ℕ)
    → IsWindow c
    → let r = write h c p in window r.0 r.1 ≡ window h c ++ take r.2 p
unfolding write
window-write h c p v =
    let k = min (length p) (c.size - c.write_idx) in
    let e : c.write_idx + k - c.read_idx ≡ content_size c + length (take k p) =
      omega (arith, length-take k p) in
    rw e
      (store_append h c.data_ptr c.write_idx (take k p) c.read_idx (content_size c) (omega arith))

pub window-write_other :
    (h : Memory) (c d : Chunk) (p : List ℕ)
    → d.data_ptr ≢ c.data_ptr
    → window (write h c p).0 d ≡ window h d
unfolding write
window-write_other h c d p ne = store_other _ _ _ _ _ _ _ ne

-- `read` splits the window.
pub window-read :
    (h : Memory) (c : Chunk) (n : ℕ)
    → IsWindow c
    → ((read h c n).0 ≡ take n (window h c)) × (window h (read h c n).1 ≡ drop n (window h c))
unfolding read
window-read h c n v =
    let k = min n (content_size c) in
    let e : c.write_idx - (c.read_idx + k) ≡ content_size c - k = omega arith in
    (
      sym (take-bytes_from n (content_size c) (h.at c.data_ptr) c.read_idx),
      rw e (sym (drop-bytes_from n (content_size c) (h.at c.data_ptr) c.read_idx)),
    )
