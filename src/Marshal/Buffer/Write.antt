-- ===== src/Marshal/Buffer/Write.antt =====
-- `Marshal::write` appends to what is waiting to be read.
use s_rpc.Base.{
  ℕ, ◌+◌, ◌%◌, ◌^◌, min, true, false, ◌≤◌, ◌<◌, ◌≡◌, ◌≢◌, refl, sym, ◌∙◌, ap, ap₂, List, [], ◌∷◌,
  ◌++◌, arith, ltb, length, take, drop, All, take-append-drop, append_assoc, append-nil, Bool-cases,
  inl, inr, length-append, take_all,
}
use s_rpc.Base.Outcome.{done, Succeeds}
use s_rpc.Marshal.Memory.{Memory, store, length-bytes_from}
use s_rpc.Marshal.Chunk
use s_rpc.Marshal.Chunk.{
  Chunk, IsWindow, window, fully_written, new_from, window-new_from, window-new_from_other,
  window-write, window-write_other,
}
use s_rpc.Marshal.Buffer.{
  Marshal, contents, content_size_slow, write_tail, write_chain, write, IsChain, IsApart, IsValid,
  last_full, room, assert_write,
}

-- The size that is counted is the number of bytes waiting.
pub content_size_slow-contents :
    (h : Memory) (cs : List Chunk) → content_size_slow cs ≡ length (contents h cs)
unfolding content_size_slow contents
content_size_slow-contents h [] = refl
content_size_slow-contents h (c ∷ cs) = omega (
  arith,
  length-append (window h c) (contents h cs),
  content_size_slow-contents h cs,
  length-bytes_from (h.at c.data_ptr) c.read_idx (Chunk.content_size c),
)

-- The three cases of `write` at the tail: a new chunk, what fits and a new chunk, or all of it.
write_tail-contents :
    (h : Memory) (c : Chunk) (p : List ℕ)
    → IsWindow c
    → c.data_ptr < h.next
    → let r = write_tail h c p in contents r.0 r.1 ≡ window h c ++ p
unfolding contents write_tail
write_tail-contents h c p v lt = elim (Bool-cases (fully_written c)) [
  | inl full ↦
      rw full (ap₂ ◌++◌ (window-new_from_other h p c lt) (append-nil _ ∙ window-new_from h p))
  | inr room ↦ elim (Bool-cases (ltb (Chunk.write h c p).2 (length p))) [
    | inl split ↦
        let (h', c', n) = Chunk.write h c p in
        rw (room, split)
          (ap₂ ◌++◌
              (window-new_from_other h' (drop n p) c' (unfold Chunk.write store in lt)
                ∙ window-write h c p v)
              (append-nil _ ∙ window-new_from h' (drop n p))
            ∙ append_assoc (window h c) (take n p) (drop n p)
            ∙ ap (◌++◌ (window h c)) (take-append-drop n p))
    | inr whole ↦
        rw (room, whole)
          (append-nil _
            ∙ window-write h c p v
            ∙ ap (◌++◌ (window h c)) (take_all (Chunk.write h c p).2 p (ground arith)))
  ]
]

-- A chunk whose block is in use and not the tail's keeps its window.
write_tail-window_other :
    (h : Memory) (c : Chunk) (p : List ℕ) (e : Chunk)
    → e.data_ptr ≢ c.data_ptr
    → e.data_ptr < h.next
    → window (write_tail h c p).0 e ≡ window h e
unfolding write_tail
write_tail-window_other h c p e ne lt = elim (Bool-cases (fully_written c)) [
  | inl full ↦ rw full (window-new_from_other h p e lt)
  | inr room ↦ elim (Bool-cases (ltb (Chunk.write h c p).2 (length p))) [
    | inl split ↦
        rw (room, split)
          (window-new_from_other (Chunk.write h c p).0 (drop (Chunk.write h c p).2 p) e
              (unfold Chunk.write store in lt)
            ∙ window-write_other h c e p ne)
    | inr whole ↦ rw (room, whole) (window-write_other h c e p ne)
  ]
]

write_chain-window_other :
    (h : Memory) (cs : List Chunk) (p : List ℕ) (e : Chunk)
    → All (λ d. d.data_ptr ≢ e.data_ptr) cs
    → e.data_ptr < h.next
    → window (write_chain h cs p).0 e ≡ window h e
unfolding write_chain
write_chain-window_other h [] p e ne lt = window-new_from_other h p e lt
write_chain-window_other h (c ∷ []) p e ne lt =
    write_tail-window_other h c p e (λ q. ne.0 (sym q)) lt
write_chain-window_other h (c ∷ d ∷ cs) p e ne lt = write_chain-window_other h (d ∷ cs) p e ne.1 lt

pub write_chain-contents :
    (h : Memory) (cs : List Chunk) (p : List ℕ)
    → IsChain cs
    → IsApart h.next cs
    → let r = write_chain h cs p in contents r.0 r.1 ≡ contents h cs ++ p
unfolding write_chain contents
write_chain-contents h [] p v a = append-nil _ ∙ window-new_from h p
write_chain-contents h (c ∷ []) p v a =
    write_tail-contents h c p v.0 a.0 ∙ ap (λ l. l ++ p) (sym (append-nil (window h c)))
write_chain-contents h (c ∷ d ∷ cs) p v a =
    ap₂ ◌++◌ (write_chain-window_other h (d ∷ cs) p c a.1 a.0)
      (write_chain-contents h (d ∷ cs) p v.3 a.2)
    ∙ sym (append_assoc (window h c) (contents h (d ∷ cs)) p)

-- The chain stays well formed.
write_tail-IsChain :
    (h : Memory) (c : Chunk) (p : List ℕ)
    → IsWindow c
    → c.read_idx < c.size
    → IsChain (write_tail h c p).1
unfolding write_tail Chunk.write Chunk.new_from
write_tail-IsChain h c p v lt = ground arith

pub IsChain-cons :
    (c : Chunk) (cs : List Chunk)
    → IsWindow c
    → c.write_idx ≡ c.size
    → c.read_idx < c.size
    → IsChain cs
    → IsChain (c ∷ cs)
IsChain-cons c [] v full lt chain = (v, lt)
IsChain-cons c (d ∷ cs) v full lt chain = (v, full, lt, chain)

pub write_chain-IsChain :
    (h : Memory) (cs : List Chunk) (p : List ℕ) → IsChain cs → IsChain (write_chain h cs p).1
unfolding write_chain
write_chain-IsChain h [] p v =
    unfold Chunk.new_from in (record { written = omega arith; ordered = omega arith }, omega arith)
write_chain-IsChain h (c ∷ []) p v = write_tail-IsChain h c p v.0 v.1
write_chain-IsChain h (c ∷ d ∷ cs) p v =
    IsChain-cons c _ v.0 v.1 v.2 (write_chain-IsChain h (d ∷ cs) p v.3)

-- Blocks stay in use and apart: a write adds at most one fresh block.
write_tail-next : (h : Memory) (c : Chunk) (p : List ℕ) → h.next ≤ (write_tail h c p).0.next
unfolding write_tail Chunk.write Chunk.new_from store
write_tail-next h c p = ground arith

write_chain-next :
    (h : Memory) (cs : List Chunk) (p : List ℕ) → h.next ≤ (write_chain h cs p).0.next
unfolding write_chain
write_chain-next h [] p = unfold Chunk.new_from store in omega arith
write_chain-next h (c ∷ []) p = write_tail-next h c p
write_chain-next h (c ∷ d ∷ cs) p = write_chain-next h (d ∷ cs) p

write_tail-All :
    (h : Memory) (c : Chunk) (p : List ℕ) (b : ℕ)
    → c.data_ptr ≢ b
    → b < h.next
    → All (λ d. d.data_ptr ≢ b) (write_tail h c p).1
unfolding write_tail Chunk.write Chunk.new_from store
write_tail-All h c p b ne lt = ground arith

write_chain-All :
    (h : Memory) (cs : List Chunk) (p : List ℕ) (b : ℕ)
    → All (λ d. d.data_ptr ≢ b) cs
    → b < h.next
    → All (λ d. d.data_ptr ≢ b) (write_chain h cs p).1
unfolding write_chain
write_chain-All h [] p b ne lt = unfold Chunk.new_from store in ground arith
write_chain-All h (c ∷ []) p b ne lt = write_tail-All h c p b ne.0 lt
write_chain-All h (c ∷ d ∷ cs) p b ne lt = (ne.0, write_chain-All h (d ∷ cs) p b ne.1 lt)

write_tail-IsApart :
    (h : Memory) (c : Chunk) (p : List ℕ)
    → c.data_ptr < h.next
    → IsApart (write_tail h c p).0.next (write_tail h c p).1
unfolding write_tail Chunk.write Chunk.new_from store
write_tail-IsApart h c p lt = ground arith

pub write_chain-IsApart :
    (h : Memory) (cs : List Chunk) (p : List ℕ)
    → IsApart h.next cs
    → IsApart (write_chain h cs p).0.next (write_chain h cs p).1
unfolding write_chain
write_chain-IsApart h [] p a = unfold Chunk.new_from store in ground arith
write_chain-IsApart h (c ∷ []) p a = write_tail-IsApart h c p a.0
write_chain-IsApart h (c ∷ d ∷ cs) p a = (
  omega (arith, write_chain-next h (d ∷ cs) p),
  write_chain-All h (d ∷ cs) p c.data_ptr a.1 a.0,
  write_chain-IsApart h (d ∷ cs) p a.2,
)

-- `write` appends its bytes to the contents.
pub contents-write :
    (h : Memory) (m : Marshal) (p : List ℕ)
    → IsValid h m
    → let r = write h m p in contents r.0 r.1.chunks ≡ contents h m.chunks ++ p
unfolding write
contents-write h m p v = write_chain-contents h m.chunks p v.chain v.apart

-- And it leaves a valid Marshal.
pub write-IsValid :
    (h : Memory) (m : Marshal) (p : List ℕ) → IsValid h m → IsValid (write h m p).0 (write h m p).1
unfolding write
write-IsValid h m p v = record {
  chain = write_chain-IsChain h m.chunks p v.chain;
  apart = write_chain-IsApart h m.chunks p v.apart;
  counted =
      let r = write_chain h m.chunks p in
      omega (
        arith,
        v.counted,
        content_size_slow-contents h m.chunks,
        content_size_slow-contents r.0 r.1,
        ap length (write_chain-contents h m.chunks p v.chain v.apart),
        length-append (contents h m.chunks) p,
      );
}

-- A tail that is not fully written has room.
room-pos : (cs : List Chunk) → IsChain cs → last_full cs ≡ false → 0 < room cs
room-pos [] v e = absurd (ground arith)
room-pos (c ∷ []) v e = ground (arith, v.0.written, e)
room-pos (c ∷ d ∷ cs) v e = room-pos (d ∷ cs) v.3 e

-- There, the assert of `write` holds for one byte or more.
pub assert_write-write :
    (h : Memory) (m : Marshal) (p : List ℕ)
    → IsValid h m
    → 0 < length p
    → assert_write h m p ≡ done (write h m p)
unfolding assert_write
assert_write-write h m p v some = elim (Bool-cases (last_full m.chunks)) [
  | inl full ↦ rw full refl
  | inr free ↦
      let there : 0 < room m.chunks = room-pos m.chunks v.chain free in
      let holds : ltb 0 (min (length p) (room m.chunks)) ≡ true = ground arith in
      rw (free, holds) refl
]

-- On a valid Marshal, `write` of one byte or more returns, with its assert holding: it appends its
-- bytes, in order, to the bytes that wait, whatever chunks hold them, counts them in `write_cnt_`
-- modulo 2 ^ 32, and leaves a valid Marshal: the chain well formed, its blocks in use and apart, and
-- the byte count equal to the bytes that wait.
pub assert_write_lem :
    (h : Memory) (m : Marshal) (p : List ℕ)
    → IsValid h m
    → 0 < length p
    → Succeeds
        (λ r.
          (contents r.0 r.1.chunks ≡ contents h m.chunks ++ p)
          × (r.1.write_cnt ≡ (m.write_cnt + length p) % 2 ^ 32)
          × IsValid r.0 r.1)
        (assert_write h m p)
assert_write_lem h m p v some =
    rw (assert_write-write h m p v some)
      (contents-write h m p v, unfold write in refl, write-IsValid h m p v)
