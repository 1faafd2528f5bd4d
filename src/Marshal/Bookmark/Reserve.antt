-- ===== src/Marshal/Bookmark/Reserve.antt =====
-- `set_bookmark` puts its places behind what waits, and a write puts its bytes behind all of that.
use s_rpc.Base.{
  ℕ, zero, suc, ◌+◌, ◌-◌, ◌≤◌, ◌<◌, ◌≡◌, ◌≢◌, refl, sym, ◌∙◌, ap, inl, inr, List, [], ◌∷◌, ◌++◌,
  arith, length, All, Bool-cases, append-nil, append_assoc, ltb, drop,
}
use s_rpc.Marshal.Memory.{Memory}
use s_rpc.Marshal.Chunk
use s_rpc.Marshal.Chunk.{Chunk, IsWindow, fully_written, new_empty, new_from}
use s_rpc.Marshal.Buffer.{IsChain, IsApart, write_tail, write_chain}
use s_rpc.Marshal.Buffer.Write.{IsChain-cons}
use s_rpc.Marshal.Bookmark.{Place, reserve_tail, reserve_chain, reserve}
use s_rpc.Marshal.Bookmark.Places.{places_from, places_in, places}

places_from-add :
    (b i m n : ℕ) → places_from b i (m + n) ≡ places_from b i m ++ places_from b (i + m) n
unfolding places_from
places_from-add b i zero n =
    let e : 0 + n ≡ n = omega arith in let a : i + 0 ≡ i = omega arith in rw (e, a)
places_from-add b i (suc m) n =
    let e : suc m + n ≡ suc (m + n) = omega arith in
    let a : i + suc m ≡ suc i + m = omega arith in
    rw (e, a) (ap (◌∷◌ (b, i)) (places_from-add b (suc i) m n))

-- A window that grows at its end by `k` bytes.
grown :
    (c : Chunk) (k : ℕ)
    → IsWindow c
    → places_in (record c { write_idx = c.write_idx + k })
      ≡ places_in c ++ places_from c.data_ptr c.write_idx k
grown c k v =
    let e : c.write_idx + k - c.read_idx ≡ Chunk.content_size c + k = omega arith in
    let a : c.read_idx + Chunk.content_size c ≡ c.write_idx = omega arith in
    rw e (rw a at (places_from-add c.data_ptr c.read_idx (Chunk.content_size c) k))

grown_one :
    (c : Chunk)
    → IsWindow c
    → places_in (record c { write_idx = suc c.write_idx })
      ≡ places_in c ++ (c.data_ptr, c.write_idx) ∷ []
grown_one c v =
    let e : suc c.write_idx ≡ c.write_idx + 1 = omega arith in
    rw e (unfold places_from in grown c 1 v)

reserve_tail-places :
    (h : Memory) (c : Chunk)
    → IsWindow c
    → let r = reserve_tail h c in places r.1 ≡ places_in c ++ r.2 ∷ []
unfolding reserve_tail places places_from Chunk.set_bookmark Chunk.new_empty
reserve_tail-places h c v = elim (Bool-cases (fully_written c)) [
  | inl full ↦ rw full refl
  | inr room ↦ rw room (append-nil _ ∙ grown_one c v)
]

reserve_chain-places :
    (h : Memory) (cs : List Chunk)
    → IsChain cs
    → let r = reserve_chain h cs in places r.1 ≡ places cs ++ r.2 ∷ []
unfolding reserve_chain places
reserve_chain-places h [] v = unfold places_from Chunk.set_bookmark Chunk.new_empty in refl
reserve_chain-places h (c ∷ []) v =
    reserve_tail-places h c v.0 ∙ ap (λ l. l ++ (reserve_tail h c).2 ∷ []) (sym (append-nil _))
reserve_chain-places h (c ∷ d ∷ cs) v =
    ap (◌++◌ (places_in c)) (reserve_chain-places h (d ∷ cs) v.3)
    ∙ sym (append_assoc (places_in c) (places (d ∷ cs)) _)

-- The chain stays well formed, and its blocks in use and apart.
reserve_tail-IsChain :
    (h : Memory) (c : Chunk) → IsWindow c → c.read_idx < c.size → IsChain (reserve_tail h c).1
unfolding reserve_tail Chunk.set_bookmark Chunk.new_empty
reserve_tail-IsChain h c v lt = ground arith

reserve_chain-IsChain : (h : Memory) (cs : List Chunk) → IsChain cs → IsChain (reserve_chain h cs).1
unfolding reserve_chain
reserve_chain-IsChain h [] v =
    unfold Chunk.set_bookmark Chunk.new_empty in
    (record { written = omega arith; ordered = omega arith }, omega arith)
reserve_chain-IsChain h (c ∷ []) v = reserve_tail-IsChain h c v.0 v.1
reserve_chain-IsChain h (c ∷ d ∷ cs) v =
    IsChain-cons c _ v.0 v.1 v.2 (reserve_chain-IsChain h (d ∷ cs) v.3)

reserve_chain-next : (h : Memory) (cs : List Chunk) → h.next ≤ (reserve_chain h cs).0.next
unfolding reserve_chain reserve_tail Chunk.set_bookmark Chunk.new_empty
reserve_chain-next h [] = omega arith
reserve_chain-next h (c ∷ []) = ground arith
reserve_chain-next h (c ∷ d ∷ cs) = reserve_chain-next h (d ∷ cs)

reserve_chain-at : (h : Memory) (cs : List Chunk) → (reserve_chain h cs).0.at ≡ h.at
unfolding reserve_chain reserve_tail Chunk.new_empty
reserve_chain-at h [] = refl
reserve_chain-at h (c ∷ []) = ground arith
reserve_chain-at h (c ∷ d ∷ cs) = reserve_chain-at h (d ∷ cs)

reserve_chain-All :
    (h : Memory) (cs : List Chunk) (b : ℕ)
    → All (λ d. d.data_ptr ≢ b) cs
    → b < h.next
    → All (λ d. d.data_ptr ≢ b) (reserve_chain h cs).1
unfolding reserve_chain reserve_tail Chunk.set_bookmark Chunk.new_empty
reserve_chain-All h [] b ne lt = ground arith
reserve_chain-All h (c ∷ []) b ne lt = ground arith
reserve_chain-All h (c ∷ d ∷ cs) b ne lt = (ne.0, reserve_chain-All h (d ∷ cs) b ne.1 lt)

reserve_chain-IsApart :
    (h : Memory) (cs : List Chunk)
    → IsApart h.next cs
    → IsApart (reserve_chain h cs).0.next (reserve_chain h cs).1
unfolding reserve_chain
reserve_chain-IsApart h [] a = unfold Chunk.set_bookmark Chunk.new_empty in ground arith
reserve_chain-IsApart h (c ∷ []) a =
    unfold reserve_tail Chunk.set_bookmark Chunk.new_empty in ground arith
reserve_chain-IsApart h (c ∷ d ∷ cs) a = (
  omega (arith, reserve_chain-next h (d ∷ cs)),
  reserve_chain-All h (d ∷ cs) c.data_ptr a.1 a.0,
  reserve_chain-IsApart h (d ∷ cs) a.2,
)

-- The whole loop.
pub reserve_lem :
    (n : ℕ) (h : Memory) (cs : List Chunk)
    → IsChain cs
    → IsApart h.next cs
    → let r = reserve n h cs in
      (places r.1 ≡ places cs ++ r.2)
      × (length r.2 ≡ n)
      × (r.0.at ≡ h.at)
      × IsChain r.1
      × IsApart r.0.next r.1
unfolding reserve
reserve_lem zero h cs v a = (sym (append-nil _), refl, refl, v, a)
reserve_lem (suc n) h cs v a =
    let (h', cs', p) = reserve_chain h cs in
    let (q, l, m, chain, apart) =
      reserve_lem n h' cs' (reserve_chain-IsChain h cs v) (reserve_chain-IsApart h cs a) in
    let (_, _, ps) = reserve n h' cs' in
    (
      q ∙ ap (λ z. z ++ ps) (reserve_chain-places h cs v) ∙ append_assoc (places cs) (p ∷ []) ps,
      ap suc l,
      m ∙ reserve_chain-at h cs,
      chain,
      apart,
    )

-- A write keeps the places that are there, in front of its own.
write_tail-places :
    (h : Memory) (c : Chunk) (p : List ℕ)
    → IsWindow c
    → (new : List Place) × (places (write_tail h c p).1 ≡ places_in c ++ new)
unfolding write_tail places Chunk.write
write_tail-places h c p v = elim (Bool-cases (fully_written c)) [
  | inl full ↦ rw full (_, refl)
  | inr room ↦ elim (Bool-cases (ltb (Chunk.write h c p).2 (length p))) [
    | inl split ↦
        let n = (Chunk.write h c p).2 in
        let more = places_in (new_from (Chunk.write h c p).0 (drop n p)).1 ++ [] in
        let mine = places_from c.data_ptr c.write_idx n in
        rw (room, split)
          (mine ++ more, ap (λ l. l ++ more) (grown c n v) ∙ append_assoc (places_in c) mine more)
    | inr whole ↦ rw (room, whole) (_, append-nil _ ∙ grown c (Chunk.write h c p).2 v)
  ]
]

pub write_chain-places :
    (h : Memory) (cs : List Chunk) (p : List ℕ)
    → IsChain cs
    → (new : List Place) × (places (write_chain h cs p).1 ≡ places cs ++ new)
unfolding write_chain places
write_chain-places h [] p v = (_, refl)
write_chain-places h (c ∷ []) p v =
    let (new, e) = write_tail-places h c p v.0 in (new, e ∙ ap (λ l. l ++ new) (sym (append-nil _)))
write_chain-places h (c ∷ d ∷ cs) p v =
    let (new, e) = write_chain-places h (d ∷ cs) p v.3 in
    (new, ap (◌++◌ (places_in c)) e ∙ sym (append_assoc (places_in c) (places (d ∷ cs)) new))
