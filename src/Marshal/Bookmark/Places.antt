-- ===== src/Marshal/Bookmark/Places.antt =====
-- The places of the bytes that wait in a chain, in order, and what a change of memory at some of them
-- does to the contents.
use s_rpc.Base.{
  ℕ, zero, suc, ◌<◌, ◌≡◌, ◌≢◌, refl, sym, ◌∙◌, ap, ap₂, ◌⊎◌, inl, inr, List, [], ◌∷◌, ◌++◌, map,
  arith, length, All,
}
use s_rpc.Marshal.Memory.{Memory, store, bytes_from}
use s_rpc.Marshal.Chunk
use s_rpc.Marshal.Chunk.{Chunk, window}
use s_rpc.Marshal.Buffer.{contents, IsApart}
use s_rpc.Marshal.Bookmark.{Place, fill}

unfoldable pub places_from : ℕ → ℕ → ℕ → List Place
places_from b i zero = []
places_from b i (suc n) = (b, i) ∷ places_from b (suc i) n

abbrev pub places_in : Chunk → List Place
places_in c = places_from c.data_ptr c.read_idx (Chunk.content_size c)

unfoldable pub places : List Chunk → List Place
places [] = []
places (c ∷ cs) = places_in c ++ places cs

abbrev pub byte_at : Memory → Place → ℕ
byte_at h a = h.at a.0 a.1

pub map-append_lem : (f : Place → ℕ) (xs ys : List Place) → map f (xs ++ ys) ≡ map f xs ++ map f ys
map-append_lem f [] ys = refl
map-append_lem f (x ∷ xs) ys = ap (◌∷◌ (f x)) (map-append_lem f xs ys)

map-places_from :
    (h : Memory) (b i n : ℕ) → map (byte_at h) (places_from b i n) ≡ bytes_from (h.at b) i n
unfolding places_from bytes_from
map-places_from h b i zero = refl
map-places_from h b i (suc n) = ap (◌∷◌ (h.at b i)) (map-places_from h b (suc i) n)

pub contents-places : (h : Memory) (cs : List Chunk) → contents h cs ≡ map (byte_at h) (places cs)
unfolding contents places
contents-places h [] = refl
contents-places h (c ∷ cs) =
    ap₂ ◌++◌ (sym (map-places_from h c.data_ptr c.read_idx (Chunk.content_size c)))
      (contents-places h cs)
    ∙ sym (map-append_lem (byte_at h) (places_in c) (places cs))

-- No place stands twice in the list.
abbrev pub Differ : Place → Place → Type 0
Differ a b = (a.0 ≢ b.0) ⊎ (a.1 ≢ b.1)

abbrev pub Distinct : List Place → Type 0
Distinct [] = Unit {0}
Distinct (a ∷ as_) = All (Differ a) as_ × Distinct as_

All-append_lem : (P : Place → Type 0) (xs ys : List Place) → All P xs → All P ys → All P (xs ++ ys)
All-append_lem P [] ys p q = q
All-append_lem P (x ∷ xs) ys p q = (p.0, All-append_lem P xs ys p.1 q)

pub All-split : (P : Place → Type 0) (xs ys : List Place) → All P (xs ++ ys) → All P xs × All P ys
All-split P [] ys p = (tt, p)
All-split P (x ∷ xs) ys p = let (a, b) = All-split P xs ys p.1 in ((p.0, a), b)

Distinct-append_lem :
    (xs ys : List Place)
    → Distinct xs
    → Distinct ys
    → All (λ x. All (Differ x) ys) xs
    → Distinct (xs ++ ys)
Distinct-append_lem [] ys p q r = q
Distinct-append_lem (x ∷ xs) ys p q r =
    (All-append_lem (Differ x) xs ys p.0 r.0, Distinct-append_lem xs ys p.1 q r.1)

pub Distinct-split :
    (xs ys : List Place)
    → Distinct (xs ++ ys)
    → Distinct xs × Distinct ys × All (λ x. All (Differ x) ys) xs
Distinct-split [] ys p = (tt, p, tt)
Distinct-split (x ∷ xs) ys p =
    let (a, b) = All-split (Differ x) xs ys p.0 in
    let (c, d, e) = Distinct-split xs ys p.1 in ((a, c), d, (b, e))

Differ-later : (b i j n : ℕ) → i < j → All (Differ (b, i)) (places_from b j n)
unfolding places_from
Differ-later b i j zero lt = tt
Differ-later b i j (suc n) lt = (inr (λ e. omega arith), Differ-later b i (suc j) n (omega arith))

Distinct-places_from : (b i n : ℕ) → Distinct (places_from b i n)
unfolding places_from
Distinct-places_from b i zero = tt
Distinct-places_from b i (suc n) =
    (Differ-later b i (suc i) n (omega arith), Distinct-places_from b (suc i) n)

other_block : (a : Place) (b i n : ℕ) → a.0 ≢ b → All (Differ a) (places_from b i n)
unfolding places_from
other_block a b i zero ne = tt
other_block a b i (suc n) ne = (inl ne, other_block a b (suc i) n ne)

other_blocks :
    (a : Place) (cs : List Chunk) → All (λ d. d.data_ptr ≢ a.0) cs → All (Differ a) (places cs)
unfolding places
other_blocks a [] ne = tt
other_blocks a (c ∷ cs) ne =
    All-append_lem (Differ a) (places_in c) (places cs)
      (other_block a c.data_ptr c.read_idx (Chunk.content_size c) (λ e. ne.0 (sym e)))
      (other_blocks a cs ne.1)

block_apart :
    (b i n : ℕ) (cs : List Chunk)
    → All (λ d. d.data_ptr ≢ b) cs
    → All (λ x. All (Differ x) (places cs)) (places_from b i n)
unfolding places_from
block_apart b i zero cs ne = tt
block_apart b i (suc n) cs ne = (other_blocks (b, i) cs ne, block_apart b (suc i) n cs ne)

-- Chunks that share no block share no byte.
pub Distinct-places : (n : ℕ) (cs : List Chunk) → IsApart n cs → Distinct (places cs)
unfolding places
Distinct-places n [] a = tt
Distinct-places n (c ∷ cs) a =
    Distinct-append_lem (places_in c) (places cs)
      (Distinct-places_from c.data_ptr c.read_idx (Chunk.content_size c)) (Distinct-places n cs a.2)
      (block_apart c.data_ptr c.read_idx (Chunk.content_size c) cs a.1)

-- `fill` changes its own places only, and these as it is told.
store_one_other :
    (h : Memory) (a b : Place) (x : ℕ)
    → Differ a b
    → byte_at (store h a.0 a.1 (x ∷ [])) b ≡ byte_at h b
unfolding store
store_one_other h a b x d = ground arith

fill_other :
    (h : Memory) (bm : List Place) (p : List ℕ) (b : Place)
    → All (λ a. Differ a b) bm
    → byte_at (fill h bm p) b ≡ byte_at h b
unfolding fill
fill_other h [] p b d = refl
fill_other h (a ∷ bm) [] b d = refl
fill_other h (a ∷ bm) (x ∷ p) b d =
    fill_other (store h a.0 a.1 (x ∷ [])) bm p b d.1 ∙ store_one_other h a b x d.0

Differ-sym : (a b : Place) → Differ a b → Differ b a
Differ-sym a b (inl e) = inl (λ q. e (sym q))
Differ-sym a b (inr e) = inr (λ q. e (sym q))

All-Differ-sym : (a : Place) (bs : List Place) → All (Differ a) bs → All (λ b. Differ b a) bs
All-Differ-sym a [] d = tt
All-Differ-sym a (b ∷ bs) d = (Differ-sym a b d.0, All-Differ-sym a bs d.1)

store_one_self : (h : Memory) (a : Place) (x : ℕ) → byte_at (store h a.0 a.1 (x ∷ [])) a ≡ x
unfolding store
store_one_self h a x = ground arith

pub fill_self :
    (h : Memory) (bm : List Place) (p : List ℕ)
    → Distinct bm
    → length bm ≡ length p
    → map (byte_at (fill h bm p)) bm ≡ p
unfolding fill
fill_self h [] [] d e = refl
fill_self h [] (x ∷ p) d e = absurd (omega arith)
fill_self h (a ∷ bm) [] d e = absurd (omega arith)
fill_self h (a ∷ bm) (x ∷ p) d e =
    ap₂ ◌∷◌
      (fill_other (store h a.0 a.1 (x ∷ [])) bm p a (All-Differ-sym a bm d.0)
        ∙ store_one_self h a x)
      (fill_self (store h a.0 a.1 (x ∷ [])) bm p d.1 (omega arith))

-- Bytes at places that differ from the bookmark's, on either side of it, stay.
pub fill_after :
    (h : Memory) (bm : List Place) (p : List ℕ) (bs : List Place)
    → All (λ a. All (Differ a) bs) bm
    → map (byte_at (fill h bm p)) bs ≡ map (byte_at h) bs
fill_after h bm p [] d = refl
fill_after h bm p (b ∷ bs) d =
    ap₂ ◌∷◌ (fill_other h bm p b (heads bm d)) (fill_after h bm p bs (tails bm d))
  where
    heads : (cs : List Place) → All (λ a. All (Differ a) (b ∷ bs)) cs → All (λ a. Differ a b) cs
    heads [] d = tt
    heads (c ∷ cs) d = (d.0.0, heads cs d.1)

    tails :
        (cs : List Place) → All (λ a. All (Differ a) (b ∷ bs)) cs → All (λ a. All (Differ a) bs) cs
    tails [] d = tt
    tails (c ∷ cs) d = (d.0.1, tails cs d.1)

pub fill_before :
    (h : Memory) (bm : List Place) (p : List ℕ) (bs : List Place)
    → All (λ b. All (Differ b) bm) bs
    → map (byte_at (fill h bm p)) bs ≡ map (byte_at h) bs
fill_before h bm p [] d = refl
fill_before h bm p (b ∷ bs) d =
    ap₂ ◌∷◌ (fill_other h bm p b (All-Differ-sym b bm d.0)) (fill_before h bm p bs d.1)
