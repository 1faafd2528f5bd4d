-- ===== src/Marshal/Memory.antt =====
-- `Marshal::raw_bytes` in src/misc/marshal.hpp: the blocks of bytes that chunks point at. A block is
-- shared by all the chunks that name it, and a bookmark points into it, so blocks live in a store.
-- Reference counts only decide when a block is freed; a block that nothing names is never read.
use s_rpc.Base.{
  ℕ, zero, suc, ◌+◌, ◌-◌, ◌≤◌, ◌<◌, ◌≡◌, ◌≢◌, refl, ◌∙◌, ap, ap₂, ◌&&◌, List, [], ◌∷◌, ◌++◌, arith,
  leb, ltb, ◌==◌, if◌then◌else◌, length, get_or, take, drop, min,
}

-- Block numbers below `next` are in use; `at b i` is byte `i` of block `b`.
pub record Memory : Type 0 where
  pub next : ℕ
  pub at : ℕ → ℕ → ℕ

-- `memcpy` of the bytes `p` to offset `off` of block `b`.
unfoldable pub store : Memory → ℕ → ℕ → List ℕ → Memory
store h b off p = record h {
  at = λ c i.
      if c == b && (leb off i && ltb i (off + length p)) then get_or p (i - off) 0 else h.at c i;
}

-- `new raw_bytes`: a fresh block. Its bytes are whatever stands there.
abbrev pub fresh : Memory → Memory
fresh h = record h { next = suc h.next }

-- The `n` bytes from `i` on.
unfoldable pub bytes_from : (ℕ → ℕ) → ℕ → ℕ → List ℕ
bytes_from f i zero = []
bytes_from f i (suc n) = f i ∷ bytes_from f (suc i) n

pub length-bytes_from : (f : ℕ → ℕ) (i n : ℕ) → length (bytes_from f i n) ≡ n
unfolding bytes_from
length-bytes_from f i zero = refl
length-bytes_from f i (suc n) = ap suc (length-bytes_from f (suc i) n)

bytes_from_same :
    (f g : ℕ → ℕ) (i n : ℕ)
    → ((j : ℕ) → i ≤ j → j < i + n → f j ≡ g j)
    → bytes_from f i n ≡ bytes_from g i n
unfolding bytes_from
bytes_from_same f g i zero h = refl
bytes_from_same f g i (suc n) h =
    ap₂ ◌∷◌ (h i (omega arith) (omega arith))
      (bytes_from_same f g (suc i) n (λ j lo hi. h j (omega arith) (omega arith)))

bytes_from-add :
    (f : ℕ → ℕ) (i m n : ℕ) → bytes_from f i (m + n) ≡ bytes_from f i m ++ bytes_from f (i + m) n
unfolding bytes_from
bytes_from-add f i zero n =
    let a : 0 + n ≡ n = omega arith in let b : i + 0 ≡ i = omega arith in rw (a, b)
bytes_from-add f i (suc m) n =
    let a : suc m + n ≡ suc (m + n) = omega arith in
    let b : i + suc m ≡ suc i + m = omega arith in
    rw (a, b) (ap (◌∷◌ (f i)) (bytes_from-add f (suc i) m n))

-- A function that agrees with a list from `i` on gives the list back.
bytes_from_list :
    (f : ℕ → ℕ) (i : ℕ) (p : List ℕ)
    → ((j : ℕ) → j < length p → f (i + j) ≡ get_or p j 0)
    → bytes_from f i (length p) ≡ p
unfolding bytes_from
bytes_from_list f i [] h = refl
bytes_from_list f i (x ∷ p) h =
    ap₂ ◌∷◌ (let e : i ≡ i + 0 = omega arith in rw e (h 0 (omega arith))) (
      bytes_from_list f (suc i) p
        (λ j lt. let e : suc i + j ≡ i + suc j = omega arith in rw e (h (suc j) (omega arith))))

pub take-bytes_from :
    (n m : ℕ) (f : ℕ → ℕ) (i : ℕ) → take n (bytes_from f i m) ≡ bytes_from f i (min n m)
unfolding bytes_from
take-bytes_from zero m f i = let e : min 0 m ≡ 0 = omega arith in rw e
take-bytes_from (suc n) zero f i = let e : min (suc n) 0 ≡ 0 = omega arith in rw e
take-bytes_from (suc n) (suc m) f i =
    let e : min (suc n) (suc m) ≡ suc (min n m) = omega arith in
    rw e (ap (◌∷◌ (f i)) (take-bytes_from n m f (suc i)))

pub drop-bytes_from :
    (n m : ℕ) (f : ℕ → ℕ) (i : ℕ)
    → drop n (bytes_from f i m) ≡ bytes_from f (i + min n m) (m - min n m)
unfolding bytes_from
drop-bytes_from zero m f i =
    let a : i + min 0 m ≡ i = omega arith in let b : m - min 0 m ≡ m = omega arith in rw (a, b)
drop-bytes_from (suc n) zero f i = let e : 0 - min (suc n) 0 ≡ 0 = omega arith in rw e
drop-bytes_from (suc n) (suc m) f i =
    let a : i + min (suc n) (suc m) ≡ suc i + min n m = omega arith in
    let b : suc m - min (suc n) (suc m) ≡ m - min n m = omega arith in
    rw (a, b) (drop-bytes_from n m f (suc i))

-- A store leaves the other blocks, and the bytes before its offset, as they are.
pub store_other :
    (h : Memory) (b off : ℕ) (p : List ℕ) (c i n : ℕ)
    → c ≢ b
    → bytes_from ((store h b off p).at c) i n ≡ bytes_from (h.at c) i n
unfolding store
store_other h b off p c i n ne = bytes_from_same _ _ i n (λ j lo hi. ground arith)

store_before :
    (h : Memory) (b off : ℕ) (p : List ℕ) (i n : ℕ)
    → i + n ≤ off
    → bytes_from ((store h b off p).at b) i n ≡ bytes_from (h.at b) i n
unfolding store
store_before h b off p i n le = bytes_from_same _ _ i n (λ j lo hi. ground arith)

-- The stored bytes are read back.
pub store_self :
    (h : Memory) (b off : ℕ) (p : List ℕ) → bytes_from ((store h b off p).at b) off (length p) ≡ p
unfolding store
store_self h b off p =
    bytes_from_list _ off p (λ j lt. let e : off + j - off ≡ j = omega arith in ground arith)

-- Appending to a window that ends where the store begins.
pub store_append :
    (h : Memory) (b off : ℕ) (p : List ℕ) (i n : ℕ)
    → i + n ≡ off
    → bytes_from ((store h b off p).at b) i (n + length p) ≡ bytes_from (h.at b) i n ++ p
store_append h b off p i n e =
    bytes_from-add _ i n (length p)
    ∙ ap₂ ◌++◌ (store_before h b off p i n (omega arith)) (rw e (store_self h b off p))
