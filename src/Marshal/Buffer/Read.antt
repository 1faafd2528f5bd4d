-- ===== src/Marshal/Buffer/Read.antt =====
-- `Marshal::read` and `Marshal::peek` take from the front of what is waiting.
use s_rpc.Base.{
  ℕ, ◌-◌, ◌≤◌, ◌<◌, ◌≡◌, ◌≢◌, true, false, ◌&&◌, refl, sym, ◌∙◌, ap, ap₂, ◌⊎◌, inl, inr, List, [],
  ◌∷◌, ◌++◌, arith, ◌==◌, ltb, length, min, take, drop, All, append-nil, Bool-cases, length-take,
  length-drop, take-append, drop-append, take_all, drop_all,
}
use native.Mathlib.Decide.{dec_lt}
use s_rpc.Marshal.Memory.{Memory, length-bytes_from, take-bytes_from}
use s_rpc.Marshal.Chunk
use s_rpc.Marshal.Chunk.{Chunk, IsWindow, window, fully_read, window-read}
use s_rpc.Marshal.Buffer.{
  Marshal, contents, read_chain, read, peek_chain, peek, IsChain, IsApart, IsValid,
}
use s_rpc.Marshal.Buffer.Write.{content_size_slow-contents}

-- A chunk that is not the tail is full and has bytes to read.
pub IsChain-cases :
    (c : Chunk) (cs : List Chunk)
    → IsChain (c ∷ cs)
    → IsWindow c
      × (c.read_idx < c.size)
      × ((cs ≡ []) ⊎ ((c.write_idx ≡ c.size) × IsChain cs))
      × IsChain cs
IsChain-cases c [] v = (v.0, v.1, inl refl, tt)
IsChain-cases c (d ∷ cs) v = (v.0, v.2, inr (v.1, v.3), v.3)

-- Where the head keeps bytes, or is the tail, nothing behind it is taken.
pub behind :
    (h : Memory) (cs : List Chunk) (n k : ℕ)
    → (cs ≡ []) ⊎ (n ≤ k)
    → (take (n - k) (contents h cs) ≡ []) × (drop (n - k) (contents h cs) ≡ contents h cs)
unfolding contents
behind h cs n k (inl e) =
    rw e (take_all (n - k) [] (omega arith), drop_all (n - k) [] (omega arith))
behind h cs n k (inr le) = let e : n - k ≡ 0 = omega arith in rw e (refl, refl)

-- The bytes that a chain gives, with what is left, when the head chunk gave `n` of its own at most.
pub length-window : (h : Memory) (c : Chunk) → length (window h c) ≡ Chunk.content_size c
length-window h c = length-bytes_from (h.at c.data_ptr) c.read_idx (Chunk.content_size c)

pub list_of_length_0 : (xs : List ℕ) → length xs ≡ 0 → xs ≡ []
list_of_length_0 [] e = refl
list_of_length_0 (x ∷ xs) e = absurd (omega arith)

-- The loop's test fails only when nothing is asked for or nothing is there.
idle :
    (h : Memory) (c : Chunk) (cs : List Chunk) (n : ℕ)
    → IsChain (c ∷ cs)
    → (ltb 0 n && ltb 0 (Chunk.content_size c)) ≡ false
    → (n ≡ 0) ⊎ (contents h (c ∷ cs) ≡ [])
unfolding contents
idle h c cs n v e =
    let (w, lt, place, _) = IsChain-cases c cs v in
    elim (dec_lt 0 n) [
      | no none_asked ↦ inl (omega arith)
      | yes asked ↦
          let none_there : Chunk.content_size c ≡ 0 = ground arith in
          elim place [
            | inl last ↦ inr (
                rw last
                  (append-nil _ ∙ list_of_length_0 (window h c) (length-window h c ∙ none_there)))
            | inr (full, _) ↦ absurd (omega arith)
          ]
    ]

idle-take : (n : ℕ) (xs : List ℕ) → (n ≡ 0) ⊎ (xs ≡ []) → (take n xs ≡ []) × (drop n xs ≡ xs)
idle-take n xs (inl e) = rw e (refl, refl)
idle-take n xs (inr e) = rw e (take_all n [] (omega arith), drop_all n [] (omega arith))

read-IsWindow : (h : Memory) (c : Chunk) (n : ℕ) → IsWindow c → IsWindow (Chunk.read h c n).1
unfolding Chunk.read
read-IsWindow h c n v = ground arith

-- The head after `read`: used up, or the last one the loop looks at.
pub read_head :
    (h : Memory) (c : Chunk) (cs : List Chunk) (n : ℕ)
    → IsChain (c ∷ cs)
    → fully_read (Chunk.read h c n).1 ≡ false
    → ((cs ≡ []) ⊎ (n ≤ Chunk.content_size c)) × IsChain ((Chunk.read h c n).1 ∷ cs)
unfolding Chunk.read
read_head h c [] n v e = ground arith
read_head h c (d ∷ cs) n v e = ground arith

-- A head that is fully read gave all that it had.
pub used_up :
    (h : Memory) (c : Chunk) (n : ℕ)
    → IsWindow c
    → fully_read (Chunk.read h c n).1 ≡ true
    → Chunk.content_size c ≤ n
unfolding Chunk.read
used_up h c n v e = ground arith

-- Splitting a chain's bytes behind its head.
pub split_head :
    (h : Memory) (c : Chunk) (cs : List Chunk) (n k : ℕ)
    → Chunk.content_size c ≡ k
    → (take n (contents h (c ∷ cs)) ≡ take n (window h c) ++ take (n - k) (contents h cs))
      × (drop n (contents h (c ∷ cs)) ≡ drop n (window h c) ++ drop (n - k) (contents h cs))
unfolding contents
split_head h c cs n k e =
    let l : length (window h c) ≡ k = length-window h c ∙ e in
    (
      rw l at (take-append n (window h c) (contents h cs)),
      rw l at (drop-append n (window h c) (contents h cs)),
    )

read_chain_lem :
    (h : Memory) (cs : List Chunk) (n : ℕ)
    → IsChain cs
    → let r = read_chain h cs n in
      (r.0 ≡ take n (contents h cs)) × (contents h r.1 ≡ drop n (contents h cs)) × IsChain r.1
unfolding read_chain contents
read_chain_lem h [] n v = (sym (take_all n [] (omega arith)), sym (drop_all n [] (omega arith)), tt)
read_chain_lem h (c ∷ cs) n v = elim (Bool-cases (ltb 0 n && ltb 0 (Chunk.content_size c))) [
  | inr stop ↦ let (a, b) = idle-take n _ (idle h c cs n v stop) in rw stop (sym a, sym b, v)
  | inl go ↦ elim (Bool-cases (fully_read (Chunk.read h c n).1)) [
    | inl used ↦
        let (w, _, _, chain) = IsChain-cases c cs v in
        let k = Chunk.content_size c in
        let all : k ≤ n = used_up h c n w used in
        let e : n - min n k ≡ n - k = omega arith in
        let (a, b, valid) = read_chain_lem h cs (n - k) chain in
        let (s, t) = split_head h c cs n k refl in
        rw (go, used, e)
          (
            ap₂ ◌++◌ ((window-read h c n w).0) a ∙ sym s,
            b
                ∙ sym (
                    t
                    ∙ ap (λ l. l ++ drop (n - k) (contents h cs))
                        (drop_all n (window h c) (omega (arith, length-window h c)))),
            valid,
          )
    | inr kept ↦
        let (w, _, _, _) = IsChain-cases c cs v in
        let k = Chunk.content_size c in
        let (place, valid) = read_head h c cs n v kept in
        let (none_more, all_left) = behind h cs n k place in
        let (s, t) = split_head h c cs n k refl in
        let (a, b) = window-read h c n w in
        rw (go, kept)
          (
            a ∙ sym (append-nil _) ∙ ap (◌++◌ (take n (window h c))) (sym none_more) ∙ sym s,
            ap₂ ◌++◌ b (sym all_left) ∙ sym t,
            valid,
          )
  ]
]

-- The chunks that are left keep their blocks.
read_chain-All :
    (h : Memory) (cs : List Chunk) (n b : ℕ)
    → All (λ d. d.data_ptr ≢ b) cs
    → All (λ d. d.data_ptr ≢ b) (read_chain h cs n).1
unfolding read_chain Chunk.read
read_chain-All h [] n b a = a
read_chain-All h (c ∷ cs) n b a =
    ground (arith, read_chain-All h cs (n - min n (Chunk.content_size c)) b a.1)

read_chain-IsApart :
    (h : Memory) (cs : List Chunk) (n m : ℕ) → IsApart m cs → IsApart m (read_chain h cs n).1
unfolding read_chain Chunk.read
read_chain-IsApart h [] n m a = a
read_chain-IsApart h (c ∷ cs) n m a =
    ground (arith, read_chain-IsApart h cs (n - min n (Chunk.content_size c)) m a.2)

-- On a valid Marshal `read` copies the first `n` bytes that are waiting, or all if there are fewer,
-- leaves exactly the others in order, and does not touch the write counter.
pub read_lem :
    (h : Memory) (m : Marshal) (n : ℕ)
    → IsValid h m
    → let r = read h m n in
      (r.0 ≡ take n (contents h m.chunks))
      × (contents h r.1.chunks ≡ drop n (contents h m.chunks))
      × (r.1.write_cnt ≡ m.write_cnt)
unfolding read
read_lem h m n v = let (a, b, _) = read_chain_lem h m.chunks n v.chain in (a, b, refl)

-- `read` on a valid Marshal leaves a valid one, the byte count included.
pub read-IsValid : (h : Memory) (m : Marshal) (n : ℕ) → IsValid h m → IsValid h (read h m n).1
unfolding read
read-IsValid h m n v =
    let r = read_chain h m.chunks n in
    let (a, b, chain) = read_chain_lem h m.chunks n v.chain in
    record {
      chain = chain;
      apart = read_chain-IsApart h m.chunks n h.next v.apart;
      counted = omega (
        arith,
        v.counted,
        content_size_slow-contents h m.chunks,
        content_size_slow-contents h r.1,
        ap length a,
        ap length b,
        length-take n (contents h m.chunks),
        length-drop n (contents h m.chunks),
      );
    }

peek-head : (h : Memory) (c : Chunk) (n : ℕ) → Chunk.peek h c n ≡ take n (window h c)
unfolding Chunk.peek
peek-head h c n = sym (take-bytes_from n (Chunk.content_size c) (h.at c.data_ptr) c.read_idx)

peek_chain_lem :
    (h : Memory) (cs : List Chunk) (n : ℕ) → IsChain cs → peek_chain h cs n ≡ take n (contents h cs)
unfolding peek_chain contents
peek_chain_lem h [] n v = sym (take_all n [] (omega arith))
peek_chain_lem h (c ∷ cs) n v =
    let k = Chunk.content_size c in
    let out : length (Chunk.peek h c n) ≡ min n k =
      ap length (peek-head h c n) ∙ length-take n (window h c) ∙ ap (min n) (length-window h c) in
    let (_, _, _, chain) = IsChain-cases c cs v in
    let (s, _) = split_head h c cs n k refl in
    elim (Bool-cases (ltb 0 n && ltb 0 k)) [
      | inr stop ↦
          let (a, _) = idle-take n (contents h (c ∷ cs)) (idle h c cs n v stop) in
          ground (arith, a, out)
      | inl go ↦
          let some_out : length (Chunk.peek h c n) == 0 ≡ false = ground (arith, out) in
          let asked : ltb 0 n ≡ true = ground arith in
          let e : n - length (Chunk.peek h c n) ≡ n - k = omega (arith, out) in
          rw (asked, some_out, e)
            (ap₂ ◌++◌ (peek-head h c n) (peek_chain_lem h cs (n - k) chain) ∙ sym s)
    ]

-- On a valid Marshal `peek` copies the first `n` bytes that are waiting, or all if there are fewer.
pub peek_lem :
    (h : Memory) (m : Marshal) (n : ℕ) → IsValid h m → peek h m n ≡ take n (contents h m.chunks)
unfolding peek
peek_lem h m n v = peek_chain_lem h m.chunks n v.chain
