-- ===== src/Marshal/Slice/Parted.antt =====
-- The loop of `read_from_marshal` that shares blocks hands over exactly the front of the chain.
use s_rpc.Base.{
  ℕ, zero, suc, ◌+◌, ◌-◌, ◌≤◌, ◌<◌, ◌≡◌, ◌⊎◌, refl, sym, ◌∙◌, ap, ap₂, inl, inr, true, false, List,
  [], ◌∷◌, ◌++◌, arith, length, take, drop, min, Bool-cases, append-nil, ltb, ◌==◌, drop_all,
  length-append, ==_refl,
}
use s_rpc.Base.Outcome.{Succeeds, Succeeds-bind}
use mathlib.Core.Path.{subst}
use s_rpc.Marshal.Memory.{Memory}
use s_rpc.Marshal.Chunk
use s_rpc.Marshal.Chunk.{Chunk, IsWindow, window, fully_read, window-read}
use s_rpc.Marshal.Buffer.{contents, IsChain}
use s_rpc.Marshal.Buffer.Write.{IsChain-cons}
use s_rpc.Marshal.Buffer.Read.{IsChain-cases, behind, length-window, read_head, used_up, split_head}
use s_rpc.Marshal.Slice.{cut_copy, share_chain}
use s_rpc.Marshal.Slice.Shared.{
  discard-read, Away, cut_copy-data_ptr, cut_copy-window, Splits, cut_copy-IsChain,
  cut_copy-content_size, used_copy,
}

-- A head has bytes wherever the chain has some.
has_bytes :
    (h : Memory) (c : Chunk) (cs : List Chunk)
    → 0 < length (contents h (c ∷ cs))
    → IsWindow c
    → c.read_idx < c.size
    → (cs ≡ []) ⊎ ((c.write_idx ≡ c.size) × IsChain cs)
    → 0 < Chunk.content_size c
unfolding contents
has_bytes h c cs lt w some (inr (full, _)) = omega arith
has_bytes h c cs lt w some (inl e) =
    let few : 0 < length (window h c ++ contents h []) = rw e at lt in
    omega (arith, few, length-append (window h c) [], length-window h c)

no_more :
    (h : Memory) (c : Chunk) (cs : List Chunk) (n : ℕ)
    → n ≤ length (contents h (c ∷ cs))
    → (cs ≡ []) ⊎ (n ≤ Chunk.content_size c)
    → n ≤ Chunk.content_size c
unfolding contents
no_more h c cs n le (inr few) = few
no_more h c cs n le (inl e) =
    let most : n ≤ length (window h c ++ contents h []) = rw e at le in
    omega (arith, most, length-append (window h c) [], length-window h c)

contents-cons :
    (h : Memory) (c : Chunk) (cs : List Chunk) → contents h (c ∷ cs) ≡ window h c ++ contents h cs
unfolding contents
contents-cons h c cs = refl

contents-one : (h : Memory) (c : Chunk) → contents h (c ∷ []) ≡ window h c
unfolding contents
contents-one h c = append-nil (window h c)

-- The head is used up: the receiver has all of it, and the others follow.
used-Splits :
    (h : Memory) (c : Chunk) (cs : List Chunk) (n : ℕ) (r : List Chunk × List Chunk)
    → IsChain (c ∷ cs)
    → fully_read (Chunk.read h c n).1 ≡ true
    → Splits h cs (n - Chunk.content_size c) r
    → Splits h (c ∷ cs) n (cut_copy n c ∷ r.0, r.1)
used-Splits h c cs n r v used p =
    let d = cut_copy n c in
    let k = Chunk.content_size c in
    let (w, some, _, _) = IsChain-cases c cs v in
    let (s, t) = split_head h c cs n k refl in
    let block = cut_copy-data_ptr c n in
    let (is_c, full) = used_copy h c n w used in
    let gone : k ≤ n = used_up h c n w used in
    record {
      taken = contents-cons h d r.0 ∙ ap₂ ◌++◌ (cut_copy-window h c n w) (Splits.taken p) ∙ sym s;
      left =
          Splits.left p
          ∙ sym (
              t
              ∙ ap (λ l. l ++ drop (n - k) (contents h cs))
                  (drop_all n (window h c) (omega (arith, length-window h c))));
      chain_taken =
          subst (λ x. IsChain (x ∷ r.0)) (sym is_c)
            (IsChain-cons c r.0 w full some (Splits.chain_taken p));
      chain_left = Splits.chain_left p;
      others = λ b a. let (x, y) = Splits.others p b a.1 in ((λ q. a.0 (sym block ∙ q), x), y);
      apart = λ i a.
          let (x, y) = Splits.apart p i a.2 in
          let (z, _) = Splits.others p c.data_ptr a.1 in
          ((omega (arith, block, a.0), subst (λ b. Away b r.0) (sym block) z, x), y);
    }

-- The head is not used up: it is shared, and the sender keeps it with the rest.
kept-Splits :
    (h : Memory) (c : Chunk) (cs : List Chunk) (n : ℕ)
    → IsChain (c ∷ cs)
    → fully_read (Chunk.read h c n).1 ≡ false
    → Splits h (c ∷ cs) n (cut_copy n c ∷ [], (Chunk.read h c n).1 ∷ cs)
kept-Splits h c cs n v kept =
    let d = cut_copy n c in
    let (w, some, _, _) = IsChain-cases c cs v in
    let (s, t) = split_head h c cs n (Chunk.content_size c) refl in
    let block = cut_copy-data_ptr c n in
    let moved : c.data_ptr ≡ (Chunk.read h c n).1.data_ptr = unfold Chunk.read in refl in
    let (last, valid) = read_head h c cs n v kept in
    let (none_more, all_left) = behind h cs n (Chunk.content_size c) last in
    let (a, b) = window-read h c n w in
    record {
      taken =
          contents-one h d
          ∙ cut_copy-window h c n w
          ∙ sym (append-nil _)
          ∙ ap (◌++◌ (take n (window h c))) (sym none_more)
          ∙ sym s;
      left = contents-cons h _ cs ∙ ap₂ ◌++◌ b (sym all_left) ∙ sym t;
      chain_taken = cut_copy-IsChain c n w some;
      chain_left = valid;
      others = λ b a. ((λ q. a.0 (sym block ∙ q), tt), (λ q. a.0 (moved ∙ q), a.1));
      apart = λ i a. (
        (omega (arith, block, a.0), tt, tt),
        (omega (arith, moved, a.0), subst (λ b. Away b cs) moved a.1, a.2),
      );
    }

pub share_chain-Splits :
    (h : Memory) (cs : List Chunk) (n : ℕ)
    → IsChain cs
    → n ≤ length (contents h cs)
    → Succeeds (Splits h cs n) (share_chain cs n)
unfolding share_chain
share_chain-Splits h [] zero v le =
    unfold contents in
    record {
      taken = refl;
      left = refl;
      chain_taken = tt;
      chain_left = tt;
      others = λ b a. (tt, tt);
      apart = λ k a. (tt, tt);
    }
share_chain-Splits h [] (suc n) v le = absurd (unfold contents in omega arith)
share_chain-Splits h (c ∷ cs) zero v le =
    unfold contents in
    record {
      taken = refl;
      left = refl;
      chain_taken = tt;
      chain_left = v;
      others = λ b a. (tt, a);
      apart = λ k a. (tt, a);
    }
share_chain-Splits h (c ∷ cs) (suc m) v le =
    let n = suc m in
    let d = cut_copy n c in
    let k = Chunk.content_size c in
    let (w, some, place, chain) = IsChain-cases c cs v in
    let size : Chunk.content_size d ≡ min n k = cut_copy-content_size c n w in
    let all : length (contents h (c ∷ cs)) ≡ k + length (contents h cs) =
      unfold contents in
      omega (arith, length-append (window h c) (contents h cs), length-window h c) in
    let asked : n == 0 ≡ false = ground arith in
    let bytes : 0 < k = has_bytes h c cs (omega (arith, le)) w some place in
    let positive : ltb 0 (Chunk.content_size d) ≡ true = ground (arith, size, bytes) in
    let same = discard-read h c n w in
    let e : n - Chunk.content_size d ≡ n - k = omega (arith, size) in
    elim (Bool-cases (fully_read (Chunk.read h c n).1)) [
      | inl used ↦
          rw (asked, same, positive, ==_refl (Chunk.content_size d), used, e)
            (Succeeds-bind (Splits h cs (n - k)) (Splits h (c ∷ cs) n) (share_chain cs (n - k)) _
              (share_chain-Splits h cs (n - k) chain
                (let gone = used_up h c n w used in omega (arith, all, le)))
              (λ r p. used-Splits h c cs n r v used p))
      | inr kept ↦
          let (last, _) = read_head h c cs n v kept in
          let enough : n ≤ k = no_more h c cs n le last in
          let finished : (n - Chunk.content_size d) == 0 ≡ true = ground (arith, size, enough) in
          rw (asked, same, positive, ==_refl (Chunk.content_size d), kept, finished)
            (kept-Splits h c cs n v kept)
    ]
