-- ===== src/Marshal/Socket/Outgoing.antt =====
-- `write_to_fd`: what waits goes to the socket, in order.
use s_rpc.Base.{
  ℕ, zero, suc, ◌+◌, ◌-◌, ◌≤◌, ◌<◌, ◌≡◌, ◌⊎◌, refl, sym, ◌∙◌, ap, inl, inr, true, List, [], ◌∷◌,
  ◌++◌, arith, length, take, min, Bool-cases, append-nil, append_assoc, length-append, ◌==◌,
  take_all, take-append-drop, length-take, if◌then◌else◌,
}
use mathlib.Core.Path.{subst}
use s_rpc.Base.Outcome.{done}
use s_rpc.Marshal.Memory.{Memory}
use s_rpc.Marshal.Chunk
use s_rpc.Marshal.Chunk.{Chunk, IsWindow, fully_read, window, window-read}
use s_rpc.Marshal.Buffer.{IsChain, IsApart, contents, content_size_slow}
use s_rpc.Marshal.Buffer.Write.{content_size_slow-contents}
use s_rpc.Marshal.Buffer.Read.{IsChain-cases, length-window, read_head, used_up, list_of_length_0}
use s_rpc.Marshal.Wire.{State}
use s_rpc.Marshal.Wire.Scalars.{Valid, pending}
use s_rpc.Marshal.Socket.{Socket, InOrder, advance, push_all, write_to_fd}

-- A chain after `k` bytes of its head: `d` is the head that is left.
abbrev Splits : Memory → Chunk → List Chunk → ℕ → ℕ → Chunk → Type 0
Splits h c cs k n d =
    let ds = if fully_read d then cs else d ∷ cs in
    (contents h (c ∷ cs) ≡ take k (window h c) ++ contents h ds) × IsChain ds × IsApart n ds

read-Splits :
    (h : Memory) (c : Chunk) (cs : List Chunk) (k n : ℕ)
    → IsChain (c ∷ cs)
    → IsApart n (c ∷ cs)
    → k ≤ Chunk.content_size c
    → Splits h c cs k n (Chunk.read h c k).1
unfolding contents
read-Splits h c cs k n v a le =
    let (w, _, _, chain) = IsChain-cases c cs v in
    let (_, kept) = window-read h c k w in
    let split : window h c ≡ take k (window h c) ++ window h (Chunk.read h c k).1 =
      sym (take-append-drop k (window h c)) ∙ ap (◌++◌ (take k (window h c))) (sym kept) in
    elim (Bool-cases (fully_read (Chunk.read h c k).1)) [
      | inl used ↦
          let whole : take k (window h c) ≡ window h c =
            take_all k (window h c) (omega (arith, length-window h c, used_up h c k w used)) in
          rw used (ap (λ l. l ++ contents h cs) (sym whole), chain, a.2)
      | inr left ↦
          let (_, valid) = read_head h c cs k v left in
          let apart : IsApart n ((Chunk.read h c k).1 ∷ cs) = unfold Chunk.read in a in
          rw left (
            ap (λ l. l ++ contents h cs) split
                ∙ append_assoc (take k (window h c)) (window h (Chunk.read h c k).1)
                    (contents h cs),
            valid,
            apart,
          )
    ]

advance_lem :
    (h : Memory) (c : Chunk) (cs : List Chunk) (k n : ℕ)
    → IsChain (c ∷ cs)
    → IsApart n (c ∷ cs)
    → k ≤ Chunk.content_size c
    → let ds = advance c k cs in
      (contents h (c ∷ cs) ≡ take k (window h c) ++ contents h ds) × IsChain ds × IsApart n ds
advance_lem h c cs k n v a le =
    let e : min k (Chunk.content_size c) ≡ k = omega arith in
    let same : (Chunk.read h c k).1 ≡ record c { read_idx = c.read_idx + k } =
      unfold Chunk.read in rw e refl in
    subst (Splits h c cs k n) same (read-Splits h c cs k n v a le)

-- What the loop comes to.
pub record Pushed {S : Type 0} (behind : S → List ℕ) (send : List ℕ → S → ℕ × S) (h : Memory)
    (n : ℕ) (cs : List Chunk) (s : S) (r : List Chunk × ℕ × S) : Type 0 where
  pub got : List ℕ
  pub taken : contents h cs ≡ got ++ contents h r.0
  pub in_order : behind r.2 ≡ behind s ++ got
  pub counted : r.1 ≡ content_size_slow r.0
  pub chain : IsChain r.0
  pub apart : IsApart n r.0
  pub blocked : (r.1 ≡ 0) ⊎ ((p : List ℕ) × (z : S) × (send p z ≡ (0, r.2)))

module _ {S : Type 0} (socket : Socket S) (law : InOrder socket) where
  -- Nothing is left to be written.
  Pushed-none :
      (h : Memory) (n : ℕ) (cs : List Chunk) (left : ℕ) (s : S)
      → IsChain cs
      → IsApart n cs
      → left ≡ content_size_slow cs
      → left ≡ 0
      → Pushed law.behind socket.send h n cs s (cs, left, s)
  Pushed-none h n cs left s v a e empty = record {
    got = [];
    taken = refl;
    in_order = sym (append-nil _);
    counted = e;
    chain = v;
    apart = a;
    blocked = inl empty;
  }

  -- Bytes that were written before the others.
  Pushed-append :
      (h : Memory) (n : ℕ) (cs ds : List Chunk) (p : List ℕ) (s s' : S) (r : List Chunk × ℕ × S)
      → contents h cs ≡ p ++ contents h ds
      → law.behind s' ≡ law.behind s ++ p
      → Pushed law.behind socket.send h n ds s' r
      → Pushed law.behind socket.send h n cs s r
  Pushed-append h n cs ds p s s' r split next q = record {
    got = p ++ q.got;
    taken = split ∙ ap (◌++◌ p) q.taken ∙ sym (append_assoc p q.got (contents h r.0));
    in_order = q.in_order ∙ ap (λ l. l ++ q.got) next ∙ append_assoc (law.behind s) p q.got;
    counted = q.counted;
    chain = q.chain;
    apart = q.apart;
    blocked = q.blocked;
  }

  push_all_lem :
      (fuel : ℕ) (h : Memory) (n : ℕ) (cs : List Chunk) (left : ℕ) (s : S)
      → IsChain cs
      → IsApart n cs
      → left ≡ content_size_slow cs
      → left < fuel
      → (r : List Chunk × ℕ × S) × (push_all socket fuel h cs left s ≡ done r)
        × Pushed law.behind socket.send h n cs s r
  unfolding push_all
  push_all_lem zero h n cs left s v a e lt = absurd (omega arith)
  push_all_lem (suc fuel) h n [] left s v a e lt =
      let empty : left ≡ 0 = e ∙ (unfold content_size_slow in refl) in
      let stop : left == 0 ≡ true = ground arith in
      (([], 0, s), rw stop refl, Pushed-none h n [] 0 s v a (sym empty ∙ e) refl)
  push_all_lem (suc fuel) h n (c ∷ cs) left s v a e lt = elim (Bool-cases (left == 0)) [
    | inl stop ↦ (
      (c ∷ cs, left, s),
      rw stop refl,
      Pushed-none h n (c ∷ cs) left s v a e (ground (arith, stop)),
    )
    | inr more ↦
        let k = (socket.send (window h c) s).0 in
        let s' = (socket.send (window h c) s).1 in
        let ds = advance c k cs in
        let fits : k ≤ Chunk.content_size c =
          omega (arith, law.send_le (window h c) s, length-window h c) in
        let (split, v', a') = advance_lem h c cs k n v a fits in
        let p = take k (window h c) in
        let sizes : left - k ≡ content_size_slow ds = omega (
          arith,
          e,
          content_size_slow-contents h (c ∷ cs),
          content_size_slow-contents h ds,
          ap length split,
          length-append p (contents h ds),
          length-take k (window h c),
          length-window h c,
          fits,
        ) in
        let next = law.send_next (window h c) s in
        elim (Bool-cases (k == 0)) [
          | inl stop ↦
              let none : k ≡ 0 = ground (arith, stop) in
              (
                (ds, left, s'),
                rw (more, stop) refl,
                record {
                  got = p;
                  taken = split;
                  in_order = next;
                  counted = omega (arith, sizes, none);
                  chain = v';
                  apart = a';
                  blocked = inr (window h c, s, ap (λ (x : ℕ). (x, s')) none);
                },
              )
          | inr go ↦
              let (r, loop, q) =
                push_all_lem fuel h n ds (left - k) s' v' a' sizes (ground (arith, go, more, lt)) in
              (r, rw (more, go, loop) refl, Pushed-append h n (c ∷ cs) ds p s s' r split next q)
        ]
  ]

  -- With more rounds than bytes that wait, `write_to_fd` of a valid Marshal returns, and has moved
  -- bytes from its front to the socket, in order, until none was left or a `::write` took nothing:
  -- nothing is lost, added or put in another place, the number of bytes is returned, and the
  -- Marshal is valid.
  pub write_to_fd_lem :
      (fuel : ℕ) (t : State) (s : S)
      → Valid t
      → length (pending t) < fuel
      → (n : ℕ) × (u : State) × (s' : S) × (write_to_fd socket fuel t s ≡ done (n, u, s'))
        × (law.behind s' ++ pending u ≡ law.behind s ++ pending t)
        × (length (pending u) + n ≡ length (pending t))
        × Valid u
        × ((pending u ≡ []) ⊎ ((p : List ℕ) × (z : S) × (socket.send p z ≡ (0, s'))))
  unfolding write_to_fd
  write_to_fd_lem fuel t s v lt =
      let size = content_size_slow-contents t.0 t.1.chunks in
      let ((cs, left, s'), loop, q) =
        push_all_lem fuel t.0 t.0.next t.1.chunks t.1.content_size s v.chain v.apart v.counted
          (omega (arith, v.counted, size, lt)) in
      let size' = content_size_slow-contents t.0 cs in
      (
        t.1.content_size - left,
        (t.0, record t.1 { chunks = cs; content_size = left }),
        s',
        rw loop refl,
        ap (λ l. l ++ contents t.0 cs) q.in_order
            ∙ append_assoc (law.behind s) q.got (contents t.0 cs)
            ∙ ap (◌++◌ (law.behind s)) (sym q.taken),
        omega (
          arith,
          v.counted,
          size,
          size',
          q.counted,
          ap length q.taken,
          length-append q.got (contents t.0 cs),
        ),
        record { chain = q.chain; apart = q.apart; counted = q.counted },
        elim q.blocked [
          | inl none ↦
              inl (list_of_length_0 (contents t.0 cs) (omega (arith, size', q.counted, none)))
          | inr b ↦ inr b
        ],
      )
