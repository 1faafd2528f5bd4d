-- ===== src/Marshal/Socket/Incoming.antt =====
-- `read_from_fd`: what the socket gives is put behind what waits, in order.
use s_rpc.Base.{
  ℕ, zero, suc, ◌+◌, ◌-◌, ◌%◌, ◌^◌, ◌≤◌, ◌<◌, ◌≡◌, ◌≢◌, refl, sym, ◌∙◌, ap, ap₂, inl, inr, true,
  false, List, [], ◌∷◌, ◌++◌, arith, length, min, All, Bool-cases, append-nil, append_assoc,
  length-append, ltb, ◌==◌, take_all,
}
use s_rpc.Base.Outcome.{done}
use s_rpc.Marshal.Memory.{Memory, bytes_from}
use s_rpc.Marshal.Chunk
use s_rpc.Marshal.Chunk.{Chunk, IsWindow, fully_written, new_empty, window}
use s_rpc.Marshal.Buffer.{IsChain, IsApart, contents, write_chain, write_tail}
use s_rpc.Marshal.Buffer.Write.{
  IsChain-cons, write_chain-contents, write_chain-IsChain, write_chain-IsApart,
  content_size_slow-contents,
}
use s_rpc.Marshal.Buffer.Read.{list_of_length_0}
use s_rpc.Marshal.Buffer.{room}
use s_rpc.Marshal.Wire.{State}
use s_rpc.Marshal.Wire.Scalars.{Valid, pending}
use s_rpc.Marshal.Socket.{Socket, InOrder, ensure_tail, fill_tail, pull_all, read_from_fd}

-- A chain whose tail has room takes bytes that fit as `write` does.
fill_tail-write_chain :
    (h : Memory) (cs : List Chunk) (p : List ℕ)
    → IsChain cs
    → 0 < room cs
    → length p ≤ room cs
    → fill_tail h cs p ≡ write_chain h cs p
unfolding fill_tail write_chain write_tail Chunk.write
fill_tail-write_chain h [] p v lt le = absurd (omega arith)
fill_tail-write_chain h (c ∷ []) p v lt le =
    let not_full : fully_written c ≡ false = ground arith in
    let n : min (length p) (c.size - c.write_idx) ≡ length p = omega arith in
    let whole : ltb (length p) (length p) ≡ false = ground arith in
    rw (not_full, n, whole, take_all (length p) p (omega arith)) refl
fill_tail-write_chain h (c ∷ d ∷ cs) p v lt le =
    ap (λ (r : Memory × List Chunk). (r.0, c ∷ r.1)) (fill_tail-write_chain h (d ∷ cs) p v.3 lt le)

-- Making room changes no byte.
ensure_tail-contents :
    (h : Memory) (cs : List Chunk)
    → contents (ensure_tail h cs).0 (ensure_tail h cs).1 ≡ contents h cs
unfolding ensure_tail contents Chunk.new_empty bytes_from
ensure_tail-contents h [] = refl
ensure_tail-contents h (c ∷ []) = elim (Bool-cases (fully_written c)) [
  | inl full ↦ rw full refl
  | inr rest ↦ rw rest refl
]
ensure_tail-contents h (c ∷ d ∷ cs) = ap₂ ◌++◌ (kept h c (d ∷ cs)) (ensure_tail-contents h (d ∷ cs))
  where
    kept : (h : Memory) (c : Chunk) (cs : List Chunk) → window (ensure_tail h cs).0 c ≡ window h c
    kept h c [] = refl
    kept h c (d ∷ []) = elim (Bool-cases (fully_written d)) [
      | inl full ↦ rw full refl
      | inr rest ↦ rw rest refl
    ]
    kept h c (d ∷ e ∷ cs) = kept h c (e ∷ cs)

ensure_tail-room : (h : Memory) (cs : List Chunk) → IsChain cs → 0 < room (ensure_tail h cs).1
unfolding ensure_tail Chunk.new_empty
ensure_tail-room h [] v = omega arith
ensure_tail-room h (c ∷ []) v = ground arith
ensure_tail-room h (c ∷ d ∷ cs) v = not_last h c d cs v.3
  where
    not_last :
        (h : Memory) (c d : Chunk) (cs : List Chunk)
        → IsChain (d ∷ cs)
        → 0 < room (c ∷ (ensure_tail h (d ∷ cs)).1)
    not_last h c d [] v = ground arith
    not_last h c d (e ∷ cs) v = not_last h d e cs v.3

ensure_tail-IsChain : (h : Memory) (cs : List Chunk) → IsChain cs → IsChain (ensure_tail h cs).1
unfolding ensure_tail Chunk.new_empty
ensure_tail-IsChain h [] v = (record { written = omega arith; ordered = omega arith }, omega arith)
ensure_tail-IsChain h (c ∷ []) v = ground (arith, v)
ensure_tail-IsChain h (c ∷ d ∷ cs) v =
    IsChain-cons c _ v.0 v.1 v.2 (ensure_tail-IsChain h (d ∷ cs) v.3)

ensure_tail-next : (h : Memory) (cs : List Chunk) → h.next ≤ (ensure_tail h cs).0.next
unfolding ensure_tail Chunk.new_empty
ensure_tail-next h [] = omega arith
ensure_tail-next h (c ∷ []) = ground arith
ensure_tail-next h (c ∷ d ∷ cs) = ensure_tail-next h (d ∷ cs)

ensure_tail-All :
    (h : Memory) (cs : List Chunk) (b : ℕ)
    → All (λ d. d.data_ptr ≢ b) cs
    → b < h.next
    → All (λ d. d.data_ptr ≢ b) (ensure_tail h cs).1
unfolding ensure_tail Chunk.new_empty
ensure_tail-All h [] b ne lt = ground arith
ensure_tail-All h (c ∷ []) b ne lt = ground arith
ensure_tail-All h (c ∷ d ∷ cs) b ne lt = (ne.0, ensure_tail-All h (d ∷ cs) b ne.1 lt)

ensure_tail-IsApart :
    (h : Memory) (cs : List Chunk)
    → IsApart h.next cs
    → IsApart (ensure_tail h cs).0.next (ensure_tail h cs).1
unfolding ensure_tail
ensure_tail-IsApart h [] a = unfold Chunk.new_empty in ground arith
ensure_tail-IsApart h (c ∷ []) a = unfold Chunk.new_empty in ground arith
ensure_tail-IsApart h (c ∷ d ∷ cs) a = (
  omega (arith, ensure_tail-next h (d ∷ cs)),
  ensure_tail-All h (d ∷ cs) c.data_ptr a.1 a.0,
  ensure_tail-IsApart h (d ∷ cs) a.2,
)

-- What the loop comes to.
pub record Pulled {S : Type 0} (receive : ℕ → S → List ℕ × S) (ahead : S → List ℕ) (h : Memory)
    (cs : List Chunk) (s : S) (r : Memory × List Chunk × ℕ × S) : Type 0 where
  pub got : List ℕ
  pub appended : contents r.0 r.1 ≡ contents h cs ++ got
  pub in_order : ahead s ≡ got ++ ahead r.3
  pub number : length got ≡ r.2
  pub chain : IsChain r.1
  pub apart : IsApart r.0.next r.1
  pub dry : (k : ℕ) × (z : S) × (0 < k) × (receive k z ≡ ([], r.3))

module _ {S : Type 0} (socket : Socket S) (law : InOrder socket) where
  -- Bytes that came before the others.
  Pulled-append :
      (h h' : Memory) (cs ds : List Chunk) (p : List ℕ) (s s' : S) (r : Memory × List Chunk × ℕ × S)
      → contents h' ds ≡ contents h cs ++ p
      → law.ahead s ≡ p ++ law.ahead s'
      → Pulled socket.receive law.ahead h' ds s' r
      → Pulled socket.receive law.ahead h cs s (r.0, r.1, length p + r.2, r.3)
  Pulled-append h h' cs ds p s s' r more next q = record {
    got = p ++ q.got;
    appended = q.appended ∙ ap (λ l. l ++ q.got) more ∙ append_assoc (contents h cs) p q.got;
    in_order = next ∙ ap (◌++◌ p) q.in_order ∙ sym (append_assoc p q.got (law.ahead r.3));
    number = omega (arith, length-append p q.got, q.number);
    chain = q.chain;
    apart = q.apart;
    dry = q.dry;
  }

  pull_all_lem :
      (fuel : ℕ) (h : Memory) (cs : List Chunk) (s : S)
      → IsChain cs
      → IsApart h.next cs
      → length (law.ahead s) < fuel
      → (r : Memory × List Chunk × ℕ × S) × (pull_all socket fuel h cs s ≡ done r)
        × Pulled socket.receive law.ahead h cs s r
  unfolding pull_all
  pull_all_lem zero h cs s v a lt = absurd (omega arith)
  pull_all_lem (suc fuel) h cs s v a lt =
      let e = ensure_tail h cs in
      let k = room e.1 in
      let more : 0 < k = ensure_tail-room h cs v in
      let some : ltb 0 k ≡ true = ground arith in
      let p = (socket.receive k s).0 in
      let s' = (socket.receive k s).1 in
      let same = ensure_tail-contents h cs in
      let v' = ensure_tail-IsChain h cs v in
      let a' = ensure_tail-IsApart h cs a in
      let w = fill_tail-write_chain e.0 e.1 p v' more (law.receive_le k s) in
      let next = law.receive_next k s in
      elim (Bool-cases (length p == 0)) [
        | inl stop ↦
            let none : p ≡ [] = list_of_length_0 p (ground (arith, stop)) in
            (
              (e.0, e.1, 0, s'),
              rw (some, stop) refl,
              record {
                got = [];
                appended = same ∙ sym (append-nil (contents h cs));
                in_order = next ∙ ap (λ l. l ++ law.ahead s') none;
                number = refl;
                chain = v';
                apart = a';
                dry = (k, s, more, ap (λ (x : List ℕ). (x, s')) none);
              },
            )
        | inr go ↦
            let f = write_chain e.0 e.1 p in
            let fewer : length (law.ahead s') < fuel =
              ground (arith, go, lt, ap length next, length-append p (law.ahead s')) in
            let (r, loop, q) =
              pull_all_lem fuel f.0 f.1 s' (write_chain-IsChain e.0 e.1 p v')
                (write_chain-IsApart e.0 e.1 p a') fewer in
            (
              (r.0, r.1, length p + r.2, r.3),
              rw (some, go, w, loop) refl,
              Pulled-append h f.0 cs f.1 p s s' r
                  (write_chain-contents e.0 e.1 p v' a' ∙ ap (λ l. l ++ p) same) next q,
            )
      ]

  -- With more rounds than bytes that can still be received, `read_from_fd` of a valid Marshal
  -- returns, and has moved bytes from the socket, in order, behind what waits, until a `::read` of
  -- at least one byte gave nothing: nothing is lost, added or put in another place, the number of
  -- bytes is returned, and the Marshal is valid.
  pub read_from_fd_lem :
      (fuel : ℕ) (t : State) (s : S)
      → Valid t
      → length (law.ahead s) < fuel
      → (n : ℕ) × (u : State) × (s' : S) × (read_from_fd socket fuel t s ≡ done (n, u, s'))
        × (pending u ++ law.ahead s' ≡ pending t ++ law.ahead s)
        × (length (pending u) ≡ length (pending t) + n)
        × Valid u
        × ((k : ℕ) × (z : S) × (0 < k) × (socket.receive k z ≡ ([], s')))
  unfolding read_from_fd
  read_from_fd_lem fuel t s v lt =
      let ((h, cs, n, s'), loop, q) = pull_all_lem fuel t.0 t.1.chunks s v.chain v.apart lt in
      (
        n,
        (
          h,
          record {
            chunks = cs;
            write_cnt = (t.1.write_cnt + n) % 2 ^ 32;
            content_size = t.1.content_size + n;
          },
        ),
        s',
        rw loop refl,
        ap (λ l. l ++ law.ahead s') q.appended
            ∙ append_assoc (pending t) q.got (law.ahead s')
            ∙ ap (◌++◌ (pending t)) (sym q.in_order),
        ap length q.appended
            ∙ length-append (pending t) q.got
            ∙ ap (◌+◌ (length (pending t))) q.number,
        record {
          chain = q.chain;
          apart = q.apart;
          counted = omega (
            arith,
            v.counted,
            content_size_slow-contents t.0 t.1.chunks,
            content_size_slow-contents h cs,
            ap length q.appended,
            length-append (contents t.0 t.1.chunks) q.got,
            q.number,
          );
        },
        q.dry,
      )
