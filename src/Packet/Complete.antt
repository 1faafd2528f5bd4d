-- ===== src/Packet/Complete.antt =====
-- When a packet is complete: exactly when all its bytes have come.
use s_rpc.Base.{
  ℕ, ◌+◌, ◌%◌, ◌^◌, ◌<◌, ◌≡◌, inl, inr, sym, ◌∙◌, ap, true, false, List, ◌++◌, arith, ltb, length,
  take, length-append, length-take, take-append_le, take_all, append_assoc, lt→ltb,
}
use native.Mathlib.Decide.{dec_lt}
use s_rpc.SparseInt.{of_bytes}
use s_rpc.Marshal.Buffer.{peek}
use s_rpc.Marshal.Buffer.Read.{peek_lem}
use s_rpc.Marshal.Buffer.Write.{content_size_slow-contents}
use s_rpc.Marshal.Wire.{State, bytes_of}
use s_rpc.Marshal.Wire.Scalars.{Valid, pending, length-bytes_of, of_bytes-bytes_of}
use s_rpc.Packet.{size_t_of, complete, frame, Incomplete}

-- A size below 2 ^ 31 is read as itself.
pub size_t_of-bytes_of : (n : ℕ) → n < 2 ^ 31 → size_t_of (bytes_of 4 (n % 2 ^ 32)) ≡ n
size_t_of-bytes_of n h =
    let small : n % 2 ^ 32 ≡ n = omega (arith, h) in
    let back : of_bytes (bytes_of 4 n) ≡ n = of_bytes-bytes_of 4 n (omega (arith, h)) in
    let bit : ltb n (2 ^ 31) ≡ true = lt→ltb n (2 ^ 31) h in
    rw (small, back) (ground (arith, bit, h))

pub content_size-pending : (s : State) → Valid s → s.1.content_size ≡ length (pending s)
content_size-pending s v = v.counted ∙ content_size_slow-contents s.0 s.1.chunks

append-cancel_length : (n : ℕ) (xs ys : List ℕ) → length xs ≡ n → take n (xs ++ ys) ≡ xs
append-cancel_length n xs ys e =
    take-append_le n xs ys (omega (arith, e)) ∙ take_all n xs (omega (arith, e))

four : (n : ℕ) (rest : List ℕ) → take 4 (bytes_of 4 n ++ rest) ≡ bytes_of 4 n
four n rest = append-cancel_length 4 (bytes_of 4 n) rest (length-bytes_of 4 n)

-- A whole packet at the front is complete, whatever follows.
pub complete-frame :
    (s : State) (p rest : List ℕ)
    → Valid s
    → pending s ≡ frame p ++ rest
    → length p < 2 ^ 31
    → complete s ≡ true
unfolding complete
complete-frame s p rest v e small =
    let n = length p in
    let head : peek s.0 s.1 4 ≡ bytes_of 4 (n % 2 ^ 32) =
      peek_lem s.0 s.1 4 v
      ∙ ap (take 4) e
      ∙ ap (take 4) (append_assoc (bytes_of 4 (n % 2 ^ 32)) p rest)
      ∙ four (n % 2 ^ 32) (p ++ rest) in
    let size : length (pending s) ≡ 4 + n + length rest = omega (
      arith,
      ap length e,
      length-append (frame p) rest,
      length-append (bytes_of 4 (n % 2 ^ 32)) p,
      length-bytes_of 4 (n % 2 ^ 32),
    ) in
    rw
      (
        head,
        size_t_of-bytes_of n small,
        length-bytes_of 4 (n % 2 ^ 32),
        content_size-pending s v,
        size,
      )
      (ground (arith, small))

complete_short : (s : State) → Valid s → length (pending s) < 4 → complete s ≡ false
unfolding complete
complete_short s v few =
    let short : length (peek s.0 s.1 4) < 4 =
      omega (arith, ap length (peek_lem s.0 s.1 4 v), length-take 4 (pending s), few) in
    ground (arith, short)

-- The beginning of a packet is not.
pub complete_not : (s : State) → Valid s → Incomplete (pending s) → complete s ≡ false
unfolding complete
complete_not s v (inl few) = complete_short s v few
complete_not s v (inr (p, more, e, small, some)) = elim (dec_lt (length (pending s)) 4) [
  | yes few ↦ complete_short s v few
  | no many ↦
      let n = length p in
      let head : peek s.0 s.1 4 ≡ bytes_of 4 (n % 2 ^ 32) =
        peek_lem s.0 s.1 4 v
        ∙ sym (take-append_le 4 (pending s) more (omega arith))
        ∙ ap (take 4) (sym e)
        ∙ four (n % 2 ^ 32) p in
      let size : length (pending s) + length more ≡ 4 + n = omega (
        arith,
        ap length e,
        length-append (pending s) more,
        length-append (bytes_of 4 (n % 2 ^ 32)) p,
        length-bytes_of 4 (n % 2 ^ 32),
      ) in
      rw
        (head, size_t_of-bytes_of n small, length-bytes_of 4 (n % 2 ^ 32), content_size-pending s v)
        (ground (arith, small, size, some))
]
