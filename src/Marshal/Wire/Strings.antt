-- ===== src/Marshal/Wire/Strings.antt =====
-- std::string through a Marshal. `<<` writes the length as a v64 and `>>` reads it as an i64, so the
-- two do not fit together.
use s_rpc.Base.{
  ℕ, ◌^◌, ◌≤◌, ◌<◌, ◌≡◌, sym, ◌∙◌, ap, List, [], ◌∷◌, ◌++◌, arith, true, ltb, length, take, drop,
  Bool, Bool-cases, inl, inr, take-append-drop, length-take, append_assoc, append-nil, length-drop,
}
use s_rpc.Base.Int.{pos, leb_ℤ}
use s_rpc.Base.Outcome.{fault, verify_failed}
use s_rpc.SparseInt.{dump_i64, of_bytes, byte, pattern_of}
use s_rpc.SparseInt.Header.{tagged_1}
use s_rpc.Marshal.Wire.{State, put_bytes, put_v64, get_int, put_string, get_string, bytes_of}
use s_rpc.Marshal.Wire.Scalars.{
  Valid, pending, Puts, Gets, put_bytes-Puts, get_bytes-Gets, get_bytes_short, Gets-int,
}
use s_rpc.Marshal.Wire.Sparse.{sent}
use native.Mathlib.Decide.{dec_lt}

-- What `<<` writes: the sparse length, and the characters.
put_string-Puts : (v : List ℕ) → Puts (put_string v) (sent (pos (length v)) ++ v)
unfolding put_string put_v64
put_string-Puts [] s w =
    let (a, valid) = put_bytes-Puts (sent (pos 0)) s w in
    (a ∙ ap (◌++◌ (pending s)) (sym (append-nil _)), valid)
put_string-Puts (x ∷ v) s w =
    let n = length (x ∷ v) in
    let (a, valid) = put_bytes-Puts (sent (pos n)) s w in
    let (b, valid') = put_bytes-Puts (x ∷ v) (put_bytes (sent (pos n)) s) valid in
    (b ∙ ap (λ l. l ++ x ∷ v) a ∙ append_assoc (pending s) (sent (pos n)) (x ∷ v), valid')

-- What `>>` takes: the length in eight bytes, and the characters.
get_string-Gets :
    (resizes : ℕ → Bool) (v : List ℕ)
    → length v < 2 ^ 63
    → resizes (length v) ≡ true
    → Gets (get_string resizes) (bytes_of 8 (pattern_of 64 (pos (length v))) ++ v) v
unfolding get_string
get_string-Gets resizes [] h fits s rest w e =
    let (t, got, left, valid) = Gets-int 7 (pos 0) h s rest w e in (t, rw (got, fits), left, valid)
get_string-Gets resizes (x ∷ v) h fits s rest w e =
    let n = length (x ∷ v) in
    let head = bytes_of 8 (pattern_of 64 (pos n)) in
    let (t, got, left, valid) =
      Gets-int 7 (pos n) h s (x ∷ v ++ rest) w (e ∙ append_assoc head (x ∷ v) rest) in
    let (u, got', left', valid') = get_bytes-Gets (x ∷ v) t rest valid left in
    let not_negative : leb_ℤ (pos 0) (pos n) ≡ true = ground arith in
    let some : ltb 0 n ≡ true = ground arith in
    (u, rw (got, not_negative, fits, some) got', left', valid')

pub sent_small : (n : ℕ) → n < 64 → sent (pos n) ≡ n ∷ []
unfolding dump_i64
sent_small n h = ground (arith, tagged_1 (byte (pattern_of 64 (pos n)) 0) (omega arith))

-- A length that is at least what waits behind it fails.
too_long :
    (resizes : ℕ → Bool) (n : ℕ) (xs : List ℕ) (s : State)
    → Valid s
    → pending s ≡ n ∷ xs
    → length xs ≤ n
    → 0 < n
    → get_string resizes s ≡ fault verify_failed
unfolding get_string
too_long resizes n xs s w e le some = elim (dec_lt (length (pending s)) 8) [
  | yes few ↦ unfold get_int in rw (get_bytes_short 8 s w few)
  | no many ↦
      let p = take 8 (pending s) in
      let eight : length p ≡ 8 = omega (arith, length-take 8 (pending s)) in
      let (t, got, left, valid) =
        get_bytes-Gets p s (drop 8 (pending s)) w (sym (take-append-drop 8 (pending s))) in
      let first : n ≤ of_bytes p = rw e (omega arith) in
      let behind : length (pending t) < of_bytes p =
        omega (arith, ap length left, length-drop 8 (pending s), ap length e) in
      elim (Bool-cases (resizes (of_bytes p))) [
        | inl fits ↦
            unfold get_int in
            rw (rw eight at got) (ground (arith, fits, get_bytes_short (of_bytes p) t valid behind))
        | inr thrown ↦ unfold get_int in rw (rw eight at got) (ground (arith, thrown))
      ]
]

-- No string of fewer than 64 characters is read back: on a valid Marshal that holds its encoding
-- alone, and whatever lengths a string can be resized to, `>>` ends the process, by the exception of
-- `resize` or by a `verify` that fails.
pub get_string_fails :
    (resizes : ℕ → Bool) (v : List ℕ) (s : State)
    → Valid s
    → pending s ≡ []
    → length v < 64
    → get_string resizes (put_string v s) ≡ fault verify_failed
get_string_fails resizes v s w e h =
    let (a, valid) = put_string-Puts v s w in
    let all : pending (put_string v s) ≡ length v ∷ v = a ∙ rw (e, sent_small (length v) h) in
    elim (dec_lt 0 (length v)) [
      | yes some ↦ too_long resizes (length v) v (put_string v s) valid all (omega arith) some
      | no empty ↦
          unfold get_string get_int in
          rw (get_bytes_short 8 (put_string v s) valid (omega (arith, ap length all)))
    ]
