-- ===== src/Marshal/Wire/Sparse.antt =====
-- v32 and v64 through a Marshal.
use s_rpc.Base.{
  ℕ, zero, suc, ◌+◌, ◌*◌, ◌/◌, ◌^◌, ◌≤◌, ◌<◌, ◌≡◌, true, refl, sym, ◌∙◌, ap, ◌⊎◌, List, [], ◌∷◌,
  ◌++◌, arith, leb, length, take, get_or, length-take,
}
use s_rpc.Base.Int.{ℤ}
use s_rpc.Base.Outcome.{done}
use s_rpc.SparseInt.{
  magnitude, buf_size, val_size, dump_i64, load_i32, load_i64, pattern_of, signed,
}
use s_rpc.SparseInt.Sizes.{
  val_size-dump_i64, buf_size-dump_i64, dump_i32-eq-dump_i64, dump_i64_bytes, val_size_bounds,
  val_size_i32,
}
use s_rpc.SparseInt.RoundTrip.{load_i32-dump_i32, load_i64-dump_i64}
use s_rpc.SparseInt.Defect.{load-dump_eight}
use s_rpc.Marshal.Buffer.{peek}
use s_rpc.Marshal.Buffer.Read.{peek_lem}
use s_rpc.Marshal.Wire.{State, put_bytes, put_v32, put_v64, get_sparse, get_v32, get_v64}
use s_rpc.Marshal.Wire.Scalars.{Valid, pending, Gets, put_bytes-Puts, get_bytes-Gets, through}

first_byte :
    (s : State) (b : ℕ) (rest : List ℕ) → Valid s → pending s ≡ b ∷ rest → peek s.0 s.1 1 ≡ b ∷ []
first_byte s b rest v e = peek_lem s.0 s.1 1 v ∙ ap (take 1) e

-- A reader of a sparse integer takes as many bytes as the first one says.
Gets-sparse :
    (width : ℕ) (load : List ℕ → ℤ) (junk : List ℕ) (b : ℕ) (enc : List ℕ)
    → buf_size b ≡ length (b ∷ enc)
    → length (b ∷ enc) ≤ width
    → Gets (get_sparse width load junk) (b ∷ enc) (load (b ∷ enc ++ junk))
unfolding get_sparse
Gets-sparse width load junk b enc size fits s rest v e =
    let (t, got, left, valid) = get_bytes-Gets (b ∷ enc) s rest v e in
    let room : leb (length (b ∷ enc)) width ≡ true = ground arith in
    (t, rw (first_byte s b (enc ++ rest) v e, size, room, got), left, valid)

-- The encodings as a first byte and the rest.
abbrev pub sent : ℤ → List ℕ
sent v = take (dump_i64 v).1 (dump_i64 v).0

pub length-sent : (v : ℤ) → magnitude v < 2 ^ 63 → length (sent v) ≡ val_size v
length-sent v h =
    ground (
      arith,
      length-take (dump_i64 v).1 (dump_i64 v).0,
      (dump_i64_bytes v h).0,
      val_size-dump_i64 v,
    )

head_of_take :
    (n : ℕ) (xs : List ℕ) → 1 ≤ n → 1 ≤ length xs → (ys : List ℕ) × (take n xs ≡ get_or xs 0 0 ∷ ys)
head_of_take (suc n) (x ∷ xs) h k = (take n xs, refl)
head_of_take zero xs h k = absurd (omega arith)
head_of_take (suc n) [] h k = absurd (omega arith)

sent-head :
    (v : ℤ)
    → magnitude v < 2 ^ 63
    → (b : ℕ) × (enc : List ℕ) × (sent v ≡ b ∷ enc) × (buf_size b ≡ length (b ∷ enc))
sent-head v h =
    let size = val_size_bounds v in
    let (enc, e) =
      head_of_take (dump_i64 v).1 (dump_i64 v).0 (omega (arith, val_size-dump_i64 v))
        (ground (arith, (dump_i64_bytes v h).0)) in
    (
      get_or (dump_i64 v).0 0 0,
      enc,
      e,
      buf_size-dump_i64 v h ∙ val_size-dump_i64 v ∙ sym (length-sent v h) ∙ ap length e,
    )

pub Gets-v64 :
    (v : ℤ) (junk : List ℕ)
    → magnitude v < 2 ^ 63
    → Gets (get_v64 junk) (sent v) (load_i64 (sent v ++ junk))
unfolding get_v64
Gets-v64 v junk h s rest w e =
    let (b, enc, q, size) = sent-head v h in
    let small : length (b ∷ enc) ≤ 9 =
      omega (arith, val_size_bounds v, length-sent v h, ap length q) in
    rw q (Gets-sparse 9 load_i64 junk b enc size small s rest w (rw q at e))

-- A v64 below 2 ^ 48 or at least 2 ^ 55 in magnitude is read back, whatever is put behind it and
-- whatever stood in the reader's array.
pub get_v64-put_v64 :
    (v : ℤ) (junk : List ℕ) (s : State) (more : List ℕ)
    → magnitude v < 2 ^ 63
    → (magnitude v < 2 ^ 48) ⊎ (2 ^ 55 ≤ magnitude v)
    → Valid s
    → pending s ≡ []
    → (t : State) × (get_v64 junk (put_bytes more (put_v64 v s)) ≡ done (v, t))
      × (pending t ≡ more)
      × Valid t
unfolding put_v64
get_v64-put_v64 v junk s more h range w e = rw (load_i64-dump_i64 v junk h range) at (
    through (put_v64 v) (get_v64 junk) (sent v) _ (put_bytes-Puts (sent v)) (Gets-v64 v junk h) s
      more w e)

-- A v64 of 2 ^ 48 to 2 ^ 55 - 1 in magnitude comes back with its lowest byte replaced by the byte
-- `j` that stood ninth in the reader's array.
pub get_v64_eight :
    (v : ℤ) (j : ℕ) (junk : List ℕ) (s : State) (more : List ℕ)
    → 2 ^ 48 ≤ magnitude v
    → magnitude v < 2 ^ 55
    → j < 256
    → Valid s
    → pending s ≡ []
    → (t : State) × (get_v64 (j ∷ junk) (put_bytes more (put_v64 v s))
        ≡ done (signed 64 (pattern_of 64 v / 256 * 256 + j), t))
      × (pending t ≡ more)
      × Valid t
unfolding put_v64
get_v64_eight v j junk s more lo hi hj w e = rw (load-dump_eight v j junk lo hi hj) at (
    through (put_v64 v) (get_v64 (j ∷ junk)) (sent v) _ (put_bytes-Puts (sent v))
      (Gets-v64 v (j ∷ junk) (omega arith)) s more w e)

pub Gets-v32 :
    (v : ℤ) (junk : List ℕ)
    → magnitude v < 2 ^ 31
    → Gets (get_v32 junk) (sent v) (load_i32 (sent v ++ junk))
unfolding get_v32
Gets-v32 v junk h s rest w e =
    let (b, enc, q, size) = sent-head v (omega arith) in
    let small : length (b ∷ enc) ≤ 5 =
      omega (arith, val_size_i32 v h, length-sent v (omega arith), ap length q) in
    rw q (Gets-sparse 5 load_i32 junk b enc size small s rest w (rw q at e))

-- Every v32 is read back, whatever is put behind it and whatever stood in the reader's array.
get_v32-put_v32 :
    (v : ℤ) (junk : List ℕ) (s : State) (more : List ℕ)
    → magnitude v < 2 ^ 31
    → Valid s
    → pending s ≡ []
    → (t : State) × (get_v32 junk (put_bytes more (put_v32 v s)) ≡ done (v, t))
      × (pending t ≡ more)
      × Valid t
unfolding put_v32 get_v32
get_v32-put_v32 v junk s more h w e =
    let same = dump_i32-eq-dump_i64 v h in
    let value : load_i32 (sent v ++ junk) ≡ v = rw same at (load_i32-dump_i32 v junk h) in
    rw same (
      rw value at (
        through (put_bytes (sent v)) (get_v32 junk) (sent v) _ (put_bytes-Puts (sent v))
          (Gets-v32 v junk h) s more w e))
