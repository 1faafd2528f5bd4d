-- ===== src/SparseInt/RoundTrip/Int.antt =====
-- `load_i32` on the bytes of each size, and `dump_i32` on the values of each size.
use s_rpc.Base.{
  ℕ, ◌+◌, ◌-◌, ◌*◌, ◌%◌, ◌^◌, ◌≤◌, ◌<◌, ◌≡◌, ◌++◌, List, ◌∷◌, arith, ◌∙◌, ltb, if◌then◌else◌, take,
}
use s_rpc.Base.Int.{ℤ, pos, negsuc}
use s_rpc.SparseInt.{
  magnitude, buf_size, dump_i32, load_i32, extend, fill, signed, byte, pattern_of, tail_bytes,
}
use s_rpc.SparseInt.Header.{
  buf_size_lem, first_byte_1, first_byte_2, first_byte_3, first_byte_4, tagged_1, tagged_2,
  tagged_3, tagged_4,
}

load_1 :
    (h : ℕ) (rest : List ℕ)
    → 0 ≤ h
    → h < 128
    → load_i32 (h ∷ rest)
      ≡ signed 32 (if ltb (h % 128) 64 then (h % 128) else (h % 128 + 128) + (2 ^ 32 - 2 ^ 8))
unfolding load_i32 fill extend
load_1 h rest p0 p1 =
    let e : buf_size h ≡ 1 = ground (arith, buf_size_lem h) in rw e (ground (arith, first_byte_1 h))

dump_1 :
    (v : ℤ)
    → magnitude v < 2 ^ 6
    → let p = pattern_of 32 v in dump_i32 v ≡ ((byte p 0 % 128 + 0) ∷ tail_bytes p 0, 1)
unfolding dump_i32
dump_1 (pos n) hi = ground (arith, tagged_1 (byte (pattern_of 32 (pos n)) 0) (omega arith))
dump_1 (negsuc n) hi = ground (arith, tagged_1 (byte (pattern_of 32 (negsuc n)) 0) (omega arith))

pub load-dump_1 :
    (v : ℤ) (junk : List ℕ)
    → magnitude v < 2 ^ 6
    → load_i32 (take (dump_i32 v).1 (dump_i32 v).0 ++ junk) ≡ v
load-dump_1 (pos n) junk hi =
    let p = pattern_of 32 (pos n) in
    rw (dump_1 (pos n) hi)
      (load_1 (byte p 0 % 128 + 0) junk (omega arith) (omega arith) ∙ ground arith)
load-dump_1 (negsuc n) junk hi =
    let p = pattern_of 32 (negsuc n) in
    rw (dump_1 (negsuc n) hi)
      (load_1 (byte p 0 % 128 + 0) junk (omega arith) (omega arith) ∙ ground arith)

load_2 :
    (h b0 : ℕ) (rest : List ℕ)
    → 128 ≤ h
    → h < 192
    → b0 < 256
    → load_i32 (h ∷ b0 ∷ rest)
      ≡ signed 32 (
          if ltb (h % 64) 32
          then b0 + 256 * (h % 64)
          else b0 + 256 * (h % 64 + 192) + (2 ^ 32 - 2 ^ 16))
unfolding load_i32 fill extend
load_2 h b0 rest p0 p1 p2 =
    let e : buf_size h ≡ 2 = ground (arith, buf_size_lem h) in rw e (ground (arith, first_byte_2 h))

dump_2 :
    (v : ℤ)
    → 2 ^ 6 ≤ magnitude v
    → magnitude v < 2 ^ 13
    → let p = pattern_of 32 v in dump_i32 v ≡ ((byte p 1 % 64 + 128) ∷ tail_bytes p 1, 2)
unfolding dump_i32
dump_2 (pos n) lo hi = ground (arith, tagged_2 (byte (pattern_of 32 (pos n)) 1) (omega arith))
dump_2 (negsuc n) lo hi = ground (arith, tagged_2 (byte (pattern_of 32 (negsuc n)) 1) (omega arith))

pub load-dump_2 :
    (v : ℤ) (junk : List ℕ)
    → 2 ^ 6 ≤ magnitude v
    → magnitude v < 2 ^ 13
    → load_i32 (take (dump_i32 v).1 (dump_i32 v).0 ++ junk) ≡ v
load-dump_2 (pos n) junk lo hi =
    let p = pattern_of 32 (pos n) in
    rw (dump_2 (pos n) lo hi) (
      load_2 (byte p 1 % 64 + 128) (byte p 0) junk (omega arith) (omega arith) (omega arith)
      ∙ ground arith)
load-dump_2 (negsuc n) junk lo hi =
    let p = pattern_of 32 (negsuc n) in
    rw (dump_2 (negsuc n) lo hi) (
      load_2 (byte p 1 % 64 + 128) (byte p 0) junk (omega arith) (omega arith) (omega arith)
      ∙ ground arith)

load_3 :
    (h b1 b0 : ℕ) (rest : List ℕ)
    → 192 ≤ h
    → h < 224
    → b1 < 256
    → b0 < 256
    → load_i32 (h ∷ b1 ∷ b0 ∷ rest)
      ≡ signed 32 (
          if ltb (h % 32) 16
          then b0 + 256 * b1 + 256 ^ 2 * (h % 32)
          else b0 + 256 * b1 + 256 ^ 2 * (h % 32 + 224) + (2 ^ 32 - 2 ^ 24))
unfolding load_i32 fill extend
load_3 h b1 b0 rest p0 p1 p2 p3 =
    let e : buf_size h ≡ 3 = ground (arith, buf_size_lem h) in rw e (ground (arith, first_byte_3 h))

dump_3 :
    (v : ℤ)
    → 2 ^ 13 ≤ magnitude v
    → magnitude v < 2 ^ 20
    → let p = pattern_of 32 v in dump_i32 v ≡ ((byte p 2 % 32 + 192) ∷ tail_bytes p 2, 3)
unfolding dump_i32
dump_3 (pos n) lo hi = ground (arith, tagged_3 (byte (pattern_of 32 (pos n)) 2) (omega arith))
dump_3 (negsuc n) lo hi = ground (arith, tagged_3 (byte (pattern_of 32 (negsuc n)) 2) (omega arith))

pub load-dump_3 :
    (v : ℤ) (junk : List ℕ)
    → 2 ^ 13 ≤ magnitude v
    → magnitude v < 2 ^ 20
    → load_i32 (take (dump_i32 v).1 (dump_i32 v).0 ++ junk) ≡ v
load-dump_3 (pos n) junk lo hi =
    let p = pattern_of 32 (pos n) in
    rw (dump_3 (pos n) lo hi) (
      load_3 (byte p 2 % 32 + 192) (byte p 1) (byte p 0) junk (omega arith) (omega arith)
        (omega arith) (omega arith)
      ∙ ground arith)
load-dump_3 (negsuc n) junk lo hi =
    let p = pattern_of 32 (negsuc n) in
    rw (dump_3 (negsuc n) lo hi) (
      load_3 (byte p 2 % 32 + 192) (byte p 1) (byte p 0) junk (omega arith) (omega arith)
        (omega arith) (omega arith)
      ∙ ground arith)

load_4 :
    (h b2 b1 b0 : ℕ) (rest : List ℕ)
    → 224 ≤ h
    → h < 240
    → b2 < 256
    → b1 < 256
    → b0 < 256
    → load_i32 (h ∷ b2 ∷ b1 ∷ b0 ∷ rest)
      ≡ signed 32 (
          if ltb (h % 16) 8
          then b0 + 256 * b1 + 256 ^ 2 * b2 + 256 ^ 3 * (h % 16)
          else b0 + 256 * b1 + 256 ^ 2 * b2 + 256 ^ 3 * (h % 16 + 240))
unfolding load_i32 fill extend
load_4 h b2 b1 b0 rest p0 p1 p2 p3 p4 =
    let e : buf_size h ≡ 4 = ground (arith, buf_size_lem h) in rw e (ground (arith, first_byte_4 h))

dump_4 :
    (v : ℤ)
    → 2 ^ 20 ≤ magnitude v
    → magnitude v < 2 ^ 27
    → let p = pattern_of 32 v in dump_i32 v ≡ ((byte p 3 % 16 + 224) ∷ tail_bytes p 3, 4)
unfolding dump_i32
dump_4 (pos n) lo hi = ground (arith, tagged_4 (byte (pattern_of 32 (pos n)) 3) (omega arith))
dump_4 (negsuc n) lo hi = ground (arith, tagged_4 (byte (pattern_of 32 (negsuc n)) 3) (omega arith))

pub load-dump_4 :
    (v : ℤ) (junk : List ℕ)
    → 2 ^ 20 ≤ magnitude v
    → magnitude v < 2 ^ 27
    → load_i32 (take (dump_i32 v).1 (dump_i32 v).0 ++ junk) ≡ v
load-dump_4 (pos n) junk lo hi =
    let p = pattern_of 32 (pos n) in
    rw (dump_4 (pos n) lo hi) (
      load_4 (byte p 3 % 16 + 224) (byte p 2) (byte p 1) (byte p 0) junk (omega arith) (omega arith)
        (omega arith) (omega arith) (omega arith)
      ∙ ground arith)
load-dump_4 (negsuc n) junk lo hi =
    let p = pattern_of 32 (negsuc n) in
    rw (dump_4 (negsuc n) lo hi) (
      load_4 (byte p 3 % 16 + 224) (byte p 2) (byte p 1) (byte p 0) junk (omega arith) (omega arith)
        (omega arith) (omega arith) (omega arith)
      ∙ ground arith)
