-- ===== src/SparseInt/RoundTrip/Wide.antt =====
-- `load_i64` on the bytes of each size, and `dump_i64` on the values of each size.
use s_rpc.Base.{
  ℕ, ◌+◌, ◌-◌, ◌*◌, ◌%◌, ◌^◌, ◌≤◌, ◌<◌, ◌≡◌, ◌++◌, List, ◌∷◌, arith, ◌∙◌, ltb, if◌then◌else◌, take,
}
use s_rpc.Base.Int.{ℤ, pos, negsuc}
use s_rpc.SparseInt.{
  magnitude, buf_size, dump_i64, load_i64, extend, fill, signed, byte, pattern_of, tail_bytes,
}
use s_rpc.SparseInt.Header.{
  buf_size_lem, first_byte_5, first_byte_6, first_byte_7, tagged_5, tagged_6, tagged_7,
}

load_5 :
    (h b3 b2 b1 b0 : ℕ) (rest : List ℕ)
    → 240 ≤ h
    → h < 248
    → b3 < 256
    → b2 < 256
    → b1 < 256
    → b0 < 256
    → load_i64 (h ∷ b3 ∷ b2 ∷ b1 ∷ b0 ∷ rest)
      ≡ signed 64 (
          if ltb (h % 8) 4
          then b0 + 256 * b1 + 256 ^ 2 * b2 + 256 ^ 3 * b3 + 256 ^ 4 * (h % 8)
          else b0
            + 256 * b1
            + 256 ^ 2 * b2
            + 256 ^ 3 * b3
            + 256 ^ 4 * (h % 8 + 248)
            + (2 ^ 64 - 2 ^ 40))
unfolding load_i64 fill extend
load_5 h b3 b2 b1 b0 rest p0 p1 p2 p3 p4 p5 =
    let e : buf_size h ≡ 5 = ground (arith, buf_size_lem h) in rw e (ground (arith, first_byte_5 h))

dump_5 :
    (v : ℤ)
    → 2 ^ 27 ≤ magnitude v
    → magnitude v < 2 ^ 34
    → let p = pattern_of 64 v in dump_i64 v ≡ ((byte p 4 % 8 + 240) ∷ tail_bytes p 4, 5)
unfolding dump_i64
dump_5 (pos n) lo hi = ground (arith, tagged_5 (byte (pattern_of 64 (pos n)) 4) (omega arith))
dump_5 (negsuc n) lo hi = ground (arith, tagged_5 (byte (pattern_of 64 (negsuc n)) 4) (omega arith))

pub load-dump_5 :
    (v : ℤ) (junk : List ℕ)
    → 2 ^ 27 ≤ magnitude v
    → magnitude v < 2 ^ 34
    → load_i64 (take (dump_i64 v).1 (dump_i64 v).0 ++ junk) ≡ v
load-dump_5 (pos n) junk lo hi =
    let p = pattern_of 64 (pos n) in
    rw (dump_5 (pos n) lo hi) (
      load_5 (byte p 4 % 8 + 240) (byte p 3) (byte p 2) (byte p 1) (byte p 0) junk (omega arith)
        (omega arith) (omega arith) (omega arith) (omega arith) (omega arith)
      ∙ ground arith)
load-dump_5 (negsuc n) junk lo hi =
    let p = pattern_of 64 (negsuc n) in
    rw (dump_5 (negsuc n) lo hi) (
      load_5 (byte p 4 % 8 + 240) (byte p 3) (byte p 2) (byte p 1) (byte p 0) junk (omega arith)
        (omega arith) (omega arith) (omega arith) (omega arith) (omega arith)
      ∙ ground arith)

load_6 :
    (h b4 b3 b2 b1 b0 : ℕ) (rest : List ℕ)
    → 248 ≤ h
    → h < 252
    → b4 < 256
    → b3 < 256
    → b2 < 256
    → b1 < 256
    → b0 < 256
    → load_i64 (h ∷ b4 ∷ b3 ∷ b2 ∷ b1 ∷ b0 ∷ rest)
      ≡ signed 64 (
          if ltb (h % 4) 2
          then b0 + 256 * b1 + 256 ^ 2 * b2 + 256 ^ 3 * b3 + 256 ^ 4 * b4 + 256 ^ 5 * (h % 4)
          else b0
            + 256 * b1
            + 256 ^ 2 * b2
            + 256 ^ 3 * b3
            + 256 ^ 4 * b4
            + 256 ^ 5 * (h % 4 + 252)
            + (2 ^ 64 - 2 ^ 48))
unfolding load_i64 fill extend
load_6 h b4 b3 b2 b1 b0 rest p0 p1 p2 p3 p4 p5 p6 =
    let e : buf_size h ≡ 6 = ground (arith, buf_size_lem h) in rw e (ground (arith, first_byte_6 h))

dump_6 :
    (v : ℤ)
    → 2 ^ 34 ≤ magnitude v
    → magnitude v < 2 ^ 41
    → let p = pattern_of 64 v in dump_i64 v ≡ ((byte p 5 % 4 + 248) ∷ tail_bytes p 5, 6)
unfolding dump_i64
dump_6 (pos n) lo hi = ground (arith, tagged_6 (byte (pattern_of 64 (pos n)) 5) (omega arith))
dump_6 (negsuc n) lo hi = ground (arith, tagged_6 (byte (pattern_of 64 (negsuc n)) 5) (omega arith))

pub load-dump_6 :
    (v : ℤ) (junk : List ℕ)
    → 2 ^ 34 ≤ magnitude v
    → magnitude v < 2 ^ 41
    → load_i64 (take (dump_i64 v).1 (dump_i64 v).0 ++ junk) ≡ v
load-dump_6 (pos n) junk lo hi =
    let p = pattern_of 64 (pos n) in
    rw (dump_6 (pos n) lo hi) (
      load_6 (byte p 5 % 4 + 248) (byte p 4) (byte p 3) (byte p 2) (byte p 1) (byte p 0) junk
        (omega arith) (omega arith) (omega arith) (omega arith) (omega arith) (omega arith)
        (omega arith)
      ∙ ground arith)
load-dump_6 (negsuc n) junk lo hi =
    let p = pattern_of 64 (negsuc n) in
    rw (dump_6 (negsuc n) lo hi) (
      load_6 (byte p 5 % 4 + 248) (byte p 4) (byte p 3) (byte p 2) (byte p 1) (byte p 0) junk
        (omega arith) (omega arith) (omega arith) (omega arith) (omega arith) (omega arith)
        (omega arith)
      ∙ ground arith)

load_7 :
    (h b5 b4 b3 b2 b1 b0 : ℕ) (rest : List ℕ)
    → 252 ≤ h
    → h < 254
    → b5 < 256
    → b4 < 256
    → b3 < 256
    → b2 < 256
    → b1 < 256
    → b0 < 256
    → load_i64 (h ∷ b5 ∷ b4 ∷ b3 ∷ b2 ∷ b1 ∷ b0 ∷ rest)
      ≡ signed 64 (
          if ltb (h % 2) 1
          then b0
            + 256 * b1
            + 256 ^ 2 * b2
            + 256 ^ 3 * b3
            + 256 ^ 4 * b4
            + 256 ^ 5 * b5
            + 256 ^ 6 * (h % 2)
          else b0
            + 256 * b1
            + 256 ^ 2 * b2
            + 256 ^ 3 * b3
            + 256 ^ 4 * b4
            + 256 ^ 5 * b5
            + 256 ^ 6 * (h % 2 + 254)
            + (2 ^ 64 - 2 ^ 56))
unfolding load_i64 fill extend
load_7 h b5 b4 b3 b2 b1 b0 rest p0 p1 p2 p3 p4 p5 p6 p7 =
    let e : buf_size h ≡ 7 = ground (arith, buf_size_lem h) in rw e (ground (arith, first_byte_7 h))

dump_7 :
    (v : ℤ)
    → 2 ^ 41 ≤ magnitude v
    → magnitude v < 2 ^ 48
    → let p = pattern_of 64 v in dump_i64 v ≡ ((byte p 6 % 2 + 252) ∷ tail_bytes p 6, 7)
unfolding dump_i64
dump_7 (pos n) lo hi = ground (arith, tagged_7 (byte (pattern_of 64 (pos n)) 6) (omega arith))
dump_7 (negsuc n) lo hi = ground (arith, tagged_7 (byte (pattern_of 64 (negsuc n)) 6) (omega arith))

pub load-dump_7 :
    (v : ℤ) (junk : List ℕ)
    → 2 ^ 41 ≤ magnitude v
    → magnitude v < 2 ^ 48
    → load_i64 (take (dump_i64 v).1 (dump_i64 v).0 ++ junk) ≡ v
load-dump_7 (pos n) junk lo hi =
    let p = pattern_of 64 (pos n) in
    rw (dump_7 (pos n) lo hi) (
      load_7 (byte p 6 % 2 + 252) (byte p 5) (byte p 4) (byte p 3) (byte p 2) (byte p 1) (byte p 0)
        junk (omega arith) (omega arith) (omega arith) (omega arith) (omega arith) (omega arith)
        (omega arith) (omega arith)
      ∙ ground arith)
load-dump_7 (negsuc n) junk lo hi =
    let p = pattern_of 64 (negsuc n) in
    rw (dump_7 (negsuc n) lo hi) (
      load_7 (byte p 6 % 2 + 252) (byte p 5) (byte p 4) (byte p 3) (byte p 2) (byte p 1) (byte p 0)
        junk (omega arith) (omega arith) (omega arith) (omega arith) (omega arith) (omega arith)
        (omega arith) (omega arith)
      ∙ ground arith)
