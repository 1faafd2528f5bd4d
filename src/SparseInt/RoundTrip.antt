-- ===== src/SparseInt/RoundTrip.antt =====
-- `load` after `dump`, in basetypes.cpp. The bytes that were sent are the first `size` that `dump`
-- wrote; whatever stands in the buffer behind them is `junk`.
mod Int
mod Long
mod Wide
use s_rpc.Base.{
  ℕ, zero, suc, ◌+◌, ◌*◌, ◌/◌, ◌%◌, ◌^◌, ◌≤◌, ◌<◌, ◌≡◌, refl, ◌⊎◌, inl, inr, ◌++◌, List, [], ◌∷◌,
  arith, take, leb, if◌then◌else◌,
}
use s_rpc.Base.Int.{ℤ, pos, negsuc, leb_ℤ}
use s_rpc.SparseInt.{
  magnitude, buf_size, dump_i32, dump_i64, load_i32, load_i64, extend, fill, signed, byte,
  pattern_of, tail_bytes,
}
use s_rpc.SparseInt.Header.{buf_size_lem}
use native.Mathlib.Decide.{dec_lt}
use Int
use Long
use Wide

dump_i32_5 :
    (v : ℤ)
    → 2 ^ 27 ≤ magnitude v
    → magnitude v < 2 ^ 31
    → dump_i32 v ≡ ((if leb_ℤ (pos 0) v then 0xf0 else 0xf7) ∷ tail_bytes (pattern_of 32 v) 4, 5)
unfolding dump_i32
dump_i32_5 (pos n) lo hi = ground arith
dump_i32_5 (negsuc n) lo hi = ground arith

load-dump_i32_5 :
    (v : ℤ) (junk : List ℕ)
    → 2 ^ 27 ≤ magnitude v
    → magnitude v < 2 ^ 31
    → load_i32 (take (dump_i32 v).1 (dump_i32 v).0 ++ junk) ≡ v
unfolding load_i32 extend fill
load-dump_i32_5 (pos n) junk lo hi = rw (dump_i32_5 (pos n) lo hi) (ground arith)
load-dump_i32_5 (negsuc n) junk lo hi = rw (dump_i32_5 (negsuc n) lo hi) (ground arith)

dump_i64_9 :
    (v : ℤ)
    → 2 ^ 55 ≤ magnitude v
    → magnitude v < 2 ^ 63
    → dump_i64 v ≡ (0xff ∷ tail_bytes (pattern_of 64 v) 8, 9)
unfolding dump_i64
dump_i64_9 (pos n) lo hi = ground arith
dump_i64_9 (negsuc n) lo hi = ground arith

load-dump_i64_9 :
    (v : ℤ) (junk : List ℕ)
    → 2 ^ 55 ≤ magnitude v
    → magnitude v < 2 ^ 63
    → load_i64 (take (dump_i64 v).1 (dump_i64 v).0 ++ junk) ≡ v
unfolding load_i64 extend fill
load-dump_i64_9 (pos n) junk lo hi = rw (dump_i64_9 (pos n) lo hi) (ground arith)
load-dump_i64_9 (negsuc n) junk lo hi = rw (dump_i64_9 (negsuc n) lo hi) (ground arith)

-- Every i32 comes back, whatever follows its encoding in the buffer.
pub load_i32-dump_i32 :
    (v : ℤ) (junk : List ℕ)
    → magnitude v < 2 ^ 31
    → load_i32 (take (dump_i32 v).1 (dump_i32 v).0 ++ junk) ≡ v
load_i32-dump_i32 v junk h = elim (dec_lt (magnitude v) (2 ^ 6)) [
  | yes a ↦ Int.load-dump_1 v junk a
  | no a ↦ elim (dec_lt (magnitude v) (2 ^ 13)) [
    | yes b ↦ Int.load-dump_2 v junk (omega arith) b
    | no b ↦ elim (dec_lt (magnitude v) (2 ^ 20)) [
      | yes c ↦ Int.load-dump_3 v junk (omega arith) c
      | no c ↦ elim (dec_lt (magnitude v) (2 ^ 27)) [
        | yes d ↦ Int.load-dump_4 v junk (omega arith) d
        | no d ↦ load-dump_i32_5 v junk (omega arith) h
      ]
    ]
  ]
]

load-dump_below :
    (v : ℤ) (junk : List ℕ)
    → magnitude v < 2 ^ 27
    → load_i64 (take (dump_i64 v).1 (dump_i64 v).0 ++ junk) ≡ v
load-dump_below v junk h = elim (dec_lt (magnitude v) (2 ^ 6)) [
  | yes a ↦ Long.load-dump_1 v junk a
  | no a ↦ elim (dec_lt (magnitude v) (2 ^ 13)) [
    | yes b ↦ Long.load-dump_2 v junk (omega arith) b
    | no b ↦ elim (dec_lt (magnitude v) (2 ^ 20)) [
      | yes c ↦ Long.load-dump_3 v junk (omega arith) c
      | no c ↦ Long.load-dump_4 v junk (omega arith) h
    ]
  ]
]

-- An i64 below 2 ^ 48 or at least 2 ^ 55 in magnitude comes back, whatever follows its encoding in
-- the buffer.
pub load_i64-dump_i64 :
    (v : ℤ) (junk : List ℕ)
    → magnitude v < 2 ^ 63
    → (magnitude v < 2 ^ 48) ⊎ (2 ^ 55 ≤ magnitude v)
    → load_i64 (take (dump_i64 v).1 (dump_i64 v).0 ++ junk) ≡ v
load_i64-dump_i64 v junk h (inr top) = load-dump_i64_9 v junk top h
load_i64-dump_i64 v junk h (inl low) = elim (dec_lt (magnitude v) (2 ^ 27)) [
  | yes a ↦ load-dump_below v junk a
  | no a ↦ elim (dec_lt (magnitude v) (2 ^ 34)) [
    | yes b ↦ Wide.load-dump_5 v junk (omega arith) b
    | no b ↦ elim (dec_lt (magnitude v) (2 ^ 41)) [
      | yes c ↦ Wide.load-dump_6 v junk (omega arith) c
      | no c ↦ Wide.load-dump_7 v junk (omega arith) low
    ]
  ]
]
