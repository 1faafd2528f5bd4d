-- ===== src/SparseInt/Defect.antt =====
-- The eight-byte branch of `dump(i64, char*)`: nine bytes are written and 8 is returned, so the
-- lowest byte of the value is not sent, and `load_i64` takes the byte that happens to follow.
use s_rpc.Base.{ℕ, ◌+◌, ◌*◌, ◌/◌, ◌^◌, ◌≤◌, ◌<◌, ◌≡◌, ◌++◌, List, ◌∷◌, arith, take}
use s_rpc.Base.Int.{ℤ, pos, negsuc}
use s_rpc.SparseInt.{magnitude, dump_i64, load_i64, extend, fill, signed, pattern_of, tail_bytes}

dump_i64_8 :
    (v : ℤ)
    → 2 ^ 48 ≤ magnitude v
    → magnitude v < 2 ^ 55
    → dump_i64 v ≡ (0xfe ∷ tail_bytes (pattern_of 64 v) 8, 8)
unfolding dump_i64
dump_i64_8 (pos n) lo hi = ground arith
dump_i64_8 (negsuc n) lo hi = ground arith

-- For a value of 2 ^ 48 to 2 ^ 55 - 1 in magnitude the byte `j` that follows the eight sent bytes
-- takes the place of the lowest byte of the value.
pub load-dump_eight :
    (v : ℤ) (j : ℕ) (junk : List ℕ)
    → 2 ^ 48 ≤ magnitude v
    → magnitude v < 2 ^ 55
    → j < 256
    → load_i64 (take (dump_i64 v).1 (dump_i64 v).0 ++ j ∷ junk)
      ≡ signed 64 (pattern_of 64 v / 256 * 256 + j)
unfolding load_i64 extend fill
load-dump_eight (pos n) j junk lo hi hj = rw (dump_i64_8 (pos n) lo hi) (ground arith)
load-dump_eight (negsuc n) j junk lo hi hj = rw (dump_i64_8 (negsuc n) lo hi) (ground arith)
