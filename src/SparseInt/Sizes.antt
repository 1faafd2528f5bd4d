-- ===== src/SparseInt/Sizes.antt =====
-- How long an encoding is: `val_size`, the size that `dump` returns, and the first byte.
use s_rpc.Base.{◌^◌, ◌≤◌, ◌<◌, ◌≡◌, refl, arith, get_or, length, All, ◌==◌, if◌then◌else◌}
use s_rpc.Base.Int.{ℤ, pos, negsuc}
use s_rpc.SparseInt.{magnitude, buf_size, val_size, dump_i32, dump_i64, byte, pattern_of}
use s_rpc.SparseInt.Header.{
  buf_size-byte_1, buf_size-byte_2, buf_size-byte_3, buf_size-byte_4, buf_size-byte_5,
  buf_size-byte_6, buf_size-byte_7, tagged_1, tagged_2, tagged_3, tagged_4, tagged_5, tagged_6,
  tagged_7,
}

-- `val_size` is the size that `dump(i64, char*)` returns, for every value.
pub val_size-dump_i64 : (v : ℤ) → (dump_i64 v).1 ≡ val_size v
unfolding dump_i64 val_size
val_size-dump_i64 (pos n) = ground arith
val_size-dump_i64 (negsuc n) = ground arith

buf_size_top : (buf_size 0xfe ≡ 8) × (buf_size 0xff ≡ 9)
unfolding buf_size
buf_size_top = (refl, refl)

-- A reader that has the first byte of an encoding knows how many bytes `dump` said it wrote.
pub buf_size-dump_i64 :
    (v : ℤ) → magnitude v < 2 ^ 63 → buf_size (get_or (dump_i64 v).0 0 0) ≡ (dump_i64 v).1
unfolding dump_i64
buf_size-dump_i64 (pos n) h =
    let p = pattern_of 64 (pos n) in
    ground (
      arith,
      buf_size-byte_1 p,
      buf_size-byte_2 p,
      buf_size-byte_3 p,
      buf_size-byte_4 p,
      buf_size-byte_5 p,
      buf_size-byte_6 p,
      buf_size-byte_7 p,
      buf_size_top,
    )
buf_size-dump_i64 (negsuc n) h =
    let p = pattern_of 64 (negsuc n) in
    ground (
      arith,
      buf_size-byte_1 p,
      buf_size-byte_2 p,
      buf_size-byte_3 p,
      buf_size-byte_4 p,
      buf_size-byte_5 p,
      buf_size-byte_6 p,
      buf_size-byte_7 p,
      buf_size_top,
    )

-- `dump(i32, char*)` writes what `dump(i64, char*)` writes, so a v32 can be read as a v64.
pub dump_i32-eq-dump_i64 : (v : ℤ) → magnitude v < 2 ^ 31 → dump_i32 v ≡ dump_i64 v
unfolding dump_i32 dump_i64
dump_i32-eq-dump_i64 (pos n) h =
    ground (arith, tagged_5 (byte (pattern_of 64 (pos n)) 4) (omega arith))
dump_i32-eq-dump_i64 (negsuc n) h =
    ground (arith, tagged_5 (byte (pattern_of 64 (negsuc n)) 4) (omega arith))

-- `dump(i64, char*)` writes as many bytes as it returns, and one more where it returns 8; each is a
-- byte.
pub dump_i64_bytes :
    (v : ℤ)
    → magnitude v < 2 ^ 63
    → (length (dump_i64 v).0 ≡ (if val_size v == 8 then 9 else val_size v))
      × All (λ b. b < 256) (dump_i64 v).0
unfolding dump_i64 val_size
dump_i64_bytes (pos n) h =
    let p = pattern_of 64 (pos n) in
    ground (
      arith,
      tagged_1 (byte p 0) (omega arith),
      tagged_2 (byte p 1) (omega arith),
      tagged_3 (byte p 2) (omega arith),
      tagged_4 (byte p 3) (omega arith),
      tagged_5 (byte p 4) (omega arith),
      tagged_6 (byte p 5) (omega arith),
      tagged_7 (byte p 6) (omega arith),
    )
dump_i64_bytes (negsuc n) h =
    let p = pattern_of 64 (negsuc n) in
    ground (
      arith,
      tagged_1 (byte p 0) (omega arith),
      tagged_2 (byte p 1) (omega arith),
      tagged_3 (byte p 2) (omega arith),
      tagged_4 (byte p 3) (omega arith),
      tagged_5 (byte p 4) (omega arith),
      tagged_6 (byte p 5) (omega arith),
      tagged_7 (byte p 6) (omega arith),
    )

pub val_size_bounds : (v : ℤ) → (1 ≤ val_size v) × (val_size v ≤ 9)
unfolding val_size
val_size_bounds v = ground arith

-- An i32 takes five bytes at most.
pub val_size_i32 : (v : ℤ) → magnitude v < 2 ^ 31 → val_size v ≤ 5
unfolding val_size
val_size_i32 (pos n) h = ground arith
val_size_i32 (negsuc n) h = ground arith
