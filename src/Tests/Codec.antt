-- ===== src/Tests/Codec.antt =====
-- SparseInt, of src/base/basetypes.cpp.
use s_rpc.Base.{◌≡◌, refl, inl, ◌++◌, [], ◌∷◌, arith, take}
use s_rpc.Base.Int.{pos, negsuc}
use s_rpc.SparseInt.{dump_i32, dump_i64, load_i32, load_i64}
use s_rpc.SparseInt.RoundTrip.{load_i32-dump_i32, load_i64-dump_i64}

dump_minus_1 : dump_i64 (negsuc 0) ≡ (0x7f ∷ [], 1)
unfolding dump_i64
dump_minus_1 = refl

dump_300 : dump_i32 (pos 300) ≡ (0x81 ∷ 0x2c ∷ [], 2)
unfolding dump_i32
dump_300 = refl

load_300 : load_i32 (0x81 ∷ 0x2c ∷ []) ≡ pos 300
unfolding load_i32
load_300 = refl

load_i32-dump_i32_example :
    load_i32 (take (dump_i32 (negsuc 8191)).1 (dump_i32 (negsuc 8191)).0 ++ 7 ∷ []) ≡ negsuc 8191
load_i32-dump_i32_example = load_i32-dump_i32 (negsuc 8191) (7 ∷ []) (omega arith)

load_i64-dump_i64_example :
    load_i64 (take (dump_i64 (pos 5000000000)).1 (dump_i64 (pos 5000000000)).0 ++ [])
    ≡ pos 5000000000
load_i64-dump_i64_example = load_i64-dump_i64 (pos 5000000000) [] (omega arith) (inl (omega arith))
