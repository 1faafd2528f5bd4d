-- ===== src/Marshal/Wire.antt =====
-- The stream operators of src/misc/marshal.hpp (and of src/base/basetypes.hpp for v32 and v64): what
-- each type writes to a Marshal, and how it is read back. An operator `<<` is `put_…` and `>>` is
-- `get_…`. The state is the memory with the Marshal; a failed `verify` is a fault.
pub mod Scalars
pub mod Sparse
pub mod Strings
use s_rpc.Base.{
  ℕ, zero, suc, ◌*◌, ◌/◌, ◌%◌, List, [], ◌∷◌, ◌++◌, ◌==◌, leb, ltb, if◌then◌else◌, length, take,
  get_or, Bool,
}
use s_rpc.Base.Int.{ℤ, pos, negsuc, leb_ℤ, pos_part}
use s_rpc.Base.Outcome.{Outcome, done, fault, ◌>>=◌, ◌>>◌, verify, in_bounds}
use s_rpc.SparseInt.{
  buf_size, dump_i32, dump_i64, load_i32, load_i64, pattern_of, signed, byte, of_bytes,
}
use s_rpc.Marshal.Memory.{Memory}
use s_rpc.Marshal.Buffer.{Marshal, write, read, peek}

abbrev pub State : Type 0
State = Memory × Marshal

-- The bytes of an object of `k` bytes in memory, from the lowest byte of its pattern on.
abbrev pub bytes_of : ℕ → ℕ → List ℕ
bytes_of zero p = []
bytes_of (suc k) p = p % 256 ∷ bytes_of k (p / 256)

-- `verify(m.write(&v, sizeof(v)) == sizeof(v))`: `write` returns the size that it is given.
abbrev pub put_bytes : List ℕ → State → State
put_bytes p s = write s.0 s.1 p

-- `verify(m.read(&v, n) == n)`
unfoldable pub get_bytes : ℕ → State → Outcome (List ℕ × State)
get_bytes n s = do let r = read s.0 s.1 n; verify (length r.0 == n); done (r.0, (s.0, r.1))

-- i8, i16, i32 and i64 are `put_int k` for k = 1, 2, 4 and 8.
unfoldable pub put_int : ℕ → ℤ → State → State
put_int k v = put_bytes (bytes_of k (pattern_of (8 * k) v))

unfoldable pub get_int : ℕ → State → Outcome (ℤ × State)
unfolding get_bytes
get_int k s = do (p, t) ← get_bytes k s; done (signed (8 * k) (of_bytes p), t)

-- uint8_t, uint16_t, uint32_t and uint64_t are `put_uint k` for k = 1, 2, 4 and 8.
unfoldable pub put_uint : ℕ → ℕ → State → State
put_uint k v = put_bytes (bytes_of k v)

unfoldable pub get_uint : ℕ → State → Outcome (ℕ × State)
unfolding get_bytes
get_uint k s = do (p, t) ← get_bytes k s; done (of_bytes p, t)

-- `char buf[5]; size_t bsize = SparseInt::dump(v.get(), buf); m.write(buf, bsize)`, and buf[9].
unfoldable pub put_v32 : ℤ → State → State
put_v32 v = put_bytes (take (dump_i32 v).1 (dump_i32 v).0)

unfoldable pub put_v64 : ℤ → State → State
put_v64 v = put_bytes (take (dump_i64 v).1 (dump_i64 v).0)

-- The local array `buf` has `cap` bytes; `junk` is what stands in it behind the bytes read.
unfoldable pub get_sparse : ℕ → (List ℕ → ℤ) → List ℕ → State → Outcome (ℤ × State)
unfolding get_bytes
get_sparse cap load junk s = do
  let byte0 = peek s.0 s.1 1
  verify (length byte0 == 1)
  let bsize = buf_size (get_or byte0 0 0)
  in_bounds (leb bsize cap)
  (buf, t) ← get_bytes bsize s
  done (load (buf ++ junk), t)

-- `operator>>(Marshal&, v32&)`
unfoldable pub get_v32 : List ℕ → State → Outcome (ℤ × State)
unfolding get_sparse
get_v32 junk s = get_sparse 5 load_i32 junk s

-- `operator>>(Marshal&, v64&)`
unfoldable pub get_v64 : List ℕ → State → Outcome (ℤ × State)
unfolding get_sparse
get_v64 junk s = get_sparse 9 load_i64 junk s

-- `operator<<(Marshal&, const std::string&)`: the length as a v64, then the characters.
unfoldable pub put_string : List ℕ → State → State
put_string v s =
    let t = put_v64 (pos (length v)) s in elim (length v) [ zero ↦ t | suc n ↦ put_bytes v t ]

-- `operator>>(Marshal&, std::string&)`: the length as an i64, then the characters. `resize` of a
-- length that is negative, or of one that `resizes` says a string cannot have, throws; no handler is
-- there, so it ends the process as `verify` does.
unfoldable pub get_string : (ℕ → Bool) → State → Outcome (List ℕ × State)
get_string resizes s = do
  (v_len, t) ← get_int 8 s
  verify (leb_ℤ (pos 0) v_len)
  let n = pos_part v_len
  verify (resizes n)
  if ltb 0 n then get_bytes n t else done ([], t)
