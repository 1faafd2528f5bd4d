-- ===== src/SparseInt.antt =====
-- src/base/basetypes.hpp and basetypes.cpp, class SparseInt: integers in 1 to 9 bytes.
-- A value is an integer; `(char *) &val` is its two's complement pattern, lowest byte first, as on
-- the little-endian machines that the program runs on. A `char` is the number of its eight bits.
-- What `dump` leaves in `buf` is a list, from `buf[0]` on, with the size that it returns. A buffer
-- that `load` reads is a list too; a position past its end, which C++ leaves undefined, reads as 0.
pub mod Header
pub mod Sizes
pub mod RoundTrip
pub mod Defect
use s_rpc.Base.{
  ℕ, zero, suc, ◌+◌, ◌-◌, ◌*◌, ◌/◌, ◌%◌, ◌^◌, Bool, ◌&&◌, List, [], ◌∷◌, bit_and, bit_or, ltb, leb,
  ◌==◌, if◌then◌else◌, get_or, set,
}
use s_rpc.Base.Int.{ℤ, pos, negsuc, leb_ℤ}

-- `buf_size`: how many bytes an encoding has, by its first byte.
unfoldable pub buf_size : ℕ → ℕ
buf_size byte0 =
    if bit_and byte0 0x80 == 0
    then 1
    else if bit_and byte0 0xc0 == 0x80
    then 2
    else if bit_and byte0 0xe0 == 0xc0
    then 3
    else if bit_and byte0 0xf0 == 0xe0
    then 4
    else if bit_and byte0 0xf8 == 0xf0
    then 5
    else if bit_and byte0 0xfc == 0xf8
    then 6
    else if bit_and byte0 0xfe == 0xfc
    then 7
    else if bit_and byte0 0xff == 0xfe
    then 8
    else 9

-- lo <= val && val <= hi
abbrev pub within : ℤ → ℤ → ℤ → Bool
within lo hi val = leb_ℤ lo val && leb_ℤ val hi

-- `val_size`: the least number of bytes that the format needs for a value.
unfoldable pub val_size : ℤ → ℕ
val_size val =
    if within (negsuc 63) (pos 63) val
    then 1
    else if within (negsuc 8191) (pos 8191) val
    then 2
    else if within (negsuc 1048575) (pos 1048575) val
    then 3
    else if within (negsuc 134217727) (pos 134217727) val
    then 4
    else if within (negsuc 17179869183) (pos 17179869183) val
    then 5
    else if within (negsuc 2199023255551) (pos 2199023255551) val
    then 6
    else if within (negsuc 281474976710655) (pos 281474976710655) val
    then 7
    else if within (negsuc 36028797018963967) (pos 36028797018963967) val
    then 8
    else 9

-- `n` for n and for -(n + 1): the number whose bits the format spends its payload on.
abbrev pub magnitude : ℤ → ℕ
magnitude (pos n) = n
magnitude (negsuc n) = n

-- The bit pattern of a value in `w` bits.
abbrev pub pattern_of : ℕ → ℤ → ℕ
pattern_of w (pos n) = n % 2 ^ w
pattern_of w (negsuc n) = 2 ^ w - 1 - n % 2 ^ w

-- The value of a pattern below 2 ^ w.
abbrev pub signed : ℕ → ℕ → ℤ
signed w p = if ltb p (2 ^ (w - 1)) then pos p else negsuc (2 ^ w - 1 - p)

-- `pv[k]`
abbrev pub byte : ℕ → ℕ → ℕ
byte p k = p / 256 ^ k % 256

-- `buf[0] &= keep; buf[0] |= tag`
abbrev pub tagged : ℕ → ℕ → ℕ → ℕ
tagged b keep tag = bit_or (bit_and b keep) tag

-- `buf[1] = pv[k - 1]; ...; buf[k] = pv[0]`
abbrev pub tail_bytes : ℕ → ℕ → List ℕ
tail_bytes p zero = []
tail_bytes p (suc k) = byte p k ∷ tail_bytes p k

-- `dump(i32 val, char* buf)`
unfoldable pub dump_i32 : ℤ → List ℕ × ℕ
dump_i32 val =
    let p = pattern_of 32 val in
    if within (negsuc 63) (pos 63) val
    then (bit_and (byte p 0) 0x7f ∷ tail_bytes p 0, 1)
    else if within (negsuc 8191) (pos 8191) val
    then (tagged (byte p 1) 0x3f 0x80 ∷ tail_bytes p 1, 2)
    else if within (negsuc 1048575) (pos 1048575) val
    then (tagged (byte p 2) 0x1f 0xc0 ∷ tail_bytes p 2, 3)
    else if within (negsuc 134217727) (pos 134217727) val
    then (tagged (byte p 3) 0x0f 0xe0 ∷ tail_bytes p 3, 4)
    else ((if leb_ℤ (pos 0) val then 0xf0 else 0xf7) ∷ tail_bytes p 4, 5)

-- `dump(i64 val, char* buf)`. In the eighth branch nine bytes are written and 8 is returned.
unfoldable pub dump_i64 : ℤ → List ℕ × ℕ
dump_i64 val =
    let p = pattern_of 64 val in
    if within (negsuc 63) (pos 63) val
    then (bit_and (byte p 0) 0x7f ∷ tail_bytes p 0, 1)
    else if within (negsuc 8191) (pos 8191) val
    then (tagged (byte p 1) 0x3f 0x80 ∷ tail_bytes p 1, 2)
    else if within (negsuc 1048575) (pos 1048575) val
    then (tagged (byte p 2) 0x1f 0xc0 ∷ tail_bytes p 2, 3)
    else if within (negsuc 134217727) (pos 134217727) val
    then (tagged (byte p 3) 0x0f 0xe0 ∷ tail_bytes p 3, 4)
    else if within (negsuc 17179869183) (pos 17179869183) val
    then (tagged (byte p 4) 0x07 0xf0 ∷ tail_bytes p 4, 5)
    else if within (negsuc 2199023255551) (pos 2199023255551) val
    then (tagged (byte p 5) 0x03 0xf8 ∷ tail_bytes p 5, 6)
    else if within (negsuc 281474976710655) (pos 281474976710655) val
    then (tagged (byte p 6) 0x01 0xfc ∷ tail_bytes p 6, 7)
    else if within (negsuc 36028797018963967) (pos 36028797018963967) val
    then (0xfe ∷ tail_bytes p 8, 8)
    else (0xff ∷ tail_bytes p 8, 9)

-- `for (int i = 0; i < n; i++) pv[i] = buf[top - i];`, with `i` rounds done.
unfoldable pub fill : ℕ → ℕ → List ℕ → ℕ → List ℕ → List ℕ
fill zero top buf i pv = pv
fill (suc n) top buf i pv = fill n top buf (suc i) (set pv i (get_or buf (top - i) 0))

-- `for (int i = from; i < n; i++) pv[i] = 0xFF;`, with `k` rounds left.
unfoldable pub ones : ℕ → ℕ → List ℕ → List ℕ
ones zero i pv = pv
ones (suc k) i pv = ones k (suc i) (set pv i 0xff)

-- `pv[bsize - 1] &= 0xFF >> bsize`, and the test and the `|=` on that byte.
abbrev pub top_bits : ℕ → ℕ → ℕ
top_bits bsize b = bit_and b (0xff / 2 ^ bsize)

abbrev pub is_negative : ℕ → ℕ → Bool
is_negative bsize b = bit_and (b / 2 ^ (7 - bsize)) 1 == 1

abbrev pub sign_fill : ℕ → ℕ → ℕ
sign_fill bsize b = bit_or b (0xff * 2 ^ (7 - bsize) % 256)

-- What follows the copy of the bytes, in an integer of `w` bytes.
unfoldable pub extend : ℕ → ℕ → List ℕ → List ℕ
unfolding ones
extend w bsize pv =
    let b = top_bits bsize (get_or pv (bsize - 1) 0) in
    if is_negative bsize b
    then ones (w - bsize) bsize (set pv (bsize - 1) (sign_fill bsize b))
    else set pv (bsize - 1) b

-- The number that the bytes at `pv` make up.
abbrev pub of_bytes : List ℕ → ℕ
of_bytes [] = 0
of_bytes (b ∷ bs) = b + 256 * of_bytes bs

abbrev zeros : ℕ → List ℕ
zeros zero = []
zeros (suc n) = 0 ∷ zeros n

-- `load_i32(const char* buf)`
unfoldable pub load_i32 : List ℕ → ℤ
unfolding buf_size fill extend
load_i32 buf =
    let bsize = buf_size (get_or buf 0 0) in
    signed 32 (
      of_bytes (
        if ltb bsize 5
        then extend 4 bsize (fill bsize (bsize - 1) buf 0 (zeros 4))
        else fill 4 4 buf 0 (zeros 4)))

-- `load_i64(const char* buf)`
unfoldable pub load_i64 : List ℕ → ℤ
unfolding buf_size fill extend
load_i64 buf =
    let bsize = buf_size (get_or buf 0 0) in
    signed 64 (
      of_bytes (
        if ltb bsize 8
        then extend 8 bsize (fill bsize (bsize - 1) buf 0 (zeros 8))
        else fill 8 8 buf 0 (zeros 8)))
