-- ===== src/SparseInt/Header.antt =====
-- The first byte of an encoding: masks and tags as arithmetic, each checked over all bytes.
use s_rpc.Base.{
  ℕ, ◌+◌, ◌-◌, ◌/◌, ◌%◌, ◌^◌, ◌<◌, ◌≡◌, refl, arith, ltb, if◌then◌else◌, bit_and, true,
}
use s_rpc.Base.Tables.{agree_below, agree_below→eq}
use s_rpc.SparseInt.{buf_size, byte, tagged, top_bits, is_negative, sign_fill}

-- `buf_size` counts the leading ones of the byte: it is the number of thresholds at or below it.
pub buf_size_lem :
    (b : ℕ)
    → b < 256
    → buf_size b ≡ (
        if ltb b 128
        then 1
        else if ltb b 192
        then 2
        else if ltb b 224
        then 3
        else if ltb b 240
        then 4
        else if ltb b 248
        then 5
        else if ltb b 252
        then 6
        else if ltb b 254
        then 7
        else if ltb b 255
        then 8
        else 9)
unfolding buf_size agree_below
buf_size_lem = agree_below→eq _ _ 256 refl

-- `buf[0] &= mask; buf[0] |= tag` for the header of `k` bytes.
pub tagged_1 : (b : ℕ) → b < 256 → bit_and b 0x7f ≡ b % 128
unfolding agree_below
tagged_1 = agree_below→eq _ _ 256 refl

pub tagged_2 : (b : ℕ) → b < 256 → tagged b 0x3f 0x80 ≡ b % 64 + 128
unfolding agree_below
tagged_2 = agree_below→eq _ _ 256 refl

pub tagged_3 : (b : ℕ) → b < 256 → tagged b 0x1f 0xc0 ≡ b % 32 + 192
unfolding agree_below
tagged_3 = agree_below→eq _ _ 256 refl

pub tagged_4 : (b : ℕ) → b < 256 → tagged b 0x0f 0xe0 ≡ b % 16 + 224
unfolding agree_below
tagged_4 = agree_below→eq _ _ 256 refl

pub tagged_5 : (b : ℕ) → b < 256 → tagged b 0x07 0xf0 ≡ b % 8 + 240
unfolding agree_below
tagged_5 = agree_below→eq _ _ 256 refl

pub tagged_6 : (b : ℕ) → b < 256 → tagged b 0x03 0xf8 ≡ b % 4 + 248
unfolding agree_below
tagged_6 = agree_below→eq _ _ 256 refl

pub tagged_7 : (b : ℕ) → b < 256 → tagged b 0x01 0xfc ≡ b % 2 + 252
unfolding agree_below
tagged_7 = agree_below→eq _ _ 256 refl

-- A tagged byte says how many bytes follow: here for the bytes of a pattern.
pub buf_size-byte_1 : (p : ℕ) → buf_size (bit_and (byte p 0) 0x7f) ≡ 1
unfolding buf_size agree_below
buf_size-byte_1 p =
    agree_below→eq (λ b. buf_size (bit_and b 0x7f)) (λ _. 1) 256 refl (byte p 0) (omega arith)

pub buf_size-byte_2 : (p : ℕ) → buf_size (tagged (byte p 1) 0x3f 0x80) ≡ 2
unfolding buf_size agree_below
buf_size-byte_2 p =
    agree_below→eq (λ b. buf_size (tagged b 0x3f 0x80)) (λ _. 2) 256 refl (byte p 1) (omega arith)

pub buf_size-byte_3 : (p : ℕ) → buf_size (tagged (byte p 2) 0x1f 0xc0) ≡ 3
unfolding buf_size agree_below
buf_size-byte_3 p =
    agree_below→eq (λ b. buf_size (tagged b 0x1f 0xc0)) (λ _. 3) 256 refl (byte p 2) (omega arith)

pub buf_size-byte_4 : (p : ℕ) → buf_size (tagged (byte p 3) 0x0f 0xe0) ≡ 4
unfolding buf_size agree_below
buf_size-byte_4 p =
    agree_below→eq (λ b. buf_size (tagged b 0x0f 0xe0)) (λ _. 4) 256 refl (byte p 3) (omega arith)

pub buf_size-byte_5 : (p : ℕ) → buf_size (tagged (byte p 4) 0x07 0xf0) ≡ 5
unfolding buf_size agree_below
buf_size-byte_5 p =
    agree_below→eq (λ b. buf_size (tagged b 0x07 0xf0)) (λ _. 5) 256 refl (byte p 4) (omega arith)

pub buf_size-byte_6 : (p : ℕ) → buf_size (tagged (byte p 5) 0x03 0xf8) ≡ 6
unfolding buf_size agree_below
buf_size-byte_6 p =
    agree_below→eq (λ b. buf_size (tagged b 0x03 0xf8)) (λ _. 6) 256 refl (byte p 5) (omega arith)

pub buf_size-byte_7 : (p : ℕ) → buf_size (tagged (byte p 6) 0x01 0xfc) ≡ 7
unfolding buf_size agree_below
buf_size-byte_7 p =
    agree_below→eq (λ b. buf_size (tagged b 0x01 0xfc)) (λ _. 7) 256 refl (byte p 6) (omega arith)

-- The tests of `load` on the first byte, for each size: its payload, the sign bit, the filled byte.
abbrev pub Payload : ℕ → Type 0
Payload k =
    (b : ℕ)
    → b < 256
    → (top_bits k b ≡ b % 2 ^ (8 - k))
      × ((if is_negative k (top_bits k b) then 1 else 0) ≡ b % 2 ^ (8 - k) / 2 ^ (7 - k))
      × (sign_fill k (b % 2 ^ (8 - k)) ≡ b % 2 ^ (7 - k) + (256 - 2 ^ (7 - k)))

module _ (k : ℕ) where
  masked : ℕ → ℕ
  masked b = top_bits k b

  signed_bit : ℕ → ℕ
  signed_bit b = if is_negative k (top_bits k b) then 1 else 0

  filled : ℕ → ℕ
  filled b = sign_fill k (b % 2 ^ (8 - k))

  by_tables :
      agree_below masked (λ b. b % 2 ^ (8 - k)) 256 ≡ true
      → agree_below signed_bit (λ b. b % 2 ^ (8 - k) / 2 ^ (7 - k)) 256 ≡ true
      → agree_below filled (λ b. b % 2 ^ (7 - k) + (256 - 2 ^ (7 - k))) 256 ≡ true
      → Payload k
  unfolding masked signed_bit filled
  by_tables t u v b h =
      (agree_below→eq _ _ 256 t b h, agree_below→eq _ _ 256 u b h, agree_below→eq _ _ 256 v b h)

pub first_byte_1 : Payload 1
unfolding agree_below masked signed_bit filled
first_byte_1 = by_tables 1 refl refl refl

pub first_byte_2 : Payload 2
unfolding agree_below masked signed_bit filled
first_byte_2 = by_tables 2 refl refl refl

pub first_byte_3 : Payload 3
unfolding agree_below masked signed_bit filled
first_byte_3 = by_tables 3 refl refl refl

pub first_byte_4 : Payload 4
unfolding agree_below masked signed_bit filled
first_byte_4 = by_tables 4 refl refl refl

pub first_byte_5 : Payload 5
unfolding agree_below masked signed_bit filled
first_byte_5 = by_tables 5 refl refl refl

pub first_byte_6 : Payload 6
unfolding agree_below masked signed_bit filled
first_byte_6 = by_tables 6 refl refl refl

pub first_byte_7 : Payload 7
unfolding agree_below masked signed_bit filled
first_byte_7 = by_tables 7 refl refl refl
