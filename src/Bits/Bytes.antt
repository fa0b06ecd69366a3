-- ===== src/Bits/Bytes.antt =====
-- The masks of the packet headers on bytes and 16-bit words, as arithmetic.
use ipbus.Common.{ℕ, ◌+◌, ◌*◌, ◌/◌, ◌%◌, ◌^◌, ◌<◌, ◌≡◌, ◌∙◌, arith, bit_and, bit_or}
use ipbus.Bits.{bit_or_comm}
use ipbus.Bits.Word.{bit_and_mask, bit_and_high, bit_or_fields}

pub low_nibble : (b : ℕ) → bit_and b 0x0f ≡ b % 16
low_nibble b = bit_and_mask 4 b

pub high_nibble : (b : ℕ) → bit_and b 0xf0 ≡ b / 16 % 16 * 16
high_nibble b = omega (arith, bit_and_high 4 b 15, bit_and_mask 4 (b / 16))

pub low_byte : (n : ℕ) → bit_and n 0xff ≡ n % 256
low_byte n = bit_and_mask 8 n

pub high_byte : (n : ℕ) → bit_and n 0xff00 ≡ n / 256 % 256 * 256
high_byte n = omega (arith, bit_and_high 8 n 255, bit_and_mask 8 (n / 256))

pub third_nibble : (n : ℕ) → bit_and n 0x0f00 ≡ n / 256 % 16 * 256
third_nibble n = omega (arith, bit_and_high 8 n 15, bit_and_mask 4 (n / 256))

pub join_bytes : (hi lo : ℕ) → lo < 256 → bit_or (hi * 2 ^ 8) lo ≡ hi * 256 + lo
join_bytes = bit_or_fields 8

pub join_nibbles : (hi lo : ℕ) → lo < 16 → bit_or (hi * 2 ^ 4) lo ≡ hi * 16 + lo
join_nibbles = bit_or_fields 4

pub set_high_nibble : (lo : ℕ) → lo < 16 → bit_or 0xf0 lo ≡ 240 + lo
set_high_nibble lo h = bit_or_fields 4 15 lo h

-- The high part given second.
pub join_high : (hi lo : ℕ) → lo < 256 → bit_or lo (hi * 2 ^ 8) ≡ hi * 256 + lo
join_high hi lo h = bit_or_comm lo (hi * 2 ^ 8) ∙ join_bytes hi lo h
