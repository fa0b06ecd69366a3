-- ===== src/Uint32.antt =====
-- 32-bit words in a byte slice: `Uint32` and `PutUint32` of the two byte orders, and the
-- conversions of ipbus.go. A call through the nil order panics, as does one on a short slice.
pub mod Laws
use ipbus.Common.{
  ℕ, zero, suc, ◌+◌, ◌*◌, ◌/◌, ◌%◌, ◌^◌, List, [], ◌∷◌, ◌++◌, length, take, drop, u8, ◌>>>◌,
}
use ipbus.Outcome.{Outcome, done, panic, stuck, ◌>>=◌}
use ipbus.Protocol.{ByteOrder, big_endian, little_endian, unset}

-- The number whose bytes are, from the highest, `a b c d`.
abbrev pub word_of : ℕ → ℕ → ℕ → ℕ → ℕ
word_of a b c d = a * 2 ^ 24 + b * 2 ^ 16 + c * 2 ^ 8 + d

-- `order.Uint32(bs)`, which reads the first four bytes.
unfoldable pub uint32 : ByteOrder → List ℕ → Outcome ℕ
uint32 big_endian (a ∷ b ∷ c ∷ d ∷ rest) = done (word_of a b c d)
uint32 little_endian (a ∷ b ∷ c ∷ d ∷ rest) = done (word_of d c b a)
uint32 _ _ = panic

-- The four bytes of a word in a byte order.
abbrev pub word_bytes : ByteOrder → ℕ → List ℕ
word_bytes big_endian v = u8 (v >>> 24) ∷ u8 (v >>> 16) ∷ u8 (v >>> 8) ∷ u8 v ∷ []
word_bytes little_endian v = u8 v ∷ u8 (v >>> 8) ∷ u8 (v >>> 16) ∷ u8 (v >>> 24) ∷ []
word_bytes unset v = []

-- `order.PutUint32(bs, v)`, which overwrites the first four bytes.
unfoldable pub put_uint32 : ByteOrder → List ℕ → ℕ → Outcome (List ℕ)
put_uint32 unset bytes v = panic
put_uint32 order (a ∷ b ∷ c ∷ d ∷ rest) v = done (word_bytes order v ++ rest)
put_uint32 order _ v = panic

-- `byte2uint32`
unfoldable pub byte2uint32 : List ℕ → ByteOrder → Outcome ℕ
unfolding uint32
byte2uint32 bytes order = uint32 order bytes

-- The loop of `bytes2uint32s` with the rounds left; `bs = bs[4:]` after each word.
unfoldable pub words_loop : ℕ → ByteOrder → List ℕ → List ℕ → Outcome (List ℕ)
words_loop zero order bytes us = done us
words_loop (suc n) order bytes us = do
  u ← uint32 order bytes
  words_loop n order (drop 4 bytes) (us ++ (u ∷ []))

unfoldable pub bytes2uint32s : List ℕ → ByteOrder → Outcome (List ℕ)
unfolding words_loop uint32
bytes2uint32s bytes order = words_loop (length bytes / 4) order bytes []
