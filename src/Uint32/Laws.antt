-- ===== src/Uint32/Laws.antt =====
-- Words written into a slice and read back.
use ipbus.Common.{
  ℕ, ◌*◌, ◌≤◌, ◌≡◌, ◌≢◌, refl, sym, ap, ◌∙◌, List, [], ◌∷◌, ◌++◌, All, length, drop, append_assoc,
  append-nil, length-append, arith, IsU32,
}
use ipbus.Outcome.{done}
use ipbus.Protocol.{ByteOrder, big_endian, little_endian, unset}
use ipbus.Uint32.{uint32, word_bytes, put_uint32, words_loop, bytes2uint32s}

-- The bytes of a list of words.
unfoldable pub words_bytes : ByteOrder → List ℕ → List ℕ
words_bytes order [] = []
words_bytes order (v ∷ vs) = word_bytes order v ++ words_bytes order vs

module _ (order : ByteOrder) (known : order ≢ unset) where
  pub length-word_bytes : (v : ℕ) → length (word_bytes order v) ≡ 4
  length-word_bytes v = go order known
    where
      go : (o : ByteOrder) → o ≢ unset → length (word_bytes o v) ≡ 4
      go big_endian h = refl
      go little_endian h = refl
      go unset h = absurd (h refl)

  pub length-words_bytes : (vs : List ℕ) → length (words_bytes order vs) ≡ 4 * length vs
  unfolding words_bytes
  length-words_bytes [] = refl
  length-words_bytes (v ∷ vs) = omega (
    arith,
    length-append (word_bytes order v) (words_bytes order vs),
    length-word_bytes v,
    length-words_bytes vs,
  )

  pub uint32-word_bytes :
      (v : ℕ) (rest : List ℕ) → IsU32 v → uint32 order (word_bytes order v ++ rest) ≡ done v
  unfolding uint32
  uint32-word_bytes v rest h = go order known
    where
      go : (o : ByteOrder) → o ≢ unset → uint32 o (word_bytes o v ++ rest) ≡ done v
      go big_endian n = ground arith
      go little_endian n = ground arith
      go unset n = absurd (n refl)

  pub drop-word_bytes : (v : ℕ) (rest : List ℕ) → drop 4 (word_bytes order v ++ rest) ≡ rest
  drop-word_bytes v rest = go order known
    where
      go : (o : ByteOrder) → o ≢ unset → drop 4 (word_bytes o v ++ rest) ≡ rest
      go big_endian n = refl
      go little_endian n = refl
      go unset n = absurd (n refl)

  -- A write to a slice of four bytes or more replaces the first four.
  pub put_uint32_lem :
      (bytes : List ℕ) (v : ℕ)
      → 4 ≤ length bytes
      → put_uint32 order bytes v ≡ done (word_bytes order v ++ drop 4 bytes)
  unfolding put_uint32
  put_uint32_lem (a ∷ b ∷ c ∷ d ∷ rest) v h = go order known
    where
      go :
          (o : ByteOrder)
          → o ≢ unset
          → put_uint32 o (a ∷ b ∷ c ∷ d ∷ rest) v ≡ done (word_bytes o v ++ rest)
      go big_endian n = refl
      go little_endian n = refl
      go unset n = absurd (n refl)
  put_uint32_lem _ v h = absurd (omega arith)

  words_loop-words_bytes :
      (vs us : List ℕ)
      → All IsU32 vs
      → words_loop (length vs) order (words_bytes order vs) us ≡ done (us ++ vs)
  unfolding words_loop words_bytes
  words_loop-words_bytes [] us h = ap done (sym (append-nil us))
  words_loop-words_bytes (v ∷ vs) us h =
      rw (uint32-word_bytes v (words_bytes order vs) h.0, drop-word_bytes v (words_bytes order vs))
        (words_loop-words_bytes vs (us ++ (v ∷ [])) h.1 ∙ ap done (append_assoc us (v ∷ []) vs))

  -- `bytes2uint32s` reads back the words whose bytes it is given.
  pub bytes2uint32s-words_bytes :
      (vs : List ℕ) → All IsU32 vs → bytes2uint32s (words_bytes order vs) order ≡ done vs
  unfolding bytes2uint32s
  bytes2uint32s-words_bytes vs h =
      ap (λ n. words_loop n order (words_bytes order vs) []) (omega (arith, length-words_bytes vs))
      ∙ words_loop-words_bytes vs [] h
