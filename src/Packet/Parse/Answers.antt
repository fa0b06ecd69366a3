-- ===== src/Packet/Parse/Answers.antt =====
-- What a target answers to a transaction, and `parse` of one answer.
use ipbus.Common.{
  ℕ, ◌+◌, ◌*◌, ◌<◌, ◌≡◌, ◌≢◌, ◌⊎◌, inl, inr, refl, ap, ◌∙◌, Bool, true, false, ◌||◌, List, [], ◌∷◌,
  ◌++◌, All, none, some, length, replicate, append_assoc, length-append, take-append, drop-append,
  get_elem?, arith, Bool-cases, ◌==◌, ==_iff, ==_ne, ltb, if◌then◌else◌, IsU32,
}
use ipbus.Outcome.{Outcome, done}
use ipbus.Protocol.{ByteOrder, unset, success, rmwbits, rmwsum, ipbus_error}
use ipbus.TransactionHeader.{TransactionHeader, encode}
use ipbus.TransactionHeader.RoundTrip
use ipbus.TransactionHeader.RoundTrip.{new_header-encode, drop-encode}
use ipbus.Uint32.Laws.{words_bytes, length-words_bytes, bytes2uint32s-words_bytes}
use ipbus.Packet.{Transaction, Response}
use ipbus.Packet.Add.{is_read, is_write}
use ipbus.Packet.Add.Bounds.{IsRequest, reply_words}
use ipbus.Packet.Parse.{split, take_data, no_data, read_success, read_response, parse_reply}

-- A target's answer to a transaction: its info code and the words that it returns.
pub record Answer : Type 0 where
  pub code : ℕ
  pub values : List ℕ

-- The header of the answer, and the answer on the wire.
abbrev pub answer_header : Transaction → Answer → TransactionHeader
answer_header t a = record (t.outheader) { code = a.code }

abbrev pub answer_bytes : ByteOrder → Transaction → Answer → List ℕ
answer_bytes order t a =
    (encode (answer_header t a) (replicate 4 0) order).0 ++ words_bytes order a.values

-- A success returns the words that the transaction asks for, an error none.
pub record IsAnswer (t : Transaction) (a : Answer) : Type 0 where
  pub request : IsRequest t
  pub version_fits : t.outheader.version < 16
  pub id_fits : t.outheader.id < 4096
  pub code_fits : a.code < 16
  pub values_fit : All IsU32 a.values
  pub values_are :
      ((a.code ≡ success) × (length a.values + 1 ≡ reply_words t))
      ⊎ ((a.code ≢ success) × (a.values ≡ []))

abbrev pub data_response : ByteOrder → Bool → List ℕ → Response
data_response order true vs = record {
  err = none;
  code = success;
  data_u32 = none;
  data_b = some (words_bytes order vs);
}
data_response order false vs = record {
  err = none;
  code = success;
  data_u32 = some vs;
  data_b = none;
}

abbrev pub error_response : ℕ → Response
error_response code = record {
  err = some (ipbus_error code);
  code = code;
  data_u32 = none;
  data_b = none;
}

-- The response that the caller should get.
abbrev pub response_to : ByteOrder → Transaction → Answer → Response
response_to order t a =
    if a.code == success then data_response order t.byteslice a.values else error_response a.code

split-append :
    (n : ℕ) (front rest : List ℕ) → length front ≡ n → split n (front ++ rest) ≡ done (front, rest)
unfolding split
split-append n front rest h = rw (take-append front rest h, drop-append front rest h, fits)
  where
    fits : ltb (length (front ++ rest)) n ≡ false
    fits = ground (arith, length-append front rest)

module _ (order : ByteOrder) (known : order ≢ unset) where
  take_data-values :
      (b : Bool) (n : ℕ) (vs rest : List ℕ)
      → All IsU32 vs
      → 4 * length vs ≡ n
      → take_data order b success n (words_bytes order vs ++ rest)
        ≡ done (data_response order b vs, rest)
  unfolding take_data
  take_data-values true n vs rest h e =
      rw (split-append n (words_bytes order vs) rest (length-words_bytes order known vs ∙ e))
  take_data-values false n vs rest h e = rw (
    split-append n (words_bytes order vs) rest (length-words_bytes order known vs ∙ e),
    bytes2uint32s-words_bytes order known vs h,
  )

  read_success-values :
      (t : Transaction) (code : ℕ) (vs rest : List ℕ)
      → code ≡ success
      → IsRequest t
      → All IsU32 vs
      → length vs + 1 ≡ reply_words t
      → read_success order t (record (t.outheader) { code = code }) (words_bytes order vs ++ rest)
        ≡ done (data_response order t.byteslice vs, rest)
  unfolding read_success reply_words no_data
  read_success-values t code vs rest ok q h e = rw ok (elim (Bool-cases (is_read t.outheader.tid)) [
    | inl r ↦ rw r (take_data-values t.byteslice (t.outheader.words * 4) vs rest h (by_read r))
    | inr nr ↦ elim (Bool-cases (is_write t.outheader.tid)) [
      | inl w ↦ rw (nr, w) (no_values vs (by_write nr w) t.byteslice)
      | inr nw ↦ rw (nr, nw, is_rmw nr nw) (take_data-values t.byteslice 4 vs rest h (by_rmw nr nw))
    ]
  ])
    where
      tid : ℕ
      tid = t.outheader.tid

      by_read : is_read tid ≡ true → 4 * length vs ≡ t.outheader.words * 4
      by_read r = ground arith

      by_write : is_read tid ≡ false → is_write tid ≡ true → length vs ≡ 0
      by_write nr w = ground arith

      by_rmw : is_read tid ≡ false → is_write tid ≡ false → 4 * length vs ≡ 4
      by_rmw nr nw = ground arith

      is_rmw : is_read tid ≡ false → is_write tid ≡ false → (tid == rmwbits || tid == rmwsum) ≡ true
      is_rmw nr nw = ground arith

      no_values :
          (us : List ℕ)
          → length us ≡ 0
          → (b : Bool)
          → ◌≡◌ {A = Outcome (Response × List ℕ)}
              (done (no_data b success, words_bytes order us ++ rest))
              (done (data_response order b us, rest))
      no_values [] z true = unfold words_bytes in refl
      no_values [] z false = unfold words_bytes in refl
      no_values (u ∷ us) z b = absurd (omega arith)

  -- One answer at the front of the bytes.
  pub parse_reply-answer :
      (ts : List Transaction) (t : Transaction) (a : Answer) (rest : List ℕ)
      → get_elem? ts t.outheader.id ≡ some t
      → IsAnswer t a
      → parse_reply order ts (answer_bytes order t a ++ rest) ≡ done (response_to order t a, rest)
  unfolding parse_reply
  parse_reply-answer ts t a rest found v =
      rw
        (
          append_assoc head (words_bytes order a.values) rest,
          new_header-encode (answer_header t a) (words_bytes order a.values ++ rest) order valid
              known v.id_fits,
          found,
        )
        (body v.values_are)
    where
      head : List ℕ
      head = (encode (answer_header t a) (replicate 4 0) order).0

      valid : RoundTrip.IsValid (answer_header t a)
      valid =
          omega (
            arith, v.request.tid_known, v.request.words_fit, v.id_fits, v.code_fits, v.version_fits,
          )

      body :
          ((a.code ≡ success) × (length a.values + 1 ≡ reply_words t))
            ⊎ ((a.code ≢ success) × (a.values ≡ []))
          → read_response order t
              (answer_header t a)
              none
              (head ++ (words_bytes order a.values ++ rest))
            ≡ done (response_to order t a, rest)
      body (inl (ok, size)) =
          rw
            (
              (==_iff a.code success).1 ok,
              drop-encode (answer_header t a) (words_bytes order a.values ++ rest) order,
            )
            (read_success-values t a.code a.values rest ok v.request v.values_fit size)
      body (inr (bad, empty)) =
          rw
            (
              ==_ne a.code success bad,
              drop-encode (answer_header t a) (words_bytes order a.values ++ rest) order,
            )
            (ap (λ vs. done (error_response a.code, words_bytes order vs ++ rest)) empty
              ∙ unfold words_bytes in refl)

  pub length-answer_bytes :
      (t : Transaction) (a : Answer) → length (answer_bytes order t a) ≡ 4 + 4 * length a.values
  length-answer_bytes t a = omega (
    arith,
    length-append (encode (answer_header t a) (replicate 4 0) order).0 (words_bytes order a.values),
    RoundTrip.length-encode (answer_header t a) (replicate 4 0) order,
    length-words_bytes order known a.values,
  )
