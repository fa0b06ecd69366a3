-- ===== src/Packet/Add/Wire.antt =====
-- The bytes that `add` appends to the request.
use ipbus.Common.{
  ℕ, ◌+◌, ◌*◌, ◌≡◌, ◌≢◌, refl, sym, ap, ◌∙◌, List, [], ◌∷◌, ◌++◌, length, drop, replicate,
  append_assoc, length-append, length-replicate, length-drop, take-append, drop-append, arith,
}
use ipbus.Outcome.{done}
use ipbus.Protocol.{ByteOrder, unset}
use ipbus.TransactionHeader.{encode}
use ipbus.TransactionHeader.RoundTrip.{length-encode}
use ipbus.Uint32.{word_bytes}
use ipbus.Uint32.Laws.{words_bytes, length-words_bytes, length-word_bytes, put_uint32_lem}
use ipbus.Packet.{Packet, Transaction}
use ipbus.Packet.Add.{put_input, transaction_data, append_transaction}

-- A transaction on the wire: its header, its address and its input, word by word.
abbrev pub transaction_bytes : ByteOrder → Transaction → List ℕ
transaction_bytes order t =
    (encode t.outheader (replicate 4 0) order).0 ++ words_bytes order (t.addr ∷ t.input)

abbrev pub wire : ByteOrder → List Transaction → List ℕ
wire order [] = []
wire order (t ∷ ts) = transaction_bytes order t ++ wire order ts

module _ (order : ByteOrder) (known : order ≢ unset) where
  put_input_lem :
      (input front back : List ℕ) (i : ℕ)
      → length front ≡ (i + 1) * 4
      → length back ≡ 4 * length input
      → put_input order (front ++ back) i input ≡ done (front ++ words_bytes order input)
  unfolding put_input words_bytes
  put_input_lem [] front [] i f b = refl
  put_input_lem [] front (x ∷ back) i f b = absurd (omega arith)
  put_input_lem (v ∷ vs) front back i f b =
      rw
        (
          drop-append front back f,
          take-append front back f,
          put_uint32_lem order known back v (omega arith),
        )
        (ap (λ t. put_input order t (i + 1) vs)
            (sym (append_assoc front (word_bytes order v) (drop 4 back)))
          ∙ put_input_lem vs (front ++ word_bytes order v) (drop 4 back) (i + 1)
              (omega
                (arith, length-append front (word_bytes order v), length-word_bytes order known v))
              (omega (arith, length-drop 4 back))
          ∙ ap done (append_assoc front (word_bytes order v) (words_bytes order vs)))

  transaction_data_lem :
      (t : Transaction) → transaction_data order t ≡ done (words_bytes order (t.addr ∷ t.input))
  unfolding transaction_data words_bytes
  transaction_data_lem t = rw (put_uint32_lem order known zeros t.addr (omega (arith, size))) (
      put_input_lem t.input (word_bytes order t.addr) (drop 4 zeros) 0
        (omega (arith, length-word_bytes order known t.addr))
        (omega (arith, size, length-drop 4 zeros)))
    where
      zeros : List ℕ
      zeros = replicate (4 * length t.input + 4) 0

      size : length zeros ≡ 4 * length t.input + 4
      size = length-replicate (4 * length t.input + 4) 0

  pub length-transaction_bytes :
      (t : Transaction) → length (transaction_bytes order t) ≡ 4 * (length t.input + 2)
  length-transaction_bytes t = omega (
    arith,
    length-append (encode t.outheader (replicate 4 0) order).0
        (words_bytes order (t.addr ∷ t.input)),
    length-encode t.outheader (replicate 4 0) order,
    length-words_bytes order known (t.addr ∷ t.input),
  )

pub wire-append :
    (order : ByteOrder) (ts us : List Transaction)
    → wire order (ts ++ us) ≡ wire order ts ++ wire order us
wire-append order [] us = refl
wire-append order (t ∷ ts) us =
    ap (λ w. transaction_bytes order t ++ w) (wire-append order ts us)
    ∙ sym (append_assoc (transaction_bytes order t) (wire order ts) (wire order us))

-- What `append_transaction` does where the packet has a byte order.
pub append_transaction_lem :
    (p : Packet) (t : Transaction)
    → p.header.order ≢ unset
    → append_transaction p t
      ≡ done (record p {
        request_bytes = p.request_bytes ++ transaction_bytes p.header.order t;
        transactions = p.transactions ++ (t ∷ []);
      })
unfolding append_transaction
append_transaction_lem p t known = rw (
  transaction_data_lem p.header.order known t,
  append_assoc p.request_bytes (encode t.outheader (replicate 4 0) p.header.order).0
      (words_bytes p.header.order (t.addr ∷ t.input)),
)
