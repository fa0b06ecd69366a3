-- ===== src/Packet/Add/Bounds.antt =====
-- When `add` accepts a transaction, and what it does to the packet then.
use ipbus.Common.{
  u16, ap, ℕ, ◌+◌, ◌-◌, ◌*◌, ◌≤◌, ◌<◌, ◌≡◌, ◌≢◌, refl, sym, ap₂, ◌∙◌, List, [], ◌∷◌, ◌++◌, true,
  ◌⊎◌, inl, inr, length, none, some, length-append, arith, ◌==◌, if◌then◌else◌, IsByte,
}
use ipbus.Outcome.{done}
use ipbus.Protocol.{unset, Error, rmwbits}
use ipbus.Packet.{Packet, Transaction, space, packet_words, add64}
use ipbus.Packet.Add.{Room, refuse, grow, is_read, is_write, reserve, numbered, add_to, add}
use ipbus.Packet.Add.Wire.{transaction_bytes, length-transaction_bytes, append_transaction_lem}

-- The words of input that a transaction of each type has, and the words of its reply.
unfoldable pub input_words : Transaction → ℕ
input_words t =
    if is_read t.outheader.tid
    then 0
    else if is_write t.outheader.tid
    then t.outheader.words
    else if t.outheader.tid == rmwbits
    then 2
    else 1

unfoldable pub reply_words : Transaction → ℕ
reply_words t =
    if is_read t.outheader.tid
    then t.outheader.words + 1
    else if is_write t.outheader.tid
    then 1
    else 2

-- One of the six transaction types, with a count of words that is a uint8.
pub record IsRequest (t : Transaction) : Type 0 where
  pub tid_known : t.outheader.tid < 6
  pub words_fit : IsByte t.outheader.words

-- The words of the reply to some transactions, behind its packet header.
abbrev pub replies_words : List Transaction → ℕ
replies_words [] = 0
replies_words (t ∷ ts) = reply_words t + replies_words ts

-- The books of a request packet agree with its contents and with its capacity: its words and those of
-- the reply to its transactions are counted, each with the packet header.
pub record IsValid (p : Packet) : Type 0 where
  pub has_order : p.header.order ≢ unset
  pub request_fits : p.reqlen ≤ p.reqcap
  pub reply_fits : p.resplen ≤ p.respcap
  pub request_capacity : p.reqcap ≡ packet_words
  pub reply_capacity : p.respcap ≡ packet_words
  pub bytes_counted : length p.request_bytes ≡ 4 * p.reqlen
  pub reply_counted : p.resplen ≡ 1 + replies_words p.transactions
  pub count_bounded : 2 * length p.transactions + 1 ≤ p.reqlen

-- The transaction has the input of its type, and it and its reply fit the space that is left.
pub record Accepts (p : Packet) (t : Transaction) : Type 0 where
  pub input_is : length t.input ≡ input_words t
  pub request_room : length t.input + 2 ≤ p.reqcap - p.reqlen
  pub reply_room : reply_words t ≤ p.respcap - p.resplen

-- The transaction with its place in the packet as its id.
abbrev pub placed : Packet → Transaction → Transaction
placed p t = record t { outheader = record (t.outheader) { id = length p.transactions } }

-- The packet with the transaction behind the others.
abbrev pub extended : Packet → Transaction → Packet
extended p t = record p {
  reqlen = p.reqlen + (length t.input + 2);
  resplen = p.resplen + reply_words t;
  transactions = p.transactions ++ (placed p t ∷ []);
  request_bytes = p.request_bytes ++ transaction_bytes p.header.order (placed p t);
}

-- A packet has fewer than 2^16 transactions.
numbered_lem : (p : Packet) (t : Transaction) → IsValid p → numbered p t ≡ placed p t
numbered_lem p t v =
    ap (λ i. record t { outheader = record (t.outheader) { id = i } })
      {x = u16 (length p.transactions)} {y = length p.transactions} (omega arith)

reserve_grows :
    (rq rs : ℕ) (t : Transaction)
    → IsRequest t
    → length t.input ≡ input_words t
    → length t.input + 2 ≤ rq
    → reply_words t ≤ rs
    → reserve rq rs t ≡ grow (length t.input + 2) (reply_words t)
unfolding reserve input_words reply_words
reserve_grows rq rs t v e p q = ground arith

-- Reads of 255 words apart, the switch grants no more than that.
reserve_granted :
    (rq rs a b : ℕ) (t : Transaction)
    → IsRequest t
    → (is_read t.outheader.tid ≡ true → t.outheader.words ≢ 255)
    → reserve rq rs t ≡ grow a b
    → (length t.input ≡ input_words t) × (length t.input + 2 ≤ rq) × (reply_words t ≤ rs)
unfolding reserve input_words reply_words
reserve_granted rq rs a b t v short e = ground arith

Room-cases : (r : Room) → ((e : Error) × (r ≡ refuse e)) ⊎ ((a b : ℕ) × (r ≡ grow a b))
Room-cases (refuse e) = inl (e, refl)
Room-cases (grow a b) = inr (a, b, refl)

pub space-IsValid :
    (p : Packet) → IsValid p → space p ≡ (p.reqcap - p.reqlen, p.respcap - p.resplen)
unfolding space
space-IsValid p v = ground arith

-- A transaction that fits is added: there is no error, and it stands behind the others with its
-- place as its id.
pub add-Accepts :
    (p : Packet) (t : Transaction)
    → IsValid p
    → IsRequest t
    → Accepts p t
    → add p t ≡ done (extended p t, none)
unfolding add add_to
add-Accepts p t v q a =
    rw
      (
        space-IsValid p v,
        reserve_grows (p.reqcap - p.reqlen) (p.respcap - p.resplen) t q a.input_is a.request_room
            a.reply_room,
        numbered_lem p t v,
        append_transaction_lem
            (record p {
              reqlen = add64 p.reqlen (length t.input + 2);
              resplen = add64 p.resplen (reply_words t);
            })
            (placed p t) v.has_order,
      )
      (ap₂ (λ a b. done (record (extended p t) { reqlen = a; resplen = b }, none))
        {x = add64 p.reqlen (length t.input + 2)} {y = p.reqlen + (length t.input + 2)}
        {u = add64 p.resplen (reply_words t)} {v = p.resplen + reply_words t} (omega arith)
        (omega arith))

replies_words-append :
    (ts us : List Transaction) → replies_words (ts ++ us) ≡ replies_words ts + replies_words us
replies_words-append [] us = omega arith
replies_words-append (t ∷ ts) us = omega (arith, replies_words-append ts us)

reply_words-placed : (p : Packet) (t : Transaction) → reply_words (placed p t) ≡ reply_words t
unfolding reply_words
reply_words-placed p t = refl

pub extended-IsValid :
    (p : Packet) (t : Transaction) → IsValid p → Accepts p t → IsValid (extended p t)
extended-IsValid p t v a = omega (
  arith,
  length-append p.transactions (placed p t ∷ []),
  replies_words-append p.transactions (placed p t ∷ []),
  reply_words-placed p t,
  length-append p.request_bytes (transaction_bytes p.header.order (placed p t)),
  length-transaction_bytes p.header.order v.has_order (placed p t),
)

-- On a packet whose books are right, `add` of a transaction of one of the six types (a read of 255
-- words is left out) does one of two things and never panics. If the input has the length of its
-- type, and the transaction and its reply fit what is left of the packet, there is no error: the
-- transaction stands behind the others with its place as its id, its bytes stand behind the request,
-- and the books of the new packet are right. Otherwise `add` returns an error and the packet as it
-- was.
pub add_lem :
    (p : Packet) (t : Transaction)
    → IsValid p
    → IsRequest t
    → (is_read t.outheader.tid ≡ true → t.outheader.words ≢ 255)
    → (Accepts p t × (add p t ≡ done (extended p t, none)) × IsValid (extended p t))
      ⊎ ((e : Error) × (¬ Accepts p t) × (add p t ≡ done (p, some e)))
unfolding add add_to
add_lem p t v q short =
    by_room (Room-cases (reserve (p.reqcap - p.reqlen) (p.respcap - p.resplen) t))
  where
    refuse-ne-grow : {e : Error} {a b : ℕ} → refuse e ≡ grow a b → ⊥
    refuse-ne-grow h = cc

    by_room :
        (let r = reserve (p.reqcap - p.reqlen) (p.respcap - p.resplen) t in
          ((e : Error) × (r ≡ refuse e)) ⊎ ((a b : ℕ) × (r ≡ grow a b)))
        → (Accepts p t × (add p t ≡ done (extended p t, none)) × IsValid (extended p t))
          ⊎ ((e : Error) × (¬ Accepts p t) × (add p t ≡ done (p, some e)))
    by_room (inl (e, r)) = inr (
      e,
      λ a. refuse-ne-grow (sym r ∙ reserve_grows _ _ t q a.input_is a.request_room a.reply_room),
      rw (space-IsValid p v, r),
    )
    by_room (inr (a, b, r)) =
        let (i, j, k) = reserve_granted _ _ a b t q short r in
        let fits : Accepts p t = record { input_is = i; request_room = j; reply_room = k } in
        inl (fits, add-Accepts p t v q fits, extended-IsValid p t v fits)

full_read_granted :
    (rq rs : ℕ) (t : Transaction)
    → is_read t.outheader.tid ≡ true
    → t.outheader.words ≡ 255
    → t.input ≡ []
    → 2 ≤ rq
    → reserve rq rs t ≡ grow 2 256
unfolding reserve
full_read_granted rq rs t r w i room = ground arith

-- A read of 255 words with no input is accepted where two words of the request are free and fewer
-- than the 256 words of its reply: the sum `words+1` wraps to 0 in uint8. The packet's book of the
-- reply then passes the capacity.
pub add_full_read :
    (p : Packet) (t : Transaction)
    → IsValid p
    → is_read t.outheader.tid ≡ true
    → t.outheader.words ≡ 255
    → t.input ≡ []
    → 2 ≤ p.reqcap - p.reqlen
    → p.respcap - p.resplen < 256
    → (p' : Packet) × (add p t ≡ done (p', none)) × (p'.respcap < p'.resplen)
unfolding add add_to
add_full_read p t v r w i room short = (
  record (extended p t) { reqlen = add64 p.reqlen 2; resplen = add64 p.resplen 256 },
  rw (
    space-IsValid p v,
    full_read_granted (p.reqcap - p.reqlen) (p.respcap - p.resplen) t r w i room,
    numbered_lem p t v,
    append_transaction_lem (record p { reqlen = add64 p.reqlen 2; resplen = add64 p.resplen 256 })
        (placed p t) v.has_order,
  ),
  omega arith,
)
