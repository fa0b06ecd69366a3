-- ===== src/Packet/Send/Delivery.antt =====
-- Who gets which response.
use ipbus.Common.{
  ◌≤◌, ◌<◌, ◌≡◌, ◌⊎◌, inl, inr, refl, Bool, true, false, not, ◌&&◌, ◌||◌, List, [], ◌∷◌, ◌++◌,
  length, ap, ◌∙◌, arith, ◌==◌, if◌then◌else◌, Bool-cases, leb,
}
use ipbus.Outcome.{done, panic, ◌>>=◌}
use ipbus.Packet.{Packet, Transaction, Response, Chan}
use ipbus.Packet.Send.{ChanEvent, sent, closed, Readers, is_closed, send_from, send}

-- The specification: each transaction's channel gets the response at the transaction's place, and is
-- closed behind it if the transaction is the last of its request.
abbrev pub deliveries : List Transaction → List Response → List ChanEvent
deliveries [] rs = []
deliveries (t ∷ ts) [] = []
deliveries (t ∷ ts) (r ∷ rs) =
    sent t.resp r ∷ (if t.closechan then closed t.resp ∷ deliveries ts rs else deliveries ts rs)

-- A transaction has this channel.
abbrev pub uses : List Transaction → Chan → Bool
uses [] chan = false
uses (t ∷ ts) chan = t.resp == chan || uses ts chan

-- No transaction has a channel that was closed before, or that an earlier one of them closes.
abbrev pub stays_open : List ChanEvent → List Transaction → Bool
stays_open past [] = true
stays_open past (t ∷ ts) =
    not (is_closed past t.resp) && (not (t.closechan && uses ts t.resp) && stays_open past ts)

-- The users receive whatever is sent.
abbrev pub AllReceive : Readers → Type 0
AllReceive readers = (past : List ChanEvent) (chan : Chan) → readers past chan ≡ true

is_closed-append :
    (xs ys : List ChanEvent) (c : Chan)
    → is_closed (xs ++ ys) c ≡ (is_closed xs c || is_closed ys c)
is_closed-append [] ys c = refl
is_closed-append (sent d r ∷ xs) ys c = is_closed-append xs ys c
is_closed-append (closed d ∷ xs) ys c = ground (arith, is_closed-append xs ys c)

stays_open-sent :
    (past : List ChanEvent) (c : Chan) (r : Response) (ts : List Transaction)
    → stays_open (past ++ (sent c r ∷ [])) ts ≡ stays_open past ts
stays_open-sent past c r [] = refl
stays_open-sent past c r (t ∷ ts) =
    ground (arith, is_closed-append past (sent c r ∷ []) t.resp, stays_open-sent past c r ts)

stays_open-closed :
    (past : List ChanEvent) (c : Chan) (r : Response) (ts : List Transaction)
    → stays_open (past ++ (sent c r ∷ closed c ∷ [])) ts ≡ (not (uses ts c) && stays_open past ts)
stays_open-closed past c r [] = refl
stays_open-closed past c r (t ∷ ts) =
    ground (
      arith,
      is_closed-append past (sent c r ∷ closed c ∷ []) t.resp,
      stays_open-closed past c r ts,
    )

-- The first response goes out, and those behind it.
abbrev and_rest : Transaction → Response → List ChanEvent → List ChanEvent
and_rest t r events = sent t.resp r ∷ (if t.closechan then closed t.resp ∷ events else events)

-- Whether all responses can be sent.
abbrev can_send : List ChanEvent → List Transaction → List Response → Bool
can_send past ts rs = leb (length ts) (length rs) && stays_open past ts

send_from_first :
    (readers : Readers) (past : List ChanEvent) (t : Transaction) (ts : List Transaction)
    (r : Response) (rs : List Response)
    → AllReceive readers
    → is_closed past t.resp ≡ false
    → send_from readers past (t ∷ ts) (r ∷ rs)
      ≡ (send_from readers (past ++ and_rest t r []) ts rs >>= λ events. done (and_rest t r events))
unfolding send_from
send_from_first readers past t ts r rs reads open_now = elim (Bool-cases t.closechan) [
  | inl closes ↦ rw (open_now, reads past t.resp, closes) refl
  | inr keeps ↦ rw (open_now, reads past t.resp, keeps) refl
]

send_from_closed :
    (readers : Readers) (past : List ChanEvent) (t : Transaction) (ts : List Transaction)
    (rs : List Response)
    → is_closed past t.resp ≡ true
    → send_from readers past (t ∷ ts) rs ≡ panic
unfolding send_from
send_from_closed readers past t ts [] e = refl
send_from_closed readers past t ts (r ∷ rs) e = rw e refl

stays_open-first :
    (past : List ChanEvent) (t : Transaction) (r : Response) (ts : List Transaction)
    → stays_open (past ++ and_rest t r []) ts
      ≡ (not (t.closechan && uses ts t.resp) && stays_open past ts)
stays_open-first past t r ts = elim (Bool-cases t.closechan) [
  | inl closes ↦ rw closes (stays_open-closed past t.resp r ts)
  | inr keeps ↦ rw keeps (stays_open-sent past t.resp r ts)
]

send_from_lem :
    (readers : Readers) (past : List ChanEvent) (ts : List Transaction) (rs : List Response)
    → AllReceive readers
    → send_from readers past ts rs
      ≡ (if can_send past ts rs then done (deliveries ts rs) else panic)
unfolding send_from
send_from_lem readers past [] rs reads = ground arith
send_from_lem readers past (t ∷ ts) [] reads = ground arith
send_from_lem readers past (t ∷ ts) (r ∷ rs) reads = elim (Bool-cases (is_closed past t.resp)) [
  | inl shut ↦ ground (arith, send_from_closed readers past t ts (r ∷ rs) shut)
  | inr open_now ↦
      send_from_first readers past t ts r rs reads open_now
      ∙ ap (λ m. m >>= λ events. done (and_rest t r events))
          (send_from_lem readers (past ++ and_rest t r []) ts rs reads)
      ∙ ground (arith, stays_open-first past t r ts)
]

-- Where the users receive whatever is sent, `send` delivers the replies in order, each to the channel
-- of the transaction at its place, and closes the channels of the transactions that ask for it, if
-- there is a reply for each transaction and no transaction has a channel that was closed before or
-- that an earlier one of them closes. Otherwise it panics.
pub send_lem :
    (readers : Readers) (past : List ChanEvent) (p : Packet)
    → AllReceive readers
    → ((length p.transactions ≤ length p.replies)
        × (stays_open past p.transactions ≡ true)
        × (send readers past p ≡ done (deliveries p.transactions p.replies)))
      ⊎ (((length p.replies < length p.transactions) ⊎ (stays_open past p.transactions ≡ false))
          × (send readers past p ≡ panic))
unfolding send
send_lem readers past p reads =
    ground (arith, send_from_lem readers past p.transactions p.replies reads)
