-- ===== src/Packet/Send.antt =====
-- `packet.send`: the responses go out on the channels of their transactions.
pub mod Delivery
use ipbus.Common.{List, [], ◌∷◌, ◌++◌, Bool, true, false, ◌||◌, ◌==◌, if◌then◌else◌}
use ipbus.Outcome.{Outcome, done, panic, stuck, ◌>>=◌}
use ipbus.Packet.{Packet, Transaction, Response, Chan}

-- What a receiver sees on a channel.
pub data ChanEvent : Type 0 where
  sent : Chan → Response → ChanEvent
  closed : Chan → ChanEvent

close_after : Transaction → List ChanEvent → List ChanEvent
close_after tr events = elim tr.closechan [ true ↦ closed tr.resp ∷ events | false ↦ events ]

-- The users' side of the channels, which are not buffered: whether the user receives from a channel
-- after what was sent on all channels and closed so far. A send waits for ever where nobody does.
abbrev pub Readers : Type 0
Readers = List ChanEvent → Chan → Bool

-- Only `send` closes a channel.
abbrev pub is_closed : List ChanEvent → Chan → Bool
is_closed [] chan = false
is_closed (sent _ _ ∷ events) chan = is_closed events chan
is_closed (closed c ∷ events) chan = c == chan || is_closed events chan

-- The loop over the transactions with the replies from the same index on, after the events `past`.
-- `p.replies[i]` is read first; a send on a closed channel panics. What was sent before a panic is
-- not kept.
unfoldable pub send_from :
    Readers → List ChanEvent → List Transaction → List Response → Outcome (List ChanEvent)
unfolding close_after
send_from readers past [] replies = done []
send_from readers past (tr ∷ trs) [] = panic
send_from readers past (tr ∷ trs) (r ∷ rs) =
    let rest =
      (send_from readers (past ++ (sent tr.resp r ∷ close_after tr [])) trs rs >>= λ events.
      done (sent tr.resp r ∷ close_after tr events)) in
    if is_closed past tr.resp then panic else if readers past tr.resp then rest else stuck

unfoldable pub send : Readers → List ChanEvent → Packet → Outcome (List ChanEvent)
unfolding send_from
send readers past p = send_from readers past p.transactions p.replies
