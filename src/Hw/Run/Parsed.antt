-- ===== src/Hw/Run/Parsed.antt =====
-- What `parse` makes of a datagram for a packet in flight.
use ipbus.Common.{ℕ, ◌%◌, ◌≤◌, ◌≡◌, sym, ap, subst, ◌∙◌, List, [], ◌∷◌, ◌++◌, length, Option}
use ipbus.Outcome.{done, OrPanics, OrPanics-keep}
use ipbus.Protocol.{Error}
use ipbus.Packet.{Packet}
use ipbus.Packet.Parse.{parse}
use ipbus.Packet.Parse.Ends.{IsControl, parse-OrPanics}
use ipbus.Packet.Parse.Responses.{responses_to, parse-responses_to}
use ipbus.Hw.{Hw}
use ipbus.Hw.Answer.{pid_of}
use ipbus.Hw.Inv.{asked, IsFor, Answers}

-- The result of `parse` is a reply to what was asked for under the id.
reply_to :
    (h : Hw) (id : ℕ) (bytes : List ℕ) (before : List (List ℕ)) (req : Packet)
    (q : Packet × Option Error)
    → IsControl bytes
    → IsFor (asked h.taken) id req
    → h.arrived ≡ before ++ (bytes ∷ [])
    → pid_of bytes ≡ id
    → (q.0.id ≡ req.id)
      × (q.0.transactions ≡ req.transactions)
      × (length q.0.transactions ≤ length q.0.replies)
    → parse req bytes ≡ done q
    → Answers (asked h.taken) h.arrived id q.0
reply_to h id bytes before req q c f came pid (same_id, same, enough) parsed = (
  same_id ∙ f.0,
  record {
    before = before;
    bytes = bytes;
    after = [];
    came = came;
    id_is = pid ∙ sym (same_id ∙ f.0);
    same_request = same ∙ ap (λ a. a.0) f.1;
    parsed =
        subst (λ a. responses_to a.0 a.1 bytes ≡ done (q.0.replies)) f.1
          (parse-responses_to req bytes q c parsed);
    enough = enough;
  },
)

-- A packet that `parse` returns, with the call.
pub record Parsed (h : Hw) (id : ℕ) (bytes : List ℕ) (req : Packet) (q : Packet × Option Error)
    : Type 0 where
  pub keyed : Answers (asked h.taken) h.arrived id q.0
  pub call : parse req bytes ≡ done q

pub parse-Parsed :
    (h : Hw) (id : ℕ) (bytes : List ℕ) (before : List (List ℕ)) (req : Packet)
    → IsControl bytes
    → length bytes % 4 ≡ 0
    → IsFor (asked h.taken) id req
    → h.arrived ≡ before ++ (bytes ∷ [])
    → pid_of bytes ≡ id
    → OrPanics (Parsed h id bytes req) (parse req bytes)
parse-Parsed h id bytes before req c words f came pid =
    OrPanics-keep _ (Parsed h id bytes req) (parse req bytes)
      (λ q r e. record {
        keyed = reply_to h id bytes before req q c f came pid (r.1, r.2, r.3) e;
        call = e;
      })
      (parse-OrPanics req bytes c words)
