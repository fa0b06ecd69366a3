-- ===== src/Hw/Run/HandBack.antt =====
-- The last part of `on_answer`: the reply is stored, and packets are handed back to the users.
use ipbus.Common.{
  ℕ, ◌+◌, ◌-◌, ◌<◌, ◌≡◌, sym, ap, subst, ◌∙◌, false, List, [], ◌∷◌, ◌++◌, map, refl, true, length,
  Option, none, some, ◌⊎◌, length-append, arith,
}
use ipbus.Outcome.{Outcome, done, OrPanics, OrPanics-map}
use ipbus.Protocol.{Error}
use ipbus.IdLog.Track.{IsTracker}
use ipbus.Packet.{Packet}
use ipbus.Packet.Parse.{parse}
use ipbus.Packet.Send.Delivery.{AllReceive}
use ipbus.PacketLog
use ipbus.PacketLog.{PacketLog, has, get, is_some}
use ipbus.Hw.{Hw}
use ipbus.Hw.Inv.{Inv, asked, Answers, Keyed}
use ipbus.Hw.Inv.Back.{answered}
use ipbus.Hw.Moving.{IsMoving}
use ipbus.Hw.SendNext.Round.{CanSend}
use ipbus.Hw.SendNext.Window.{Sends, Found, AreFor, Found-AreFor}
use ipbus.Hw.ReturnReply.{returnreply}
use ipbus.Hw.ReturnReply.Order.{Returned, all_deliveries, returnreply-Returned}

-- What `replied` is once the datagram has been looked at: the packet in flight under `id` is entered
-- with what `parse` makes of the datagram for it; without one, nothing is entered.
pub data Entered (h : Hw) (id : ℕ) (bytes : List ℕ) (log : PacketLog Packet) : Type 0 where
  unknown : get h.flying id ≡ none → log ≡ h.replied → Entered h id bytes log
  known :
      (req req' : Packet)
      → (e : Option Error) → get h.flying id ≡ some req
      → parse req bytes ≡ done (req', e)
      → log ≡ PacketLog.add h.replied id req'
      → Entered h id bytes log

-- The state `h'` after a datagram for the id `id`, with `arrived` all datagrams so far: `log` holds the
-- packets with replies, some queued packets `sent` under the ids `moved` went out, and the packets
-- `packs` under the ids `over` were handed on.
pub record Answered (h : Hw) (id : ℕ) (bytes : List ℕ) (arrived : List (List ℕ)) (fs qs : List ℕ)
    (h' : Hw) : Type 0 where
  pub log : PacketLog Packet
  pub moved : List ℕ
  pub rest : List ℕ
  pub over : List ℕ
  pub left : List ℕ
  pub sent : List Packet
  pub packs : List Packet
  pub entered : Entered h id bytes log
  pub queue_split : qs ≡ moved ++ rest
  pub flight_split : fs ++ moved ≡ over ++ left
  pub inv : Inv h' left rest []
  pub can_send : CanSend h'
  pub went_out : Found h.tosend moved sent
  pub wrote : h'.written ≡ h.written ++ map (λ p. p.request_bytes) sent
  pub held : h.handlinglost ≡ true → moved ≡ []
  pub found : Found log over packs
  pub are_for : AreFor (asked h.taken) arrived over packs
  pub delivered : h'.delivered ≡ h.delivered ++ all_deliveries packs
  pub same_arrived : h'.arrived ≡ arrived
  pub same_next : h'.next_id ≡ h.next_id
  pub same_taken : h'.taken ≡ h.taken
  pub moving : IsMoving h fs qs → IsMoving h' left rest

-- There is a slot in `flyingids` for one packet more than may go out now.
abbrev pub HasSlotsBehind : Hw → Type 0
HasSlotsBehind h = h.flyingids.n + (h.maxflight - h.inflight) < 32

-- The packet in flight under `id`, as `parse` fills it.
pub record ReplyIn (h : Hw) (id : ℕ) (bytes : List ℕ) (req' : Packet) : Type 0 where
  pub req : Packet
  pub e : Option Error
  pub found : get h.flying id ≡ some req
  pub parsed : parse req bytes ≡ done (req', e)

-- The last part of `on_answer`, from the state in which `flying` no longer has the packet.
pub hand_back :
    (h : Hw) (id : ℕ) (bytes : List ℕ) (fs qs : List ℕ) (req' : Packet) (h1 : Hw)
    (out : Outcome (Hw × Option Error)) (s : Sends h1 fs qs (id ∷ []) out)
    → ReplyIn h id bytes req'
    → Answers (asked h.taken) h.arrived id req'
    → h1.tosend ≡ h.tosend
    → h1.written ≡ h.written
    → h1.handlinglost ≡ h.handlinglost
    → h1.arrived ≡ h.arrived
    → h1.replied ≡ h.replied
    → h1.delivered ≡ h.delivered
    → h1.next_id ≡ h.next_id
    → h1.taken ≡ h.taken
    → h1.maxflight ≡ h.maxflight
    → OrPanics
        (Answered h id bytes h.arrived fs qs)
        (returnreply (record (s.h') { replied = PacketLog.add s.h'.replied id req' }))
hand_back h id bytes fs qs req' h1 out s reply keyed same_tosend same_written same_lost same_arrived
      same_replied same_delivered same_next same_taken same_max =
    let h2 = record (s.h') { replied = PacketLog.add s.h'.replied id req' } in
    OrPanics-map (Returned h2 (fs ++ s.moved) s.rest) (Answered h id bytes h.arrived fs qs)
      (returnreply h2)
      (λ h' r. record {
        log = PacketLog.add h.replied id req';
        sent = s.packs;
        entered = Entered.known reply.req req' reply.e reply.found reply.parsed refl;
        went_out = subst (λ l. Found l s.moved s.packs) same_tosend s.found;
        wrote =
            ap (λ g. g.written) r.kept
            ∙ s.wrote
            ∙ ap (λ w. w ++ map (λ p. p.request_bytes) s.packs) same_written;
        held = λ l. s.held (same_lost ∙ l);
        same_arrived = ap (λ g. g.arrived) r.kept ∙ still_arrived;
        moved = s.moved;
        rest = s.rest;
        over = r.over;
        left = r.rest;
        packs = r.packs;
        queue_split = s.split;
        flight_split = r.split;
        inv = r.inv;
        can_send = still_can_send h' r;
        found =
            subst (λ l. Found (PacketLog.add l id req') r.over r.packs)
              (ap (λ g. g.replied) s.kept ∙ same_replied) r.found;
        are_for =
            Found-AreFor (asked h.taken) h.arrived h2.replied r.over r.packs
              (subst (λ ps. Keyed (Answers (asked ps) h.arrived) h2.replied) still_taken
                (subst (λ ds. Keyed (Answers (asked s.h'.taken) ds) h2.replied) still_arrived
                  (answered id req' s.inv keyed_there).replied_keyed))
              r.found;
        delivered =
            r.delivered
            ∙ ap (λ d. d ++ all_deliveries r.packs) (ap (λ g. g.delivered) s.kept ∙ same_delivered);
        same_next = ap (λ g. g.next_id) r.kept ∙ ap (λ g. g.next_id) s.kept ∙ same_next;
        same_taken = ap (λ g. g.taken) r.kept ∙ still_taken;
        moving = λ m. still_moving h' r m.room;
      })
      (returnreply-Returned h2 (fs ++ s.moved) s.rest (answered id req' s.inv keyed_there)
        s.can_send.reads)
  where
    still_arrived : s.h'.arrived ≡ h.arrived
    still_arrived = ap (λ g. g.arrived) s.kept ∙ same_arrived

    still_taken : s.h'.taken ≡ h.taken
    still_taken = ap (λ g. g.taken) s.kept ∙ same_taken

    keyed_there : Answers (asked s.h'.taken) s.h'.arrived id req'
    keyed_there =
        subst (λ ps. Answers (asked ps) s.h'.arrived id req') (sym still_taken)
          (subst (λ ds. Answers (asked h.taken) ds id req') (sym still_arrived) keyed)

    still_moving :
        (h' : Hw)
        (r : Returned
          (record (s.h') { replied = PacketLog.add s.h'.replied id req' })
          (fs ++ s.moved)
          s.rest
          h')
        → 0 < h.maxflight
        → IsMoving h' r.rest s.rest
    still_moving h' r room = record {
      room =
          subst (λ n. 0 < n)
            (sym (ap (λ g. g.maxflight) r.kept ∙ ap (λ g. g.maxflight) s.kept ∙ same_max)) room;
      first_waits = r.waits;
      full =
          subst (λ g. g.handlinglost ≡ false → (s.rest ≡ []) ⊎ (g.inflight ≡ g.maxflight))
            (sym r.kept) (λ l. s.full (sym (ap (λ g. g.handlinglost) s.kept) ∙ l));
    }

    still_can_send :
        (h' : Hw)
        → Returned
            (record (s.h') { replied = PacketLog.add s.h'.replied id req' })
            (fs ++ s.moved)
            s.rest
            h'
        → CanSend h'
    still_can_send h' r = record {
      waits = subst (λ g. 0 < g.waittime) (sym r.kept) s.can_send.waits;
      tracks = subst (λ g. IsTracker g.sentout) (sym r.kept) s.can_send.tracks;
      reads = subst (λ g. AllReceive g.readers) (sym r.kept) s.can_send.reads;
      slots = omega (
        arith,
        s.can_send.slots,
        s.inv.flying_ids.counted,
        r.inv.flying_ids.counted,
        ap length r.split,
        length-append r.over r.rest,
        ap (λ g. g.inflight) r.kept,
        ap (λ g. g.maxflight) r.kept,
      );
    }
