-- ===== src/Target/Prepare/Room.antt =====
-- The packets that `preparepackets` works on: their books are right, and there is room for a chunk.
use ipbus.Common.{
  ℕ, ◌+◌, ◌-◌, ◌%◌, ◌^◌, ◌≤◌, ◌<◌, ◌≡◌, refl, sym, ap, ◌∙◌, Bool, true, false, ◌||◌, if◌then◌else◌,
  List, [], ◌∷◌, ◌++◌, All, append_assoc, append-nil, inl, inr, arith, Bool-cases, ltb,
}
use ipbus.Outcome.{Outcome, done}
use ipbus.Protocol.{control}
use ipbus.Packet.{Packet, Transaction, emptypacket, space}
use ipbus.Packet.Add.Bounds.{
  IsValid, IsRequest, Accepts, placed, extended, add-Accepts, extended-IsValid, space-IsValid,
}
use ipbus.Target.Prepare.{
  Packs, all_packets, make_room, clip, next_addr, add_ignoring, add_or_panic,
}

-- The transactions of packets, in order.
abbrev pub queued : List Packet → List Transaction
queued [] = []
queued (p ∷ ps) = p.transactions ++ queued ps

pub queued-append : (ps qs : List Packet) → queued (ps ++ qs) ≡ queued ps ++ queued qs
queued-append [] qs = refl
queued-append (p ∷ ps) qs =
    ap (λ t. p.transactions ++ t) (queued-append ps qs)
    ∙ sym (append_assoc p.transactions (queued ps) (queued qs))

pub record IsReady (packs : Packs) : Type 0 where
  pub front_valid : All IsValid packs.0
  pub last_valid : IsValid packs.1

pub emptypacket-IsValid : (pt : ℕ) → IsValid (emptypacket pt)
emptypacket-IsValid pt = record {
  has_order = λ e. cc;
  request_fits = omega arith;
  reply_fits = omega arith;
  request_capacity = refl;
  reply_capacity = refl;
  bytes_counted = refl;
  reply_counted = refl;
  count_bounded = omega arith;
}

pub All-append {ℓ} :
    {A : Type ℓ} (P : A → Type 0) (xs ys : List A) → All P xs → All P ys → All P (xs ++ ys)
All-append P [] ys hx hy = hy
All-append P (x ∷ xs) ys (h, hx) hy = (h, All-append P xs ys hx hy)

-- Room for `rq` words of request and `rs` of reply in the last packet.
pub record HasRoom (rq rs : ℕ) (packs : Packs) : Type 0 where
  pub ready : IsReady packs
  pub request_room : rq ≤ packs.1.reqcap - packs.1.reqlen
  pub reply_room : rs ≤ packs.1.respcap - packs.1.resplen

pub make_room-HasRoom :
    (rq rs : ℕ) (packs : Packs)
    → rq ≤ 367
    → rs ≤ 367
    → IsReady packs
    → HasRoom rq rs (make_room rq rs packs)
      × (queued (all_packets (make_room rq rs packs)) ≡ queued (all_packets packs))
unfolding make_room
make_room-HasRoom rq rs (front, p) hq hs v =
    elim (Bool-cases (ltb (space p).0 rq || ltb (space p).1 rs)) [
      | inl short ↦ rw short (fresh_room, simp (queued-append, append-nil, append_assoc))
      | inr long ↦
          rw long
            (record { ready = v; request_room = by_request long; reply_room = by_reply long }, refl)
    ]
  where
    fresh_room : HasRoom rq rs (front ++ (p ∷ []), emptypacket control)
    fresh_room = record {
      ready = record {
        front_valid = All-append IsValid front (p ∷ []) v.front_valid (v.last_valid, tt);
        last_valid = emptypacket-IsValid control;
      };
      request_room = hq;
      reply_room = hs;
    }

    by_request : (ltb (space p).0 rq || ltb (space p).1 rs) ≡ false → rq ≤ p.reqcap - p.reqlen
    by_request e = ground (arith, space-IsValid p v.last_valid)

    by_reply : (ltb (space p).0 rq || ltb (space p).1 rs) ≡ false → rs ≤ p.respcap - p.resplen
    by_reply e = ground (arith, space-IsValid p v.last_valid)

-- A transaction for which there is room is added without an error and stands behind the others.
pub record Added (packs : Packs) (t : Transaction) (packs' : Packs) : Type 0 where
  pub ready : IsReady packs'
  pub queue : queued (all_packets packs') ≡ queued (all_packets packs) ++ (placed packs.1 t ∷ [])

pub add_to_last :
    (packs : Packs) (t : Transaction)
    → IsReady packs
    → IsRequest t
    → Accepts packs.1 t
    → let packs' : Packs = (packs.0, extended packs.1 t) in
      (add_ignoring packs t ≡ done packs')
      × (add_or_panic packs t ≡ done packs')
      × Added packs t packs'
unfolding add_ignoring add_or_panic
add_to_last (front, p) t v q a = (
  rw (add-Accepts p t v.last_valid q a),
  rw (add-Accepts p t v.last_valid q a),
  record {
    ready = record {
      front_valid = v.front_valid;
      last_valid = extended-IsValid p t v.last_valid a;
    };
    queue = simp (queued-append, append-nil, append_assoc);
  },
)

pub clip_bounds :
    (m n : ℕ) → 0 < m → 0 < n → (0 < clip m n) × (clip m n ≤ m) × (clip m n ≤ n) × (clip m n ≤ 255)
clip_bounds m n h k = ground arith

-- What a loop has done: packets with right books, and the transactions behind the old ones.
pub record Queues (Chunks : List Transaction → Type 0) (packs : Packs) (out : Outcome Packs)
    : Type 0 where
  pub packs' : Packs
  pub chunks : List Transaction
  pub returns : out ≡ done packs'
  pub ready : IsReady packs'
  pub queue : queued (all_packets packs') ≡ queued (all_packets packs) ++ chunks
  pub right : Chunks chunks

-- One round of a loop, and what the rest of the loop does.
pub Queues-step :
    {Rest Chunks : List Transaction → Type 0} {packs roomy mid : Packs} {t : Transaction}
    {out out' : Outcome Packs}
    → queued (all_packets roomy) ≡ queued (all_packets packs)
    → Added roomy t mid
    → out' ≡ out
    → ((ts : List Transaction) → Rest ts → Chunks (placed roomy.1 t ∷ ts))
    → Queues Rest mid out
    → Queues Chunks packs out'
Queues-step {packs = packs} {roomy = roomy} {t = t} same added e extend rest = record {
  packs' = rest.packs';
  chunks = placed roomy.1 t ∷ rest.chunks;
  returns = e ∙ rest.returns;
  ready = rest.ready;
  queue =
      rest.queue
      ∙ rw (added.queue, same)
          (append_assoc (queued (all_packets packs)) (placed roomy.1 t ∷ []) rest.chunks);
  right = extend rest.chunks rest.right;
}

-- A loop that adds nothing more.
pub Queues-end :
    (Chunks : List Transaction → Type 0) (packs : Packs)
    → IsReady packs
    → Chunks []
    → Queues Chunks packs (done packs)
Queues-end Chunks packs v h = record {
  packs' = packs;
  chunks = [];
  returns = refl;
  ready = v;
  queue = sym (append-nil _);
  right = h;
}

pub Queues-map :
    {Chunks Chunks' : List Transaction → Type 0} {packs : Packs} {out : Outcome Packs}
    → ((ts : List Transaction) → Chunks ts → Chunks' ts)
    → Queues Chunks packs out
    → Queues Chunks' packs out
Queues-map f q = record {
  packs' = q.packs';
  chunks = q.chunks;
  returns = q.returns;
  ready = q.ready;
  queue = q.queue;
  right = f q.chunks q.right;
}

-- The address that follows `n` words: it moves on for an incrementing request, modulo 2^32.
abbrev pub behind : Bool → ℕ → ℕ → ℕ
behind moves addr n = if moves then (addr + n) % 2 ^ 32 else addr

pub next_addr-behind : (moves : Bool) (addr n : ℕ) → next_addr moves addr n ≡ behind moves addr n
next_addr-behind true addr n = omega arith
next_addr-behind false addr n = refl
