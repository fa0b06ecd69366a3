-- ===== src/Target/Now/Words.antt =====
-- What the blocking methods return.
use Prim.Native.String.{String}
use ipbus.Common.{
  ℕ, ◌≡◌, refl, sym, ap, ◌∙◌, Bool, true, false, List, [], ◌∷◌, ◌++◌, map, none, some, append_assoc,
  append-nil, bit_and, u32, ◌<<<◌, ◌>>>◌, IsU32,
}
use ipbus.Outcome.{done, stuck}
use ipbus.Protocol.{Error, success}
use ipbus.Register.{Register, Msk, lookup_mask, write_mask}
use ipbus.Register.Masks.{rmw, read_mask-write_mask}
use ipbus.Target.Calls.{masked_write, rmwbits_request}
use ipbus.Target.Masked.{masked_write-write_mask}
use ipbus.Packet.{Response, Chan}
use ipbus.Target.Now.{
  Arrivals, words_of, read_now, read_now_loop, write_now, write_now_loop, masked_read_now,
}

-- The response to a chunk that brings some words.
abbrev pub chunk : List ℕ → Response
chunk us = record { err = none; code = success; data_u32 = some us; data_b = none }

abbrev pub joined : List (List ℕ) → List ℕ
joined [] = []
joined (us ∷ uss) = us ++ joined uss

loops_lem :
    (uss : List (List ℕ)) (rs : List Response) (closed : Bool) (words : List ℕ)
    → (read_now_loop (map chunk uss ++ rs) closed words
        ≡ read_now_loop rs closed (words ++ joined uss))
      × (write_now_loop (map chunk uss ++ rs) closed ≡ write_now_loop rs closed)
unfolding read_now_loop write_now_loop
loops_lem [] rs closed words = (ap (λ t. read_now_loop rs closed t) (sym (append-nil words)), refl)
loops_lem (us ∷ uss) rs closed words =
    let (r, w) = loops_lem uss rs closed (words ++ us) in
    (r ∙ ap (λ t. read_now_loop rs closed t) (append_assoc words us (joined uss)), w)

-- Some chunks of words arrive, and behind them either the channel is closed or a response with an
-- error comes first, whatever follows it.
abbrev pub closing : List (List ℕ) → Arrivals
closing uss = record { responses = map chunk uss; closed = true }

abbrev pub failing : List (List ℕ) → Error → Response → List Response → Bool → Arrivals
failing uss e r rs closed = record {
  responses = map chunk uss ++ (record r { err = some e } ∷ rs);
  closed = closed;
}

-- Where the responses of all chunks arrive without an error and the channel is closed behind them,
-- `ReadNow` returns their words joined in order, and `WriteNow` no error. Where a response with an
-- error arrives first, both return that error whatever follows it, and `ReadNow` returns the words
-- that came before it, with those of that response. Where the channel stays open behind responses
-- without an error, both wait for ever.
pub read_now-write_now :
    (uss : List (List ℕ)) (e : Error) (r : Response) (rs : List Response) (closed : Bool)
    → (read_now (closing uss) ≡ done (joined uss, none))
      × (write_now (closing uss) ≡ done none)
      × (read_now (failing uss e r rs closed) ≡ done (joined uss ++ words_of r.data_u32, some e))
      × (write_now (failing uss e r rs closed) ≡ done (some e))
      × (read_now (record { responses = map chunk uss; closed = false }) ≡ stuck)
      × (write_now (record { responses = map chunk uss; closed = false }) ≡ stuck)
unfolding read_now write_now read_now_loop write_now_loop
read_now-write_now uss e r rs closed = (
  ap (λ t. read_now_loop t true []) (sym (append-nil (map chunk uss)))
      ∙ (loops_lem uss [] true []).0,
  ap (λ t. write_now_loop t true) (sym (append-nil (map chunk uss))) ∙ (loops_lem uss [] true []).1,
  (loops_lem uss (record r { err = some e } ∷ rs) closed []).0,
  (loops_lem uss (record r { err = some e } ∷ rs) closed []).1,
  ap (λ t. read_now_loop t false []) (sym (append-nil (map chunk uss)))
      ∙ (loops_lem uss [] false []).0,
  ap (λ t. write_now_loop t false) (sym (append-nil (map chunk uss)))
      ∙ (loops_lem uss [] false []).1,
)

-- A masked write of a value that lies within the mask, carried out by the hardware on any register
-- value `x`, is read back by a masked read behind it: `MaskedWrite` queues a read-modify-write, and
-- `MaskedReadNow` of what that makes of `x` returns without an error the value's digits that the
-- shifted mask has.
pub masked_read_now-masked_write :
    (reg : Register) (mask : String) (m : Msk) (v x : ℕ) (resp : Chan)
    → lookup_mask mask reg.msks ≡ some m
    → IsU32 m.value
    → bit_and (u32 (v <<< m.shift)) m.value ≡ u32 (v <<< m.shift)
    → (andterm orterm : ℕ) × (masked_write reg mask v resp
        ≡ (some (rmwbits_request reg andterm orterm resp), none))
      × (masked_read_now reg mask (closing ((rmw x andterm orterm ∷ []) ∷ []))
          ≡ done (bit_and v (m.value >>> m.shift), none))
unfolding masked_read_now read_now read_now_loop
masked_read_now-masked_write reg mask m v x resp found h within =
    let (_, back, _) = read_mask-write_mask reg mask m v x found h in
    (
      (write_mask reg mask v).0,
      (write_mask reg mask v).1,
      (masked_write-write_mask reg mask m v resp found h).1 within,
      ap done back,
    )
