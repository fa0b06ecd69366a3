-- ===== src/Target/Calls.antt =====
-- The methods of a target that queue a request: what each of them puts on the channel of requests.
-- `resp` is the channel of responses that the method makes and returns.
mod Tests
use Prim.Native.String.{String}
use ipbus.Common.{
  ℕ, ◌≡◌, refl, Bool, true, false, List, [], ◌∷◌, map, All, Option, none, some, length,
  if◌then◌else◌, inl, inr, ◌||◌, ◌==◌, u32, ◌<<<◌, bit_xor,
}
use ipbus.Outcome.{Outcome}
use ipbus.Protocol.{Error, no_mask, read, write, readnoninc, writenoninc, rmwbits, rmwsum}
use ipbus.Register.{Register, Msk, lookup_mask}
use ipbus.Packet.{Chan}
use ipbus.Packet.Add.{is_read, is_write}
use ipbus.Target.{UsrRequest}
use ipbus.Target.Prepare.{prepare_all}
use ipbus.Target.Prepare.Requests.{HasInput, for_read, for_write, for_rmwbits, for_rmwsum}
use ipbus.Target.Prepare.Sequence.{IsRequested, AllPrepared, prepare_all_lem}

-- `Read` and, with bytes as the reply, `ReadB`
unfoldable pub read_request : Bool → Register → ℕ → Chan → UsrRequest
read_request byteslice reg nword resp = record {
  typeid = if reg.noninc then readnoninc else read;
  nwords = nword;
  addr = reg.addr;
  input = [];
  resp = resp;
  byteslice = byteslice;
  dispatch = false;
}

unfoldable pub write_request : Register → List ℕ → Chan → UsrRequest
write_request reg words resp = record {
  typeid = if reg.noninc then writenoninc else write;
  nwords = length words;
  addr = reg.addr;
  input = words;
  resp = resp;
  byteslice = false;
  dispatch = false;
}

unfoldable pub rmwbits_request : Register → ℕ → ℕ → Chan → UsrRequest
rmwbits_request reg andterm orterm resp = record {
  typeid = rmwbits;
  nwords = 1;
  addr = reg.addr;
  input = andterm ∷ orterm ∷ [];
  resp = resp;
  byteslice = false;
  dispatch = false;
}

unfoldable pub rmwsum_request : Register → ℕ → Chan → UsrRequest
rmwsum_request reg addend resp = record {
  typeid = rmwsum;
  nwords = 1;
  addr = reg.addr;
  input = addend ∷ [];
  resp = resp;
  byteslice = false;
  dispatch = false;
}

-- `usrrequest{dispatch: true}`
unfoldable pub dispatch_request : UsrRequest
dispatch_request = record {
  typeid = 0;
  nwords = 0;
  addr = 0;
  input = [];
  resp = 0;
  byteslice = false;
  dispatch = true;
}

-- The terms of `MaskedWrite`.
pub masked_terms : Option Msk → ℕ → Option (ℕ × ℕ) × Option Error
masked_terms none value = (none, some no_mask)
masked_terms (some m) value = (some (bit_xor 0xffffffff m.value, u32 (value <<< m.shift)), none)

pub request_of_terms :
    Register → Option (ℕ × ℕ) × Option Error → Chan → Option UsrRequest × Option Error
request_of_terms reg (none, e) resp = (none, e)
request_of_terms reg (some (andterm, orterm), e) resp =
    (some (rmwbits_request reg andterm orterm resp), e)

-- Nothing is queued where the register has no such mask.
unfoldable pub masked_write : Register → String → ℕ → Chan → Option UsrRequest × Option Error
unfolding masked_terms request_of_terms
masked_write reg mask value resp =
    request_of_terms reg (masked_terms (lookup_mask mask reg.msks) value) resp

-- The calls of a user, each with the channel that it makes.
pub data Call : Type 0 where
  reading : Bool → Register → ℕ → Chan → Call
  writing : Register → List ℕ → Chan → Call
  changing_bits : Register → ℕ → ℕ → Chan → Call
  summing : Register → ℕ → Chan → Call
  dispatching : Call

unfoldable pub request_of : Call → UsrRequest
request_of (reading byteslice reg nword resp) = read_request byteslice reg nword resp
request_of (writing reg words resp) = write_request reg words resp
request_of (changing_bits reg andterm orterm resp) = rmwbits_request reg andterm orterm resp
request_of (summing reg addend resp) = rmwsum_request reg addend resp
request_of dispatching = dispatch_request

request_of-IsRequested : (c : Call) → IsRequested (request_of c)
unfolding request_of read_request write_request rmwbits_request rmwsum_request dispatch_request
request_of-IsRequested (reading byteslice reg nword resp) =
    inr (refl, for_read (by_noninc reg.noninc) refl)
  where
    by_noninc : (b : Bool) → is_read (if b then readnoninc else read) ≡ true
    by_noninc true = refl
    by_noninc false = refl
request_of-IsRequested (writing reg words resp) = inr (refl, for_write (by_noninc reg.noninc))
  where
    by_noninc : (b : Bool) → is_write (if b then writenoninc else write) ≡ true
    by_noninc true = refl
    by_noninc false = refl
request_of-IsRequested (changing_bits reg andterm orterm resp) = inr (refl, for_rmwbits refl refl)
request_of-IsRequested (summing reg addend resp) = inr (refl, for_rmwsum refl refl)
request_of-IsRequested dispatching = inl refl

All-IsRequested : (cs : List Call) → All IsRequested (map request_of cs)
All-IsRequested [] = tt
All-IsRequested (c ∷ cs) = (request_of-IsRequested c, All-IsRequested cs)

-- Whatever the calls of a user, with dispatches between them, on a target with no packets: their
-- requests are all taken without a panic or an endless loop, the books of the packets that are sent
-- and of those that are left are right, and together these hold just the transactions that carry
-- the calls out, in order.
pub prepare_all-calls :
    (cs : List Call) → AllPrepared (map request_of cs) [] (prepare_all [] (map request_of cs))
prepare_all-calls cs = prepare_all_lem (map request_of cs) [] (All-IsRequested cs) tt
