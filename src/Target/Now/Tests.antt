-- ===== src/Target/Now/Tests.antt =====
-- What arrives on some channels, and the theorems at that.
use ipbus.Common.{
  pos, ℕ, ◌≡◌, refl, true, false, List, [], ◌∷◌, ◌++◌, map, none, some, arith, bit_and, ◌>>>◌,
}
use ipbus.Outcome.{done, stuck}
use ipbus.Protocol.{ipbus_error}
use ipbus.Register.{Msk, Register, lookup_mask}
use ipbus.Register.Masks.{rmw}
use ipbus.Target.Calls.{masked_write, rmwbits_request}
use ipbus.Target.Now.{words_of, read_now, write_now, masked_read_now}
use ipbus.Target.Now.Words.{
  chunk, joined, closing, failing, read_now-write_now, masked_read_now-masked_write,
}

abbrev chunks : List (List ℕ)
chunks = (1 ∷ 2 ∷ []) ∷ (3 ∷ []) ∷ []

read_now-write_now_example :
    (read_now (closing chunks) ≡ done (joined chunks, none))
    × (write_now (closing chunks) ≡ done none)
    × (read_now (failing chunks (ipbus_error 4) (chunk (9 ∷ [])) (chunk [] ∷ []) true)
        ≡ done (joined chunks ++ words_of (some (9 ∷ [])), some (ipbus_error 4)))
    × (write_now (failing chunks (ipbus_error 4) (chunk (9 ∷ [])) (chunk [] ∷ []) true)
        ≡ done (some (ipbus_error 4)))
    × (read_now (record { responses = map chunk chunks; closed = false }) ≡ stuck)
    × (write_now (record { responses = map chunk chunks; closed = false }) ≡ stuck)
read_now-write_now_example =
    read_now-write_now chunks (ipbus_error 4) (chunk (9 ∷ [])) (chunk [] ∷ []) true

abbrev nibble : Msk
nibble = record { name = "nibble"; value = 0x0f0; shift = 4 }

abbrev csr : Register
csr = record {
  name = "csr";
  addr = 0x10;
  masks = "nibble" ∷ [];
  noninc = false;
  size = pos 1;
  msks = ("nibble", nibble) ∷ [];
}

nibble_found : lookup_mask "nibble" csr.msks ≡ some nibble
unfolding lookup_mask
nibble_found = refl

masked_read_now-masked_write_example :
    (andterm orterm : ℕ) × (masked_write csr "nibble" 9 3
      ≡ (some (rmwbits_request csr andterm orterm 3), none))
    × (masked_read_now csr "nibble" (closing ((rmw 0xabcd andterm orterm ∷ []) ∷ []))
        ≡ done (bit_and 9 (0x0f0 >>> 4), none))
masked_read_now-masked_write_example =
    masked_read_now-masked_write csr "nibble" nibble 9 0xabcd 3 nibble_found (omega arith) refl
