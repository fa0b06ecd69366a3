-- ===== src/Target/Now.antt =====
-- The blocking methods of a target, on what arrives on their channel of responses. A receive from a
-- channel on which nothing arrives any more and which is not closed waits for ever: `stuck`.
pub mod Words
mod Tests
use Prim.Native.String.{String}
use ipbus.Common.{ℕ, Bool, true, false, List, [], ◌∷◌, ◌++◌, Option, none, some, get_elem?}
use ipbus.Outcome.{Outcome, done, panic, stuck, ◌>>=◌, or_panic}
use ipbus.Protocol.{Error, success}
use ipbus.Register.{Register, read_mask}
use ipbus.Packet.{Response}

-- What arrives on a channel, and whether it is closed behind that.
pub record Arrivals : Type 0 where
  pub responses : List Response
  pub closed : Bool

-- A nil slice has no words.
abbrev pub words_of : Option (List ℕ) → List ℕ
words_of none = []
words_of (some us) = us

-- The round of a loop that returns at the first error.
abbrev pub unless_err {ℓ} : {A : Type ℓ} → Option Error → (Error → A) → A → A
unless_err none stop go_on = go_on
unless_err (some e) stop go_on = stop e

-- The loop of `ReadNow`: the words of a response are kept, also beside an error.
unfoldable pub read_now_loop : List Response → Bool → List ℕ → Outcome (List ℕ × Option Error)
read_now_loop [] true words = done (words, none)
read_now_loop [] false words = stuck
read_now_loop (r ∷ rs) closed words =
    let words' = words ++ words_of r.data_u32 in
    let rest = read_now_loop rs closed words' in unless_err r.err (λ e. done (words', some e)) rest

unfoldable pub read_now : Arrivals → Outcome (List ℕ × Option Error)
read_now c = read_now_loop c.responses c.closed []

-- The loop of `WriteNow`.
unfoldable pub write_now_loop : List Response → Bool → Outcome (Option Error)
write_now_loop [] true = done none
write_now_loop [] false = stuck
write_now_loop (r ∷ rs) closed =
    let rest = write_now_loop rs closed in unless_err r.err (λ e. done (some e)) rest

unfoldable pub write_now : Arrivals → Outcome (Option Error)
write_now c = write_now_loop c.responses c.closed

-- `r := <-rc`: a closed channel gives the zero response.
unfoldable pub receive : List Response → Bool → Outcome Response
receive (r ∷ rs) closed = done r
receive [] true = done (record { err = none; code = success; data_u32 = none; data_b = none })
receive [] false = stuck

first_word : Option Error → List ℕ → Outcome (ℕ × Option Error)
first_word none words = do u ← or_panic (get_elem? words 0); done (u, none)
first_word (some e) words = done (0, some e)

-- `MaskedWriteNow` behind the dispatch; the error is that of `MaskedWrite`.
unfoldable pub masked_write_now : Option Error → Arrivals → Outcome (ℕ × Option Error)
unfolding first_word
masked_write_now (some e) c = done (0, some e)
masked_write_now none c = do
  r ← receive c.responses c.closed
  first_word r.err (words_of r.data_u32)

masked_word : Register → String → List ℕ × Option Error → Outcome (ℕ × Option Error)
masked_word reg mask (words, some e) = done (0, some e)
masked_word reg mask (words, none) = do
  u ← or_panic (get_elem? words 0)
  done (read_mask reg mask u)

unfoldable pub masked_read_now : Register → String → Arrivals → Outcome (ℕ × Option Error)
unfolding masked_word
masked_read_now reg mask c = do r ← read_now c; masked_word reg mask r
