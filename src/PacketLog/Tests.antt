-- ===== src/PacketLog/Tests.antt =====
-- A packet log answers some messages, the packets being numbers.
use ipbus.Common.{ℕ, ◌≡◌, refl, List, [], ◌∷◌, none}
use ipbus.PacketLog.{
  Message, chadd, chget, chgetall, chremove, new_packet_log, add, getall, remove, delete, put,
  serve, collect,
}
use ipbus.PacketLog.Refine.{AreAnswers, serve-AreAnswers}

answers : getall (remove {P = ℕ} (add (add (add new_packet_log 5 50) 6 60) 5 51) 6) ≡ (5, 51) ∷ []
unfolding add remove getall serve put delete collect
answers = refl

abbrev some_messages : List (Message ℕ)
some_messages =
    chadd 5 50 ∷ chadd 6 60 ∷ chget 5 ∷ chadd 5 51 ∷ chgetall ∷ chremove 5 ∷ chget 5 ∷ []

serve-AreAnswers_example : AreAnswers (λ _. none) new_packet_log some_messages
serve-AreAnswers_example = serve-AreAnswers some_messages
