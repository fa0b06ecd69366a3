-- ===== src/PacketLog/Refine.antt =====
-- Whatever is sent to the goroutine of a packet log, it answers as a function from ids does.
use ipbus.Common.{arith, ℕ, ◌≡◌, refl, List, [], ◌∷◌, Option, none, some, ◌==◌, if◌then◌else◌}
use ipbus.PacketLog.{
  PacketLog, Message, chadd, chget, chgetall, chremove, Answer, nothing, one, serve, lookup,
  new_packet_log, collect, received,
}
use ipbus.PacketLog.Laws.{IsMap, IsMap-delete, IsMap-put, lookup-delete, lookup-put, lookup-collect}

module _ {ℓ} {P : Type ℓ} where
  -- The function after a message.
  abbrev pub updated : (ℕ → Option P) → Message P → ℕ → Option P
  updated f (chadd id pack) k = if id == k then some pack else f k
  updated f (chremove id) k = if id == k then none else f k
  updated f _ k = f k

  -- The answer that the function requires. What `getall` makes of its answer is a map that agrees
  -- with the function.
  abbrev pub IsAnswer : (ℕ → Option P) → Message P → Answer P → Type ℓ
  IsAnswer f (chget id) a = a ≡ one (f id)
  IsAnswer f chgetall a = (k : ℕ) → lookup (collect [] (received a)) k ≡ f k
  IsAnswer f _ a = a ≡ nothing

  abbrev pub AreAnswers : (ℕ → Option P) → PacketLog P → List (Message P) → Type ℓ
  AreAnswers f l [] = Unit
  AreAnswers f l (m ∷ ms) = IsAnswer f m (serve l m).1 × AreAnswers (updated f m) (serve l m).0 ms

  serve_lem :
      (ms : List (Message P)) (f : ℕ → Option P) (l : PacketLog P)
      → IsMap l.packets
      → ((k : ℕ) → lookup l.packets k ≡ f k)
      → AreAnswers f l ms
  unfolding serve
  serve_lem [] f l v h = tt
  serve_lem (chadd id pack ∷ ms) f l v h = (
    refl,
    serve_lem ms _ _ (IsMap-put l.packets id pack v)
        (λ k. rw (lookup-put l.packets id k pack, h k) refl),
  )
  serve_lem (chget id ∷ ms) f l v h = (rw (h id) refl, serve_lem ms f l v h)
  serve_lem (chgetall ∷ ms) f l v h = (λ k. all_there k, serve_lem ms f l v h)
    where
      all_there : (k : ℕ) → lookup (collect [] l.packets) k ≡ f k
      all_there k = ground (arith, lookup-collect l.packets [] k v, h k, nothing_yet)
        where
          nothing_yet : lookup {P = P} [] k ≡ none
          nothing_yet = unfold lookup in refl
  serve_lem (chremove id ∷ ms) f l v h = (
    refl,
    serve_lem ms _ _ (IsMap-delete l.packets id v)
        (λ k. rw (lookup-delete l.packets id k, h k) refl),
  )

  -- Whatever the messages that come to the goroutine of a new packet log, and in whatever order: the
  -- answer to each is that of a function from ids which a `chadd` sets at its id, a `chremove`
  -- clears at its id, a `chget` reads, and which the map that `getall` makes of its answer agrees
  -- with.
  pub serve-AreAnswers : (ms : List (Message P)) → AreAnswers (λ _. none) new_packet_log ms
  serve-AreAnswers ms = serve_lem ms (λ _. none) new_packet_log tt (λ k. unfold lookup in refl)
