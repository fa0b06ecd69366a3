-- ===== src/Hw/Trace/Requests.antt =====
-- What packets ask for, beside the ids under which they are in the logs.
use ipbus.Common.{
  false, ◌||◌, ◌==◌, ℕ, ◌≡◌, refl, sym, ap, ap₂, subst, ◌∙◌, List, [], ◌∷◌, ◌++◌, map, arith,
}
use ipbus.Packet.{Packet}
use ipbus.Hw.Answer.{Asked, ask_of, IsReply, AreReplies}
use ipbus.Hw.Ids.{mem}
use ipbus.Hw.SendNext.Window.{AreFor}

-- The packets ask for what is asked under the ids, one after the other.
abbrev pub Ask : (ℕ → Asked) → List ℕ → List Packet → Type 0
Ask asks [] [] = Unit
Ask asks (x ∷ xs) (p ∷ ps) = (ask_of p ≡ asks x) × Ask asks xs ps
Ask asks _ _ = ⊥

pub Ask-split :
    (asks : ℕ → Asked) (xs ys : List ℕ) (ps : List Packet)
    → Ask asks (xs ++ ys) ps
    → (first later : List Packet) × (ps ≡ first ++ later) × Ask asks xs first × Ask asks ys later
Ask-split asks [] ys ps a = ([], ps, refl, tt, a)
Ask-split asks (x ∷ xs) ys [] a = absurd a
Ask-split asks (x ∷ xs) ys (p ∷ ps) (e, a) =
    let (first, later, split, front, back) = Ask-split asks xs ys ps a in
    (p ∷ first, later, ap (λ l. p ∷ l) split, (e, front), back)

pub Ask-append :
    (asks asks' : ℕ → Asked) (xs : List ℕ) (x : ℕ) (ps : List Packet) (p : Packet)
    → mem xs x ≡ false
    → ((k : ℕ) → (x == k) ≡ false → asks' k ≡ asks k)
    → ask_of p ≡ asks' x
    → Ask asks xs ps
    → Ask asks' (xs ++ (x ∷ [])) (ps ++ (p ∷ []))
Ask-append asks asks' [] x [] p fresh agree e a = (e, tt)
Ask-append asks asks' [] x (q ∷ ps) p fresh agree e a = absurd a
Ask-append asks asks' (y ∷ xs) x [] p fresh agree e a = absurd a
Ask-append asks asks' (y ∷ xs) x (q ∷ ps) p fresh agree e (f, a) =
    (f ∙ sym (agree y (apart fresh)), Ask-append asks asks' xs x ps p (others fresh) agree e a)
  where
    apart : (y == x || mem xs x) ≡ false → (x == y) ≡ false
    apart h = ground arith

    others : (y == x || mem xs x) ≡ false → mem xs x ≡ false
    others h = ground arith

pub AreFor-Ask :
    (asks : ℕ → Asked) (arrived : List (List ℕ)) (xs : List ℕ) (ps qs : List Packet)
    → AreFor asks arrived xs ps
    → Ask asks xs qs
    → AreReplies arrived qs ps
AreFor-Ask asks arrived [] [] [] f a = tt
AreFor-Ask asks arrived (x ∷ xs) (p ∷ ps) (q ∷ qs) (f, fs) (a, back) =
    (subst (λ ask. IsReply arrived ask p) (sym a) f.1, AreFor-Ask asks arrived xs ps qs fs back)
AreFor-Ask asks arrived [] (p ∷ ps) qs f a = absurd f
AreFor-Ask asks arrived (x ∷ xs) [] qs f a = absurd f
AreFor-Ask asks arrived [] [] (q ∷ qs) f a = absurd a
AreFor-Ask asks arrived (x ∷ xs) (p ∷ ps) [] f a = absurd a

pub AreFor-ids :
    (asks : ℕ → Asked) (arrived : List (List ℕ)) (xs : List ℕ) (ps : List Packet)
    → AreFor asks arrived xs ps
    → map (λ p. p.id) ps ≡ xs
AreFor-ids asks arrived [] [] f = refl
AreFor-ids asks arrived (x ∷ xs) (p ∷ ps) (f, fs) = ap₂ ◌∷◌ f.0 (AreFor-ids asks arrived xs ps fs)
AreFor-ids asks arrived [] (p ∷ ps) f = absurd f
AreFor-ids asks arrived (x ∷ xs) [] f = absurd f
