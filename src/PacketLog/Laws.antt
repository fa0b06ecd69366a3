-- ===== src/PacketLog/Laws.antt =====
-- A packet log is a finite map: what its methods answer after one another.
use ipbus.Common.{
  ℕ, ◌+◌, ◌≡◌, refl, sym, ap, ◌∙◌, Bool, true, false, not, ◌&&◌, ◌||◌, List, [], ◌∷◌, none, some,
  length, arith, ◌==◌, ==_iff, if◌then◌else◌,
}
use ipbus.PacketLog.{
  PacketLog, lookup, delete, put, serve, collect, add, get, getall, remove, has, is_some,
}

module _ {ℓ} {P : Type ℓ} where
  pub lookup-delete :
      (l : List (ℕ × P)) (j k : ℕ) → lookup (delete l j) k ≡ (if j == k then none else lookup l k)
  unfolding lookup delete
  lookup-delete [] j k = ground arith
  lookup-delete ((i, p) ∷ l) j k = ground (arith, lookup-delete l j k)

  pub lookup-put :
      (l : List (ℕ × P)) (j k : ℕ) (p : P)
      → lookup (put l j p) k ≡ (if j == k then some p else lookup l k)
  unfolding lookup put
  lookup-put l j k p = ground (arith, lookup-delete l j k)

  pub get-add :
      (l : PacketLog P) (j k : ℕ) (p : P) → get (add l j p) k ≡ (if j == k then some p else get l k)
  unfolding get add serve
  get-add l j k p = lookup-put l.packets j k p

  pub get-remove :
      (l : PacketLog P) (j k : ℕ) → get (remove l j) k ≡ (if j == k then none else get l k)
  unfolding get remove serve
  get-remove l j k = lookup-delete l.packets j k

  pub has-some : (l : PacketLog P) (k : ℕ) {p : P} → get l k ≡ some p → has l k ≡ true
  unfolding has
  has-some l k e = ap is_some e

  pub has-none : (l : PacketLog P) (k : ℕ) → get l k ≡ none → has l k ≡ false
  unfolding has
  has-none l k e = ap is_some e

  pub has-add : (l : PacketLog P) (j k : ℕ) (p : P) → has (add l j p) k ≡ (j == k || has l k)
  unfolding has
  has-add l j k p = ground (arith, get-add l j k p)

  pub has-remove : (l : PacketLog P) (j k : ℕ) → has (remove l j) k ≡ (not (j == k) && has l k)
  unfolding has
  has-remove l j k = ground (arith, get-remove l j k)

  -- No id has two entries.
  abbrev pub IsMap : List (ℕ × P) → Type ℓ
  IsMap [] = Unit
  IsMap ((j, p) ∷ l) = (lookup l j ≡ none) × IsMap l

  pub lookup-collect :
      (l m : List (ℕ × P)) (k : ℕ)
      → IsMap l
      → lookup (collect m l) k ≡ (if is_some (lookup l k) then lookup l k else lookup m k)
  unfolding lookup collect
  lookup-collect [] m k v = refl
  lookup-collect ((j, p) ∷ l) m k (fresh, v) =
      ground (arith, lookup-collect l (put m j p) k v, lookup-put m j k p, other)
    where
      other : (j == k) ≡ true → lookup l k ≡ none
      other e = ap (lookup l) (sym ((==_iff j k).0 e)) ∙ fresh

  pub IsMap-delete : (l : List (ℕ × P)) (k : ℕ) → IsMap l → IsMap (delete l k)
  unfolding delete
  IsMap-delete [] k v = tt
  IsMap-delete ((j, p) ∷ l) k (fresh, v) = by_key (j == k) (IsMap-delete l k v)
    where
      kept : lookup (delete l k) j ≡ none
      kept = ground (arith, lookup-delete l k j)

      by_key :
          (b : Bool) → IsMap (delete l k) → IsMap (if b then delete l k else (j, p) ∷ delete l k)
      by_key true rest = rest
      by_key false rest = (kept, rest)

  pub IsMap-put : (l : List (ℕ × P)) (k : ℕ) (p : P) → IsMap l → IsMap (put l k p)
  unfolding put
  IsMap-put l k p v = (ground (arith, lookup-delete l k k), IsMap-delete l k v)

  delete_fresh : (l : List (ℕ × P)) (k : ℕ) → lookup l k ≡ none → delete l k ≡ l
  unfolding lookup delete
  delete_fresh [] k h = refl
  delete_fresh ((j, p) ∷ l) k h = ground (arith, delete_fresh l k)

  length-delete :
      (l : List (ℕ × P)) (k : ℕ)
      → IsMap l
      → is_some (lookup l k) ≡ true
      → length l ≡ length (delete l k) + 1
  unfolding lookup delete
  length-delete [] k v h = cc
  length-delete ((j, p) ∷ l) k (fresh, v) h = ground (arith, length-delete l k v, other)
    where
      other : (j == k) ≡ true → delete l k ≡ l
      other e = delete_fresh l k (ap (lookup l) (sym ((==_iff j k).0 e)) ∙ fresh)

  -- The number of packets in a log.
  abbrev pub size : PacketLog P → ℕ
  size l = length l.packets

  pub size-add : (l : PacketLog P) (k : ℕ) (p : P) → has l k ≡ false → size (add l k p) ≡ size l + 1
  unfolding has get add serve put
  size-add l k p h = ground (arith, delete_fresh l.packets k)

  pub size-remove :
      (l : PacketLog P) (k : ℕ) → IsMap l.packets → has l k ≡ true → size l ≡ size (remove l k) + 1
  unfolding has get remove serve
  size-remove l k v h = length-delete l.packets k v h

  pub size-add_again :
      (l : PacketLog P) (k : ℕ) (p : P)
      → IsMap l.packets
      → has l k ≡ true
      → size (add l k p) ≡ size l
  unfolding has get add serve put
  size-add_again l k p v h = omega (arith, length-delete l.packets k v h)

  pub IsMap-add : (l : PacketLog P) (k : ℕ) (p : P) → IsMap l.packets → IsMap (add l k p).packets
  unfolding add serve
  IsMap-add l k p v = IsMap-put l.packets k p v

  pub IsMap-remove : (l : PacketLog P) (k : ℕ) → IsMap l.packets → IsMap (remove l k).packets
  unfolding remove serve
  IsMap-remove l k v = IsMap-delete l.packets k v

  pub get-getall : (l : PacketLog P) (k : ℕ) → IsMap l.packets → lookup (getall l) k ≡ get l k
  unfolding get getall serve
  get-getall l k v = ground (arith, lookup-collect l.packets [] k v, nothing_yet)
    where
      nothing_yet : lookup {P = P} [] k ≡ none
      nothing_yet = unfold lookup in refl
