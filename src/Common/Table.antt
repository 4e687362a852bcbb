-- ===== src/Common/Table.antt =====
-- A Go map with hashes or other numbers for keys: the newest entry stands first, and a key stands
-- at most once.
use elastos_ela_side_chain.Common.{
  ℕ, ◌≡◌, refl, Option, none, some, List, [], ◌∷◌, arith, ◌==◌, ==_iff, ◌∙◌, Bool, true, false,
  if◌then◌else◌,
}

abbrev pub Table {ℓ} : Type ℓ → Type ℓ
Table V = List (ℕ × V)

module _ {ℓ} {V : Type ℓ} where
  -- `m[k]`
  unfoldable pub lookup : ℕ → Table V → Option V
  lookup k [] = none
  lookup k (entry ∷ m) = if entry.0 == k then some entry.1 else lookup k m

  -- `delete(m, k)`
  unfoldable pub erase : ℕ → Table V → Table V
  erase k [] = []
  erase k (entry ∷ m) = let rest = erase k m in if entry.0 == k then rest else entry ∷ rest

  -- `m[k] = v`
  unfoldable pub insert : ℕ → V → Table V → Table V
  insert k v m = (k, v) ∷ erase k m

  pub lookup-erase :
      (k j : ℕ) (m : Table V) → lookup j (erase k m) ≡ (if k == j then none else lookup j m)
  unfolding lookup erase
  lookup-erase k j [] = ground arith
  lookup-erase k j (entry ∷ m) = ground (arith, lookup-erase k j m)

  pub lookup-insert :
      (k j : ℕ) (v : V) (m : Table V)
      → lookup j (insert k v m) ≡ (if k == j then some v else lookup j m)
  unfolding lookup insert
  lookup-insert k j v m = ground (arith, lookup-erase k j m)

  pub lookup-empty : (k : ℕ) → lookup k [] ≡ none
  unfolding lookup
  lookup-empty k = refl

  -- Each key stands once.
  abbrev pub IsDistinct : Table V → Type ℓ
  IsDistinct [] = Unit
  IsDistinct (entry ∷ m) = (lookup entry.0 m ≡ none) × IsDistinct m

  lookup-erase-none : (k j : ℕ) (m : Table V) → lookup j m ≡ none → lookup j (erase k m) ≡ none
  lookup-erase-none k j m missing = ground (arith, lookup-erase k j m)

  pub erase-IsDistinct : (k : ℕ) (m : Table V) → IsDistinct m → IsDistinct (erase k m)
  unfolding erase
  erase-IsDistinct k [] d = tt
  erase-IsDistinct k (entry ∷ m) d = go (entry.0 == k) (erase-IsDistinct k m d.1)
    where
      go :
          (t : Bool)
          → IsDistinct (erase k m)
          → IsDistinct (if t then erase k m else entry ∷ erase k m)
      go true rest = rest
      go false rest = (lookup-erase-none k entry.0 m d.0, rest)

  pub insert-IsDistinct : (k : ℕ) (v : V) (m : Table V) → IsDistinct m → IsDistinct (insert k v m)
  unfolding insert
  insert-IsDistinct k v m d =
      (lookup-erase k k m ∙ ground (arith, ==_iff k k), erase-IsDistinct k m d)
