-- ===== src/Blockchain/Orphans/Remove.antt =====
-- blockchain/blockchain.go: what `RemoveOrphanBlock` leaves in the maps.
use elastos_ela_side_chain.Common.{
  ℕ, suc, ◌≤◌, ◌<◌, ◌≡◌, refl, sym, ◌∙◌, ap, Bool, true, false, Option, none, some, List, [], ◌∷◌,
  length, ◌==◌, if◌then◌else◌, arith,
}
use elastos_ela_side_chain.Common.Table.{Table, lookup, erase, lookup-insert, lookup-erase}
use elastos_ela_side_chain.Blockchain.Orphans.{
  Orphan, OrphanPool, orphans_or_nil, waiting, without_hash, put_or_delete, remove_orphan_block,
}

pub waiting-put_or_delete :
    (p q : ℕ) (l : List Orphan) (m : Table (List Orphan))
    → orphans_or_nil (lookup q (put_or_delete p l m))
      ≡ (if p == q then l else orphans_or_nil (lookup q m))
waiting-put_or_delete p q [] m = ap orphans_or_nil (lookup-erase p q m) ∙ go (p == q)
  where
    go :
        (t : Bool)
        → orphans_or_nil (if t then none else lookup q m)
          ≡ (if t then [] else orphans_or_nil (lookup q m))
    go true = refl
    go false = refl
waiting-put_or_delete p q (o ∷ l) m = ap orphans_or_nil (lookup-insert p q (o ∷ l) m) ∙ go (p == q)
  where
    go :
        (t : Bool)
        → orphans_or_nil (if t then some (o ∷ l) else lookup q m)
          ≡ (if t then o ∷ l else orphans_or_nil (lookup q m))
    go true = refl
    go false = refl

-- The lists after a removal.
pub waiting-remove_orphan_block :
    (orphan : Orphan) (pool : OrphanPool) (q : ℕ)
    → waiting q (remove_orphan_block orphan pool) ≡ (
        if orphan.previous == q
        then without_hash orphan.hash (waiting orphan.previous pool)
        else waiting q pool)
unfolding remove_orphan_block
waiting-remove_orphan_block orphan pool q =
    waiting-put_or_delete orphan.previous q _ pool.prev_orphans

pub lookup-remove_orphan_block :
    (orphan : Orphan) (pool : OrphanPool) (h : ℕ)
    → lookup h (remove_orphan_block orphan pool).orphans
      ≡ (if orphan.hash == h then none else lookup h pool.orphans)
unfolding remove_orphan_block
lookup-remove_orphan_block orphan pool h = lookup-erase orphan.hash h pool.orphans

module _ {ℓ} {V : Type ℓ} where
  pub lookup-erase-some :
      (k j : ℕ) (m : Table V) {v : V}
      → lookup j (erase k m) ≡ some v
      → ((k == j) ≡ false) × (lookup j m ≡ some v)
  lookup-erase-some k j m {v} e = go (k == j) refl (sym (lookup-erase k j m) ∙ e)
    where
      go :
          (t : Bool)
          → (k == j) ≡ t
          → (if t then none else lookup j m) ≡ some v
          → ((k == j) ≡ false) × (lookup j m ≡ some v)
      go true same h = cc
      go false other h = (other, h)

  pub length-erase_le : (k : ℕ) (m : Table V) → length (erase k m) ≤ length m
  unfolding erase
  length-erase_le k [] = omega arith
  length-erase_le k (entry ∷ m) = go (entry.0 == k) (length-erase_le k m)
    where
      go :
          (t : Bool)
          → length (erase k m) ≤ length m
          → length (if t then erase k m else entry ∷ erase k m) ≤ suc (length m)
      go true h = omega arith
      go false h = omega arith

  -- A key that is there leaves a smaller table.
  pub length-erase_lt :
      (k : ℕ) (m : Table V) {v : V} → lookup k m ≡ some v → length (erase k m) < length m
  unfolding erase lookup
  length-erase_lt k [] e = cc
  length-erase_lt k (entry ∷ m) {v} e =
      go (entry.0 == k) e (length-erase_le k m) (λ h. length-erase_lt k m {v = v} h)
    where
      go :
          (t : Bool)
          → (if t then some entry.1 else lookup k m) ≡ some v
          → length (erase k m) ≤ length m
          → (lookup k m ≡ some v → length (erase k m) < length m)
          → length (if t then erase k m else entry ∷ erase k m) < suc (length m)
      go true h le ih = omega arith
      go false h le ih = let lt = ih h in omega arith

  pub length-erase-none : (k : ℕ) (m : Table V) → lookup k m ≡ none → length (erase k m) ≡ length m
  unfolding erase lookup
  length-erase-none k [] e = refl
  length-erase-none k (entry ∷ m) e = go (entry.0 == k) e (λ h. length-erase-none k m h)
    where
      go :
          (t : Bool)
          → (if t then some entry.1 else lookup k m) ≡ none
          → (lookup k m ≡ none → length (erase k m) ≡ length m)
          → length (if t then erase k m else entry ∷ erase k m) ≡ suc (length m)
      go true h ih = cc
      go false h ih = ap suc (ih h)

-- A table with no other entries, and no more of them.
pub record Shrinks (m m' : Table Orphan) : Type 0 where
  pub kept : (h : ℕ) (o : Orphan) → lookup h m' ≡ some o → lookup h m ≡ some o
  pub shorter : length m' ≤ length m

pub Shrinks-same : (m : Table Orphan) → Shrinks m m
Shrinks-same m = record { kept = λ h o e. e; shorter = omega arith }

pub Shrinks-then : (m m' m'' : Table Orphan) → Shrinks m m' → Shrinks m' m'' → Shrinks m m''
Shrinks-then m m' m'' a b = record {
  kept = λ h o e. a.kept h o (b.kept h o e);
  shorter = (let x = a.shorter in let y = b.shorter in omega arith);
}

pub Shrinks-erase : (k : ℕ) (m : Table Orphan) → Shrinks m (erase k m)
Shrinks-erase k m = record {
  kept = λ h o e. (lookup-erase-some k h m e).1;
  shorter = length-erase_le k m;
}

pub Shrinks-none :
    (m m' : Table Orphan) (h : ℕ) → Shrinks m m' → lookup h m ≡ none → lookup h m' ≡ none
Shrinks-none m m' h s missing = go (lookup h m') refl
  where
    go : (found : Option Orphan) → lookup h m' ≡ found → found ≡ none
    go none e = refl
    go (some o) e = cc (sym missing ∙ s.kept h o e)
