-- ===== src/Blockchain/Orphans/Listed.antt =====
-- blockchain/blockchain.go: the orphans that wait for a block.
use elastos_ela_side_chain.Common.{
  ℕ, ◌≡◌, refl, sym, ◌∙◌, ap, Bool, true, false, ◌||◌, List, [], ◌∷◌, ◌++◌, ◌==◌, ==_iff, ==_false,
  if◌then◌else◌, All,
}
use elastos_ela_side_chain.Blockchain.Orphans.{Orphan, without_hash}

abbrev pub is_listed : ℕ → List Orphan → Bool
is_listed hash [] = false
is_listed hash (orphan ∷ orphans) = (orphan.hash == hash) || is_listed hash orphans

pub is_listed-without_hash :
    (k h : ℕ) (l : List Orphan) → (k == h) ≡ false → is_listed h (without_hash k l) ≡ is_listed h l
unfolding without_hash
is_listed-without_hash k h [] other = refl
is_listed-without_hash k h (o ∷ l) other =
    go (o.hash == k) refl (is_listed-without_hash k h l other)
  where
    go :
        (t : Bool)
        → (o.hash == k) ≡ t
        → is_listed h (without_hash k l) ≡ is_listed h l
        → is_listed h (if t then without_hash k l else o ∷ without_hash k l)
          ≡ ((o.hash == h) || is_listed h l)
    go true same ih =
        let different : (o.hash == h) ≡ false = ap (λ x. x == h) ((==_iff _ _).0 same) ∙ other in
        rw different ih
    go false same ih = ap (λ b. (o.hash == h) || b) ih

pub is_listed-append :
    (h : ℕ) (l : List Orphan) (o : Orphan)
    → is_listed h l ≡ true
    → is_listed h (l ++ (o ∷ [])) ≡ true
is_listed-append h [] o e = cc
is_listed-append h (x ∷ l) o e = go (x.hash == h) e (is_listed-append h l o)
  where
    go :
        (t : Bool)
        → (t || is_listed h l) ≡ true
        → (is_listed h l ≡ true → is_listed h (l ++ (o ∷ [])) ≡ true)
        → (t || is_listed h (l ++ (o ∷ []))) ≡ true
    go true e ih = refl
    go false e ih = ih e

pub is_listed-last : (l : List Orphan) (o : Orphan) → is_listed o.hash (l ++ (o ∷ [])) ≡ true
is_listed-last [] o = ap (λ b. b || false) ((==_iff o.hash o.hash).1 refl)
is_listed-last (x ∷ l) o = go (x.hash == o.hash) (is_listed-last l o)
  where
    go :
        (t : Bool)
        → is_listed o.hash (l ++ (o ∷ [])) ≡ true
        → (t || is_listed o.hash (l ++ (o ∷ []))) ≡ true
    go true e = refl
    go false e = e

pub All-append {κ} :
    (P : Orphan → Type κ) (l : List Orphan) (o : Orphan) → All P l → P o → All P (l ++ (o ∷ []))
All-append P [] o h p = (p, tt)
All-append P (x ∷ l) o h p = (h.0, All-append P l o h.1 p)

pub All-without_hash {κ} :
    (P : Orphan → Type κ) (k : ℕ) (l : List Orphan)
    → All P l
    → All (λ o. ((k == o.hash) ≡ false) × P o) (without_hash k l)
unfolding without_hash
All-without_hash P k [] h = tt
All-without_hash P k (o ∷ l) h = go (o.hash == k) refl (All-without_hash P k l h.1)
  where
    go :
        (t : Bool)
        → (o.hash == k) ≡ t
        → All (λ q. ((k == q.hash) ≡ false) × P q) (without_hash k l)
        → All
            (λ q. ((k == q.hash) ≡ false) × P q)
            (if t then without_hash k l else o ∷ without_hash k l)
    go true same ih = ih
    go false other ih =
        ((==_false (λ (e : k ≡ o.hash). cc (sym other ∙ (==_iff o.hash k).1 (sym e))), h.0), ih)
