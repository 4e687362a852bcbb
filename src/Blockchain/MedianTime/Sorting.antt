-- ===== src/Blockchain/MedianTime/Sorting.antt =====
-- The sorting of the offsets of blockchain/mediantime.go: it keeps the counts, and in a sorted list an
-- index bounds how many elements are smaller and how many are larger.
use mathlib.Core.Option.{some-injective}
use elastos_ela_side_chain.Common.{
  ℕ, zero, suc, ◌+◌, ◌≤◌, ◌<◌, ◌≡◌, refl, ◌∙◌, ap, subst, Bool, true, false, some, List, [], ◌∷◌,
  length, get_elem?, if◌then◌else◌, arith, All, All-map, All-get_elem?,
}
use elastos_ela_side_chain.Common.Int.{ℤ, leb_ℤ, ltb_ℤ, ◌≤ℤ◌}
use elastos_ela_side_chain.Blockchain.MedianTime.{insert_sorted, sort}

-- How many elements of a list pass a test.
abbrev pub count : (ℤ → Bool) → List ℤ → ℕ
count p [] = 0
count p (a ∷ xs) = (if p a then 1 else 0) + count p xs

insert_sorted-count :
    (p : ℤ → Bool) (a : ℤ) (bs : List ℤ) → count p (insert_sorted a bs) ≡ count p (a ∷ bs)
insert_sorted-count p a [] = refl
insert_sorted-count p a (b ∷ bs) = go (leb_ℤ a b) (insert_sorted-count p a bs)
  where
    go :
        (t : Bool)
        → count p (insert_sorted a bs) ≡ count p (a ∷ bs)
        → count p (if t then a ∷ b ∷ bs else b ∷ insert_sorted a bs) ≡ count p (a ∷ b ∷ bs)
    go true h = refl
    go false h = omega arith

pub sort-count : (p : ℤ → Bool) (xs : List ℤ) → count p (sort xs) ≡ count p xs
sort-count p [] = refl
sort-count p (a ∷ xs) = omega (arith, insert_sorted-count p a (sort xs), sort-count p xs)

insert_sorted-length : (a : ℤ) (bs : List ℤ) → length (insert_sorted a bs) ≡ suc (length bs)
insert_sorted-length a [] = refl
insert_sorted-length a (b ∷ bs) = go (leb_ℤ a b) (insert_sorted-length a bs)
  where
    go :
        (t : Bool)
        → length (insert_sorted a bs) ≡ suc (length bs)
        → length (if t then a ∷ b ∷ bs else b ∷ insert_sorted a bs) ≡ suc (suc (length bs))
    go true h = refl
    go false h = ap suc h

pub sort-length : (xs : List ℤ) → length (sort xs) ≡ length xs
sort-length [] = refl
sort-length (a ∷ xs) = insert_sorted-length a (sort xs) ∙ ap suc (sort-length xs)

abbrev pub IsSorted : List ℤ → Type 0
IsSorted [] = Unit
IsSorted (a ∷ xs) = All (λ b. a ≤ℤ b) xs × IsSorted xs

insert_sorted-All :
    (P : ℤ → Type 0) (a : ℤ) (bs : List ℤ) → P a → All P bs → All P (insert_sorted a bs)
insert_sorted-All P a [] pa h = (pa, tt)
insert_sorted-All P a (b ∷ bs) pa h = go (leb_ℤ a b) (insert_sorted-All P a bs pa h.1)
  where
    go :
        (t : Bool)
        → All P (insert_sorted a bs)
        → All P (if t then a ∷ b ∷ bs else b ∷ insert_sorted a bs)
    go true rest = (pa, h)
    go false rest = (h.0, rest)

insert_sorted-IsSorted : (a : ℤ) (bs : List ℤ) → IsSorted bs → IsSorted (insert_sorted a bs)
insert_sorted-IsSorted a [] h = (tt, tt)
insert_sorted-IsSorted a (b ∷ bs) h = go (leb_ℤ a b) refl (insert_sorted-IsSorted a bs h.1)
  where
    go :
        (t : Bool)
        → leb_ℤ a b ≡ t
        → IsSorted (insert_sorted a bs)
        → IsSorted (if t then a ∷ b ∷ bs else b ∷ insert_sorted a bs)
    go true e rest =
        let below : a ≤ℤ b = ground arith in
        ((below, All-map bs (λ c (b_c : b ≤ℤ c). omega arith) h.0), h)
    go false e rest =
        let below : b ≤ℤ a = ground arith in (insert_sorted-All (λ c. b ≤ℤ c) a bs below h.0, rest)

pub sort-IsSorted : (xs : List ℤ) → IsSorted (sort xs)
sort-IsSorted [] = tt
sort-IsSorted (a ∷ xs) = insert_sorted-IsSorted a (sort xs) (sort-IsSorted xs)

abbrev pub below : ℤ → ℤ → Bool
below v a = ltb_ℤ a v

abbrev pub above : ℤ → ℤ → Bool
above v a = ltb_ℤ v a

count-length : (p : ℤ → Bool) (xs : List ℤ) → count p xs ≤ length xs
count-length p [] = omega arith
count-length p (a ∷ xs) = go (p a) (count-length p xs)
  where
    go : (t : Bool) → count p xs ≤ length xs → (if t then 1 else 0) + count p xs ≤ suc (length xs)
    go true h = omega arith
    go false h = omega arith

not_below : (v : ℤ) → ltb_ℤ v v ≡ false
not_below v = ground arith

-- No element of a list is below a lower bound of it.
below-zero : (v : ℤ) (xs : List ℤ) → All (λ a. v ≤ℤ a) xs → count (below v) xs ≡ 0
below-zero v [] h = refl
below-zero v (a ∷ xs) h =
    let least : v ≤ℤ a = h.0 in
    let no : ltb_ℤ a v ≡ false = ground arith in rw no (omega (arith, below-zero v xs h.1))

pub IsSorted-below :
    (xs : List ℤ) (i : ℕ) {v : ℤ} → IsSorted xs → get_elem? xs i ≡ some v → count (below v) xs ≤ i
IsSorted-below [] i h e = cc
IsSorted-below (a ∷ xs) zero {v} h e =
    let same : a ≡ v = some-injective _ _ e in
    let no : ltb_ℤ a v ≡ false = rw same (not_below v) in
    rw no (omega (arith, below-zero v xs (subst (λ w. All (λ b. w ≤ℤ b) xs) same h.0)))
IsSorted-below (a ∷ xs) (suc i) {v} h e = go (below v a) (IsSorted-below xs i h.1 e)
  where
    go : (t : Bool) → count (below v) xs ≤ i → (if t then 1 else 0) + count (below v) xs ≤ suc i
    go true n = omega arith
    go false n = omega arith

pub IsSorted-above :
    (xs : List ℤ) (i : ℕ) {v : ℤ}
    → IsSorted xs
    → get_elem? xs i ≡ some v
    → count (above v) xs + i < length xs
IsSorted-above [] i h e = cc
IsSorted-above (a ∷ xs) zero {v} h e =
    let same : a ≡ v = some-injective _ _ e in
    let no : ltb_ℤ v a ≡ false = rw same (not_below v) in
    rw no (omega (arith, count-length (above v) xs))
IsSorted-above (a ∷ xs) (suc i) {v} h e =
    let least : a ≤ℤ v = All-get_elem? (λ b. a ≤ℤ b) xs i h.0 e in
    let no : ltb_ℤ v a ≡ false = ground arith in rw no (omega (arith, IsSorted-above xs i h.1 e))
