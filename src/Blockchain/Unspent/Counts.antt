-- ===== src/Blockchain/Unspent/Counts.antt =====
-- blockchain/chaindata.go: how often an index stands in a value, which is what the order of the indexes
-- and the exchange of places at a removal do not change.
use elastos_ela_side_chain.Common.{
  ℕ, ◌+◌, ◌-◌, ◌^◌, ◌<◌, ◌≡◌, refl, ◌∙◌, ap, Bool, true, false, Option, none, some, List, [], ◌∷◌,
  ◌++◌, length, ◌==◌, ==_false, if◌then◌else◌, All, arith,
}
use elastos_ela_side_chain.Common.Table.{Table, lookup, insert, erase, lookup-insert, lookup-erase}
use elastos_ela_side_chain.Blockchain.Unspent.{
  get_uint16_array, to_byte_array, values_or_nil, last_of, without_last, swap_remove, put_unspents,
}
use elastos_ela_side_chain.Blockchain.Unspent.Bytes.{get_uint16_array-to_byte_array}

abbrev pub count : ℕ → List ℕ → ℕ
count i [] = 0
count i (x ∷ xs) = (if x == i then 1 else 0) + count i xs

pub count-append : (i : ℕ) (xs ys : List ℕ) → count i (xs ++ ys) ≡ count i xs + count i ys
count-append i [] ys = omega arith
count-append i (x ∷ xs) ys = omega (arith, count-append i xs ys)

count-last : (i y : ℕ) (ys : List ℕ) → count i (last_of y ys ∷ without_last y ys) ≡ count i (y ∷ ys)
count-last i y [] = refl
count-last i y (z ∷ ys) = omega (arith, count-last i z ys)

-- What is left after a removal.
pub count-swap_remove :
    (i index : ℕ) (xs : List ℕ)
    → count i (swap_remove index xs) ≡ count i xs - (if index == i then 1 else 0)
unfolding swap_remove
count-swap_remove i index [] = omega arith
count-swap_remove i index (x ∷ []) = ground arith
count-swap_remove i index (x ∷ y ∷ ys) =
    ground (arith, count-last i y ys, count-swap_remove i index (y ∷ ys))

-- Every number of a value is a uint16.
abbrev pub IsUint16 : List ℕ → Type 0
IsUint16 xs = All (λ x. x < 2 ^ 16) xs

pub append-IsUint16 : (xs : List ℕ) (x : ℕ) → IsUint16 xs → x < 2 ^ 16 → IsUint16 (xs ++ (x ∷ []))
append-IsUint16 [] x h small = (small, tt)
append-IsUint16 (y ∷ xs) x h small = (h.0, append-IsUint16 xs x h.1 small)

last-IsUint16 :
    (y : ℕ) (ys : List ℕ) → IsUint16 (y ∷ ys) → IsUint16 (last_of y ys ∷ without_last y ys)
last-IsUint16 y [] h = h
last-IsUint16 y (z ∷ ys) h = let rest = last-IsUint16 z ys h.1 in (rest.0, (h.0, rest.1))

pub swap_remove-IsUint16 : (index : ℕ) (xs : List ℕ) → IsUint16 xs → IsUint16 (swap_remove index xs)
unfolding swap_remove
swap_remove-IsUint16 index [] h = tt
swap_remove-IsUint16 index (x ∷ []) h = go (x == index)
  where
    go : (t : Bool) → IsUint16 (if t then [] else x ∷ swap_remove index [])
    go true = tt
    go false = h
swap_remove-IsUint16 index (x ∷ y ∷ ys) h =
    go (x == index) (swap_remove-IsUint16 index (y ∷ ys) h.1)
  where
    go :
        (t : Bool)
        → IsUint16 (swap_remove index (y ∷ ys))
        → IsUint16 (if t then last_of y ys ∷ without_last y ys else x ∷ swap_remove index (y ∷ ys))
    go true rest = last-IsUint16 y ys h.1
    go false rest = (h.0, rest)

abbrev pub decoded : Option (List ℕ) → List ℕ
decoded none = []
decoded (some bytes) = values_or_nil (get_uint16_array bytes)

-- The indexes that the database holds for a transaction.
abbrev pub stored : Table (List ℕ) → ℕ → List ℕ
stored db hash = decoded (lookup hash db)

abbrev pub or_stored : List ℕ → Option (List ℕ) → List ℕ
or_stored indexes none = indexes
or_stored indexes (some values) = values

-- The indexes of a transaction while the loops run: what the map has, or else what the database holds.
abbrev pub current : Table (List ℕ) → Table (List ℕ) → ℕ → List ℕ
current db unspents hash = or_stored (stored db hash) (lookup hash unspents)

pub current-insert :
    (db unspents : Table (List ℕ)) (hash h : ℕ) (values : List ℕ)
    → current db (insert hash values unspents) h
      ≡ (if hash == h then values else current db unspents h)
current-insert db unspents hash h values =
    ap (or_stored (stored db h)) (lookup-insert hash h values unspents) ∙ go (hash == h)
  where
    go :
        (t : Bool)
        → or_stored (stored db h) (if t then some values else lookup h unspents)
          ≡ (if t then values else current db unspents h)
    go true = refl
    go false = refl

-- Every value of the map is one of uint16.
abbrev pub Fits : Table (List ℕ) → Type 0
Fits unspents = All (λ (entry : ℕ × List ℕ). IsUint16 entry.1) unspents

pub lookup-Fits :
    (h : ℕ) (unspents : Table (List ℕ))
    → Fits unspents
    → IsUint16 (values_or_nil (lookup h unspents))
unfolding lookup
lookup-Fits h [] fits = tt
lookup-Fits h (entry ∷ unspents) fits = go (entry.0 == h) (lookup-Fits h unspents fits.1)
  where
    go :
        (t : Bool)
        → IsUint16 (values_or_nil (lookup h unspents))
        → IsUint16 (values_or_nil (if t then some entry.1 else lookup h unspents))
    go true rest = fits.0
    go false rest = rest

erase-Fits : (h : ℕ) (unspents : Table (List ℕ)) → Fits unspents → Fits (erase h unspents)
unfolding erase
erase-Fits h [] fits = tt
erase-Fits h (entry ∷ unspents) fits = go (entry.0 == h) (erase-Fits h unspents fits.1)
  where
    go :
        (t : Bool)
        → Fits (erase h unspents)
        → Fits (if t then erase h unspents else entry ∷ erase h unspents)
    go true rest = rest
    go false rest = (fits.0, rest)

pub insert-Fits :
    (hash : ℕ) (values : List ℕ) (unspents : Table (List ℕ))
    → IsUint16 values
    → Fits unspents
    → Fits (insert hash values unspents)
unfolding insert
insert-Fits hash values unspents small fits = (small, erase-Fits hash unspents fits)

put_one :
    (entry : ℕ × List ℕ) (db : Table (List ℕ)) (h : ℕ)
    → IsUint16 entry.1
    → stored
        (if length entry.1 == 0
          then erase entry.0 db
          else insert entry.0 (to_byte_array entry.1) db)
        h
      ≡ (if entry.0 == h then entry.1 else stored db h)
unfolding get_uint16_array
put_one (hash, []) db h small = ap decoded (lookup-erase hash h db) ∙ go (hash == h)
  where
    go : (t : Bool) → decoded (if t then none else lookup h db) ≡ (if t then [] else stored db h)
    go true = refl
    go false = refl
put_one (hash, x ∷ xs) db h small =
    let filled : (length (x ∷ xs) == 0) ≡ false = ==_false (omega arith) in
    rw filled (ap decoded (lookup-insert hash h (to_byte_array (x ∷ xs)) db) ∙ go (hash == h))
  where
    go :
        (t : Bool)
        → decoded (if t then some (to_byte_array (x ∷ xs)) else lookup h db)
          ≡ (if t then x ∷ xs else stored db h)
    go true = ap values_or_nil (get_uint16_array-to_byte_array (x ∷ xs) small)
    go false = refl

-- After the batch the database holds what the map has, and elsewhere what it held.
pub stored-put_unspents :
    (unspents db : Table (List ℕ)) (h : ℕ)
    → Fits unspents
    → stored (put_unspents unspents db) h ≡ current db unspents h
unfolding put_unspents lookup
stored-put_unspents [] db h fits = refl
stored-put_unspents (entry ∷ unspents) db h fits =
    put_one entry (put_unspents unspents db) h fits.0
    ∙ go (entry.0 == h) (stored-put_unspents unspents db h fits.1)
  where
    go :
        (t : Bool)
        → stored (put_unspents unspents db) h ≡ or_stored (stored db h) (lookup h unspents)
        → (if t then entry.1 else stored (put_unspents unspents db) h)
          ≡ or_stored (stored db h) (if t then some entry.1 else lookup h unspents)
    go true ih = refl
    go false ih = ih
