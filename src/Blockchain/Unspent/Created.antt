-- ===== src/Blockchain/Unspent/Created.antt =====
-- blockchain/chaindata.go: what a block does to the number of unspent outputs, and the outputs that
-- `PersistUnspend` adds.
use elastos_ela_side_chain.Common.{
  ℕ, ◌+◌, ◌-◌, ◌%◌, ◌^◌, ◌≤◌, ◌≡◌, refl, sym, ◌∙◌, ap, Bool, true, false, Option, none, some, List,
  [], ◌∷◌, ◌++◌, length, ◌==◌, ==_iff, ltb, if◌then◌else◌, arith,
}
use elastos_ela_side_chain.Common.Table.{Table, lookup, insert}
use elastos_ela_side_chain.Core.{Input, Output, Transaction, is_coin_base_tx, is_register_asset_tx}
use elastos_ela_side_chain.Blockchain.Unspent.{values_or_nil, append_outputs}
use elastos_ela_side_chain.Blockchain.Unspent.Counts.{
  count, count-append, append-IsUint16, stored, or_stored, current, current-insert, Fits,
  lookup-Fits, insert-Fits,
}

-- How many outputs a transaction makes, and how many its inputs spend, at an index of a hash.
abbrev pub created : Transaction → ℕ → ℕ → ℕ
created tx h i =
    if is_register_asset_tx tx
    then 0
    else if tx.hash == h
    then (if ltb i (length tx.outputs) then 1 else 0)
    else 0

abbrev pub spent_by : List Input → ℕ → ℕ → ℕ
spent_by [] h i = 0
spent_by (input ∷ inputs) h i =
    (if input.previous.tx_id == h then (if input.previous.index == i then 1 else 0) else 0)
    + spent_by inputs h i

abbrev pub spent : Transaction → ℕ → ℕ → ℕ
spent tx h i =
    if is_register_asset_tx tx then 0 else if is_coin_base_tx tx then 0 else spent_by tx.inputs h i

-- What a block does to the number of unspent outputs at an index of a hash.
abbrev pub apply_block : List Transaction → ℕ → ℕ → ℕ → ℕ
apply_block [] h i n = n
apply_block (tx ∷ txs) h i n = apply_block txs h i (n + created tx h i - spent tx h i)

abbrev pub new_at : ℕ → ℕ → List Output → ℕ
new_at i index [] = 0
new_at i index (output ∷ outputs) = (if index == i then 1 else 0) + new_at i (index + 1) outputs

pub new_at-lem :
    (i index : ℕ) (outputs : List Output)
    → new_at i index outputs
      ≡ (if ltb i index then 0 else if ltb i (index + length outputs) then 1 else 0)
new_at-lem i index [] = ground arith
new_at-lem i index (output ∷ outputs) = ground (arith, new_at-lem i (index + 1) outputs)

pub nil-current :
    (db unspents : Table (List ℕ)) (hash : ℕ)
    → stored db hash ≡ []
    → values_or_nil (lookup hash unspents) ≡ current db unspents hash
nil-current db unspents hash fresh = go (lookup hash unspents)
  where
    go : (found : Option (List ℕ)) → values_or_nil found ≡ or_stored (stored db hash) found
    go none = sym fresh
    go (some values) = refl

pub count-insert :
    (db unspents : Table (List ℕ)) (hash h i : ℕ) (values : List ℕ) (n : ℕ)
    → count i values ≡ count i (current db unspents hash) + n
    → count i (current db (insert hash values unspents) h)
      ≡ count i (current db unspents h) + (if hash == h then n else 0)
count-insert db unspents hash h i values n e =
    ap (count i) (current-insert db unspents hash h values) ∙ go (hash == h) refl
  where
    go :
        (t : Bool)
        → (hash == h) ≡ t
        → count i (if t then values else current db unspents h)
          ≡ count i (current db unspents h) + (if t then n else 0)
    go true same = e ∙ ap (λ k. count i (current db unspents k) + n) ((==_iff hash h).0 same)
    go false other = omega arith

pub count-append_outputs :
    (db : Table (List ℕ)) (hash : ℕ) (outputs : List Output) (index : ℕ) (unspents : Table (List ℕ))
    (h i : ℕ)
    → stored db hash ≡ []
    → index + length outputs ≤ 2 ^ 16
    → count i (current db (append_outputs hash outputs index unspents) h)
      ≡ count i (current db unspents h) + (if hash == h then new_at i index outputs else 0)
unfolding append_outputs
count-append_outputs db hash [] index unspents h i fresh few = go (hash == h)
  where
    go :
        (t : Bool)
        → count i (current db unspents h) ≡ count i (current db unspents h) + (if t then 0 else 0)
    go true = omega arith
    go false = omega arith
count-append_outputs db hash (output ∷ outputs) index unspents h i fresh few =
    let values = values_or_nil (lookup hash unspents) ++ (index % 2 ^ 16 ∷ []) in
    let rest =
      count-append_outputs db hash outputs (index + 1) (insert hash values unspents) h i fresh
        (omega arith) in
    let small : index % 2 ^ 16 ≡ index = omega arith in
    let added : count i values
        ≡ count i (current db unspents hash) + (if index == i then 1 else 0) =
      count-append i (values_or_nil (lookup hash unspents)) (index % 2 ^ 16 ∷ [])
      ∙ rw (small, nil-current db unspents hash fresh) (omega arith) in
    rest
    ∙ rw (count-insert db unspents hash h i values (if index == i then 1 else 0) added)
        (go (hash == h))
  where
    go :
        (t : Bool)
        → count i (current db unspents h)
            + (if t then (if index == i then 1 else 0) else 0)
            + (if t then new_at i (index + 1) outputs else 0)
          ≡ count i (current db unspents h)
            + (if t then (if index == i then 1 else 0) + new_at i (index + 1) outputs else 0)
    go true = omega arith
    go false = omega arith

pub append_outputs-Fits :
    (hash : ℕ) (outputs : List Output) (index : ℕ) (unspents : Table (List ℕ))
    → Fits unspents
    → Fits (append_outputs hash outputs index unspents)
unfolding append_outputs
append_outputs-Fits hash [] index unspents fits = fits
append_outputs-Fits hash (output ∷ outputs) index unspents fits =
    append_outputs-Fits hash outputs (index + 1) _ (
      insert-Fits hash _ unspents
        (append-IsUint16 (values_or_nil (lookup hash unspents)) (index % 2 ^ 16)
          (lookup-Fits hash unspents fits) (omega arith))
        fits)
