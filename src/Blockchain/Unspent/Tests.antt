-- ===== src/Blockchain/Unspent/Tests.antt =====
-- The index of the unspent outputs, over a concrete block.
use elastos_ela_side_chain.Common.{
  ℕ, ◌≡◌, refl, some, List, [], ◌∷◌, All, ◌==◌, arith, Bool, true, false, if◌then◌else◌,
}
use elastos_ela_side_chain.Common.Result.{ok}
use elastos_ela_side_chain.Common.Table.{Table, lookup, insert, erase}
use elastos_ela_side_chain.Core.{Transaction}
use elastos_ela_side_chain.Blockchain.Fixtures.{spending_tx, coinbase_tx}
use elastos_ela_side_chain.Blockchain.Unspent.{
  get_uint16_array, to_byte_array, append_outputs, swap_remove, load_unspent, spend_inputs,
  persist_tx, persist_txs, put_unspents, persist_unspend, rollback_unspend,
}
use elastos_ela_side_chain.Blockchain.Unspent.Counts.{count, stored}
use elastos_ela_side_chain.Blockchain.Unspent.Created.{apply_block}
use elastos_ela_side_chain.Blockchain.Unspent.Persist.{IsNew, persist_unspend-apply_block}
use elastos_ela_side_chain.Blockchain.Unspent.Total.{
  decode, Decodes, rollback_unspend-persist_unspend,
}

abbrev block : List Transaction
block = coinbase_tx ∷ spending_tx ∷ []

-- The first transaction has its outputs 0 and 258 unspent.
abbrev before : Table (List ℕ)
before = (1, 0 ∷ 0 ∷ 2 ∷ 1 ∷ []) ∷ []

abbrev after : Table (List ℕ)
after = (1, 2 ∷ 1 ∷ []) ∷ (2, 0 ∷ 0 ∷ []) ∷ (3, 0 ∷ 0 ∷ 1 ∷ 0 ∷ []) ∷ []

block_persists : persist_unspend before block ≡ ok after
unfolding persist_unspend persist_txs persist_tx append_outputs spend_inputs load_unspent
    swap_remove put_unspents get_uint16_array to_byte_array lookup insert erase
block_persists = refl

block-IsNew : All (IsNew before) block
unfolding lookup
block-IsNew = ((refl, omega arith), ((refl, omega arith), tt))

persist_unspend-apply_block_example :
    count 0 (stored after 1) ≡ apply_block block 1 0 (count 0 (stored before 1))
persist_unspend-apply_block_example =
    persist_unspend-apply_block before block 1 0 block-IsNew block_persists

before-Decodes : Decodes before
unfolding lookup get_uint16_array
before-Decodes h = go (1 == h)
  where
    go :
        (t : Bool)
        → (xs : List ℕ) × (decode (if t then some (0 ∷ 0 ∷ 2 ∷ 1 ∷ []) else lookup h []) ≡ some xs)
    go true = (0 ∷ 258 ∷ [], refl)
    go false = ([], refl)

was_unspent : count 0 (stored before 1) ≡ 1
unfolding lookup get_uint16_array
was_unspent = refl

rollback_unspend-persist_unspend_example :
    (db : Table (List ℕ)) × (rollback_unspend after block ≡ ok db)
    × (count 0 (stored db 1) ≡ count 0 (stored before 1))
rollback_unspend-persist_unspend_example =
    rollback_unspend-persist_unspend before block 1 0 before-Decodes block-IsNew
      ((refl, tt), ((refl, tt), tt)) ((omega arith, tt), ((omega arith, tt), tt))
      (omega (arith, was_unspent)) block_persists
