-- ===== src/Blockchain/Orphans.antt =====
-- blockchain/blockchain.go: the orphan blocks, `AddOrphanBlock`, `RemoveOrphanBlock`, `IsKnownOrphan`,
-- `GetOrphanRoot` and `ProcessOrphans`. A Go map is ranged over from its newest entry on, and the clock
-- is read once for each call. What `maybeAcceptBlock` does is a parameter: it changes a state of its own
-- and not the orphans.
pub mod Remove
pub mod Listed
pub mod Consistent
pub mod Add
pub mod Bound
pub mod Process
pub mod Root
mod Tests
use elastos_ela_side_chain.Common.{
  ℕ, zero, suc, ◌+◌, Bool, true, false, Option, none, some, List, [], ◌∷◌, ◌++◌, length, ◌==◌, ltb,
  if◌then◌else◌,
}
use elastos_ela_side_chain.Common.Table.{Table, lookup, insert, erase}

-- `OrphanBlock`: the hash of its block and of the previous one, the time at which it expires, and the
-- address of the record, which is what a comparison of two pointers compares.
pub record Orphan : Type 0 where
  pub hash : ℕ
  pub previous : ℕ
  pub expiration : ℕ
  pub address : ℕ

-- The fields of `Blockchain` that hold the orphans.
pub record OrphanPool : Type 0 where
  pub orphans : Table Orphan
  pub prev_orphans : Table (List Orphan)
  pub oldest_orphan : Option Orphan

abbrev pub orphans_or_nil : Option (List Orphan) → List Orphan
orphans_or_nil none = []
orphans_or_nil (some orphans) = orphans

-- `bc.PrevOrphans[hash]`
abbrev pub waiting : ℕ → OrphanPool → List Orphan
waiting hash pool = orphans_or_nil (lookup hash pool.prev_orphans)

-- The loop of `RemoveOrphanBlock`: every orphan with the hash is taken out.
unfoldable pub without_hash : ℕ → List Orphan → List Orphan
without_hash hash [] = []
without_hash hash (orphan ∷ orphans) =
    let rest = without_hash hash orphans in if orphan.hash == hash then rest else orphan ∷ rest

abbrev pub put_or_delete : ℕ → List Orphan → Table (List Orphan) → Table (List Orphan)
put_or_delete hash [] prev_orphans = erase hash prev_orphans
put_or_delete hash (orphan ∷ orphans) prev_orphans = insert hash (orphan ∷ orphans) prev_orphans

-- `RemoveOrphanBlock`
unfoldable pub remove_orphan_block : Orphan → OrphanPool → OrphanPool
remove_orphan_block orphan pool = record {
  orphans = erase orphan.hash pool.orphans;
  prev_orphans =
      put_or_delete orphan.previous (without_hash orphan.hash (waiting orphan.previous pool))
        pool.prev_orphans;
  oldest_orphan = pool.oldest_orphan;
}

abbrev pub is_at : Orphan → Option Orphan → Bool
is_at orphan none = false
is_at orphan (some oldest) = oldest.address == orphan.address

-- One round of the loop that removes what has expired.
unfoldable pub expire_one : ℕ → Orphan → OrphanPool → OrphanPool
expire_one now orphan pool =
    if ltb orphan.expiration now
    then (let removed = remove_orphan_block orphan pool in
        if is_at orphan pool.oldest_orphan
        then record removed { oldest_orphan = none }
        else removed)
    else pool

unfoldable pub expire_orphans : ℕ → Table Orphan → OrphanPool → OrphanPool
expire_orphans now [] pool = pool
expire_orphans now (entry ∷ entries) pool = expire_orphans now entries (expire_one now entry.1 pool)

-- The loop that looks for the oldest orphan.
abbrev pub older : Orphan → Option Orphan → Option Orphan
older orphan none = some orphan
older orphan (some oldest) =
    if ltb orphan.expiration oldest.expiration then some orphan else some oldest

unfoldable pub find_oldest : Table Orphan → Option Orphan → Option Orphan
find_oldest [] oldest = oldest
find_oldest (entry ∷ entries) oldest = find_oldest entries (older entry.1 oldest)

abbrev pub push_orphan : Orphan → OrphanPool → OrphanPool
push_orphan orphan pool = record {
  orphans = insert orphan.hash orphan pool.orphans;
  prev_orphans =
      insert orphan.previous (waiting orphan.previous pool ++ (orphan ∷ [])) pool.prev_orphans;
  oldest_orphan = pool.oldest_orphan;
}

-- The oldest orphan leaves if there are too many; there is a panic if there is none.
unfoldable pub evict_oldest : ℕ → OrphanPool → Option OrphanPool
evict_oldest max_orphan_blocks pool =
    if ltb max_orphan_blocks (length pool.orphans + 1)
    then elim pool.oldest_orphan [
      | none ↦ none
      | some oldest ↦ some (record (remove_orphan_block oldest pool) { oldest_orphan = none })
    ]
    else some pool

-- `AddOrphanBlock`, with the new orphan's record.
unfoldable pub add_orphan_block : ℕ → ℕ → Orphan → OrphanPool → Option OrphanPool
add_orphan_block max_orphan_blocks now orphan pool =
    let expired = expire_orphans now pool.orphans pool in
    let found = record expired {
      oldest_orphan = find_oldest expired.orphans expired.oldest_orphan;
    } in
    elim (evict_oldest max_orphan_blocks found) [
      | none ↦ none
      | some evicted ↦ some (push_orphan orphan evicted)
    ]

-- `IsKnownOrphan`
abbrev pub is_known_orphan : ℕ → OrphanPool → Bool
is_known_orphan hash pool = elim (lookup hash pool.orphans) [ none ↦ false | some _ ↦ true ]

-- `GetOrphanRoot`: the loop goes to the previous blocks as long as they are orphans. Out of fuel it has
-- no result.
unfoldable pub orphan_root : ℕ → OrphanPool → ℕ → ℕ → Option ℕ
orphan_root zero pool root prev = none
orphan_root (suc fuel) pool root prev = elim (lookup prev pool.orphans) [
  | none ↦ some root
  | some orphan ↦ orphan_root fuel pool prev orphan.previous
]

unfoldable pub get_orphan_root : ℕ → OrphanPool → ℕ → Option ℕ
get_orphan_root fuel pool hash = orphan_root fuel pool hash hash

-- Where `ProcessOrphans` stands: the error that stopped it, the hashes of the blocks that it took, and
-- what it left.
pub record Processed {ℓ κ} (E : Type ℓ) (S : Type κ) : Type (ℓ ⊔ κ) where
  pub error : Option E
  pub hashes : List ℕ
  pub pool : OrphanPool
  pub state : S

module _ {ℓ κ} {E : Type ℓ} {S : Type κ} (maybe_accept_block : Orphan → S → Option E × S) where
  -- The inner loop of `ProcessOrphans`: the first orphan that waits for the hash leaves and is accepted,
  -- as long as there is one; its hash goes to the end of the queue. Out of fuel there is no result.
  unfoldable pub accept_waiting : ℕ → ℕ → List ℕ → OrphanPool → S → Option (Processed E S)
  accept_waiting zero hash queue pool state = none
  accept_waiting (suc fuel) hash queue pool state = elim (waiting hash pool) [
    | [] ↦ some (record { error = none; hashes = queue; pool = pool; state = state })
    | orphan ∷ _ ↦
        let left = remove_orphan_block orphan pool in
        let (error, after) = maybe_accept_block orphan state in
        let rest = accept_waiting fuel hash (queue ++ (orphan.hash ∷ [])) left after in
        elim error [
          | none ↦ rest
          | some e ↦ some (record { error = some e; hashes = queue; pool = left; state = after })
        ]
  ]

  -- The outer loop, over the queue of the hashes.
  unfoldable pub process_hashes : ℕ → List ℕ → OrphanPool → S → Option (Processed E S)
  process_hashes fuel [] pool state =
      some (record { error = none; hashes = []; pool = pool; state = state })
  process_hashes zero (hash ∷ hashes) pool state = none
  process_hashes (suc fuel) (hash ∷ hashes) pool state =
      elim (accept_waiting (suc fuel) hash hashes pool state) [
        | none ↦ none
        | some p ↦
            let rest = process_hashes fuel p.hashes p.pool p.state in
            elim p.error [ none ↦ rest | some e ↦ some p ]
      ]

  -- `ProcessOrphans`
  unfoldable pub process_orphans : ℕ → ℕ → OrphanPool → S → Option (Processed E S)
  process_orphans fuel hash pool state = process_hashes fuel (hash ∷ []) pool state
