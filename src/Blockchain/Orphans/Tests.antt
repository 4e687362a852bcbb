-- ===== src/Blockchain/Orphans/Tests.antt =====
-- Orphans, added and processed.
use elastos_ela_side_chain.Common.{
  ℕ, zero, suc, ◌+◌, ◌-◌, ◌≤◌, ◌<◌, ◌≡◌, refl, false, Option, none, some, [], ◌∷◌, length, arith,
}
use elastos_ela_side_chain.Common.Table.{lookup, insert, erase}
use elastos_ela_side_chain.Blockchain.Orphans.{
  Orphan, OrphanPool, waiting, without_hash, remove_orphan_block, expire_one, expire_orphans,
  find_oldest, evict_oldest, add_orphan_block, Processed, accept_waiting, process_hashes,
  process_orphans, get_orphan_root,
}
use elastos_ela_side_chain.Blockchain.Orphans.Consistent.{IsConsistent}
use elastos_ela_side_chain.Blockchain.Orphans.Add.{add_orphan_block-IsConsistent}
use elastos_ela_side_chain.Blockchain.Orphans.Bound.{
  IsListed, add_orphan_block-IsListed, add_orphan_block-stale,
}
use elastos_ela_side_chain.Blockchain.Orphans.Process.{has_error, process_orphans-IsConsistent}
use elastos_ela_side_chain.Blockchain.Orphans.Root.{IsRoot, get_orphan_root-IsRoot}

-- The block of a hash comes after the one below it.
abbrev previous_of : ℕ → ℕ
previous_of hash = hash - 1

abbrev orphan_at : ℕ → ℕ → Orphan
orphan_at hash expiration = record {
  hash = hash;
  previous = hash - 1;
  expiration = expiration;
  address = hash;
}

abbrev pool_of : Option Orphan → OrphanPool
pool_of oldest = record {
  orphans = (7, orphan_at 7 50) ∷ [];
  prev_orphans = (6, orphan_at 7 50 ∷ []) ∷ [];
  oldest_orphan = oldest;
}

abbrev pool : OrphanPool
pool = pool_of none

abbrev empty : OrphanPool
empty = record { orphans = []; prev_orphans = []; oldest_orphan = none }

empty-IsConsistent : IsConsistent previous_of empty
unfolding lookup
empty-IsConsistent = record {
  distinct = tt;
  keyed = λ h o e. cc;
  listed = λ h o e. cc;
  held = λ p. tt;
  known = λ o e. cc;
}

first_added : add_orphan_block 2 10 (orphan_at 7 50) empty ≡ some pool
unfolding add_orphan_block expire_orphans find_oldest evict_oldest lookup insert erase
first_added = refl

pool-IsConsistent : IsConsistent previous_of pool
unfolding lookup
pool-IsConsistent =
    add_orphan_block-IsConsistent previous_of 2 10 (orphan_at 7 50) empty {added = pool}
      empty-IsConsistent refl refl first_added

abbrev both : OrphanPool
both = record {
  orphans = (8, orphan_at 8 60) ∷ (7, orphan_at 7 50) ∷ [];
  prev_orphans = (7, orphan_at 8 60 ∷ []) ∷ (6, orphan_at 7 50 ∷ []) ∷ [];
  oldest_orphan = some (orphan_at 7 50);
}

second_added : add_orphan_block 2 10 (orphan_at 8 60) pool ≡ some both
unfolding add_orphan_block expire_orphans expire_one find_oldest evict_oldest lookup insert erase
second_added = refl

eight_is_new : lookup 8 pool.orphans ≡ none
unfolding lookup
eight_is_new = refl

add_orphan_block-IsConsistent_example : IsConsistent previous_of both
add_orphan_block-IsConsistent_example =
    add_orphan_block-IsConsistent previous_of 2 10 (orphan_at 8 60) pool {added = both}
      pool-IsConsistent refl eight_is_new second_added

add_orphan_block-IsListed_example :
    (added : OrphanPool) × (add_orphan_block 1 10 (orphan_at 8 60) pool ≡ some added)
    × (length added.orphans ≤ 1)
    × IsListed added
add_orphan_block-IsListed_example =
    add_orphan_block-IsListed previous_of 1 10 (orphan_at 8 60) pool pool-IsConsistent (λ o e. cc)
      eight_is_new (omega arith) (omega arith)

three_has_left : lookup 3 (pool_of (some (orphan_at 3 40))).orphans ≡ none
unfolding lookup
three_has_left = refl

add_orphan_block-stale_example :
    (added : OrphanPool) × (add_orphan_block 1 10 (orphan_at 8 60) (pool_of (some (orphan_at 3 40)))
      ≡ some added)
    × (length added.orphans ≡ 2)
add_orphan_block-stale_example =
    add_orphan_block-stale 1 10 (orphan_at 8 60) (orphan_at 3 40) (pool_of (some (orphan_at 3 40)))
      refl refl three_has_left eight_is_new (refl, tt) (refl, tt)

-- Every block is accepted; the state counts them.
abbrev accept : Orphan → ℕ → Option ℕ × ℕ
accept orphan state = (none, state + 1)

-- The second orphan waits for the first, and this one for the block 6: both leave.
both_processed :
    process_orphans accept 3 6 both 0
    ≡ some (record {
      error = none;
      hashes = [];
      pool = record { orphans = []; prev_orphans = []; oldest_orphan = some (orphan_at 7 50) };
      state = 2;
    })
unfolding process_orphans process_hashes accept_waiting remove_orphan_block without_hash lookup
    insert erase
both_processed = refl

both-IsConsistent : IsConsistent previous_of both
both-IsConsistent =
    add_orphan_block-IsConsistent previous_of 2 10 (orphan_at 8 60) pool {added = both}
      pool-IsConsistent refl eight_is_new second_added

process_orphans-IsConsistent_example :
    (p : Processed ℕ ℕ) × (process_orphans accept 3 6 both 0 ≡ some p)
    × IsConsistent previous_of p.pool
    × (has_error p.error ≡ false → waiting 6 p.pool ≡ [])
process_orphans-IsConsistent_example =
    process_orphans-IsConsistent accept previous_of 3 6 both 0 (omega arith) both-IsConsistent

falling : (h : ℕ) (o : Orphan) → lookup h both.orphans ≡ some o → o.previous < h
unfolding lookup
falling h o e = let (hash, previous) = both-IsConsistent.keyed h o e in go h o previous e
  where
    go : (h : ℕ) (o : Orphan) → o.previous ≡ h - 1 → lookup h both.orphans ≡ some o → o.previous < h
    go zero o p e = let bad : ◌≡◌ {A = ℕ} 1 0 = cc e in omega arith
    go (suc h) o p e = omega arith

get_orphan_root-IsRoot_example :
    (root : ℕ) × (get_orphan_root 9 both 8 ≡ some root) × IsRoot both 8 root
get_orphan_root-IsRoot_example = get_orphan_root-IsRoot (λ h. h) 9 both 8 falling (omega arith)
