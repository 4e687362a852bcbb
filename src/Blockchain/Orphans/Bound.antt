-- ===== src/Blockchain/Orphans/Bound.antt =====
-- blockchain/blockchain.go: how many orphans there are after `AddOrphanBlock`.
use mathlib.Core.Option.{some-injective}
use elastos_ela_side_chain.Common.{
  ℕ, suc, ◌+◌, ◌≤◌, ◌<◌, ◌≡◌, refl, sym, ◌∙◌, ap, Bool, true, false, Option, none, some, [], ◌∷◌,
  length, ◌==◌, ==_iff, ==_false, ltb, if◌then◌else◌, All, All-map, arith,
}
use elastos_ela_side_chain.Common.Table.{Table, lookup, insert, erase, lookup-insert, lookup-erase}
use elastos_ela_side_chain.Blockchain.Orphans.{
  Orphan, OrphanPool, remove_orphan_block, is_at, expire_one, expire_orphans, find_oldest,
  push_orphan, evict_oldest, add_orphan_block,
}
use elastos_ela_side_chain.Blockchain.Orphans.Remove.{
  length-erase_le, length-erase_lt, length-erase-none, Shrinks-none, Shrinks-erase,
}
use elastos_ela_side_chain.Blockchain.Orphans.Consistent.{IsConsistent}
use elastos_ela_side_chain.Blockchain.Orphans.Add.{
  lookup-entries, IsConsistent-entries, expire_orphans-IsConsistent, expire_one-Shrinks,
  expire_orphans-Shrinks, evict_oldest-Shrinks, find_oldest-All,
}

-- The oldest orphan is one of the orphans.
abbrev pub IsListed : OrphanPool → Type 0
IsListed pool = (o : Orphan) → pool.oldest_orphan ≡ some o → lookup o.hash pool.orphans ≡ some o

-- No other orphan stands under the hash.
abbrev IsOnly : OrphanPool → Orphan → Type 0
IsOnly pool orphan = (q : Orphan) → lookup orphan.hash pool.orphans ≡ some q → q ≡ orphan

expire_one-IsListed :
    (now : ℕ) (orphan : Orphan) (pool : OrphanPool)
    → IsOnly pool orphan
    → IsListed pool
    → IsListed (expire_one now orphan pool)
unfolding expire_one remove_orphan_block
expire_one-IsListed now orphan pool only l =
    go (ltb orphan.expiration now) (is_at orphan pool.oldest_orphan) refl
  where
    self : (o : Orphan) → is_at o (some o) ≡ true
    self o = (==_iff o.address o.address).1 refl

    go :
        (t u : Bool)
        → is_at orphan pool.oldest_orphan ≡ u
        → IsListed (
            if t
            then (if u
                then record (remove_orphan_block orphan pool) { oldest_orphan = none }
                else remove_orphan_block orphan pool)
            else pool)
    go false u e = l
    go true true e = λ o f. cc
    go true false e = λ o f.
        (let found = l o f in
          let other : (orphan.hash == o.hash) ≡ false = ==_false (λ (s : orphan.hash ≡ o.hash).
            (let same : o ≡ orphan = only o (ap (λ k. lookup k pool.orphans) s ∙ found) in
              cc (sym e ∙ ap (is_at orphan) (f ∙ ap some same) ∙ self orphan))) in
          lookup-erase orphan.hash o.hash pool.orphans ∙ rw other found)

expire_orphans-IsListed :
    (now : ℕ) (entries : Table Orphan) (pool : OrphanPool)
    → All (λ (e : ℕ × Orphan). IsOnly pool e.1) entries
    → IsListed pool
    → IsListed (expire_orphans now entries pool)
unfolding expire_orphans
expire_orphans-IsListed now [] pool only l = l
expire_orphans-IsListed now (entry ∷ entries) pool only l =
    expire_orphans-IsListed now entries (expire_one now entry.1 pool)
      (All-map entries
        (λ (e : ℕ × Orphan) o q f. o q ((expire_one-Shrinks now entry.1 pool).kept e.1.hash q f))
        only.1)
      (expire_one-IsListed now entry.1 pool only.0 l)

find_oldest-some :
    (entries : Table Orphan) (o : Orphan) → (q : Orphan) × (find_oldest entries (some o) ≡ some q)
unfolding find_oldest
find_oldest-some [] o = (o, refl)
find_oldest-some (entry ∷ entries) o =
    go (ltb entry.1.expiration o.expiration) (find_oldest-some entries entry.1)
      (find_oldest-some entries o)
  where
    go :
        (t : Bool)
        → (q : Orphan) × (find_oldest entries (some entry.1) ≡ some q)
        → (q : Orphan) × (find_oldest entries (some o) ≡ some q)
        → (q : Orphan) × (find_oldest entries (if t then some entry.1 else some o) ≡ some q)
    go true a b = a
    go false a b = b

-- A table with entries has an oldest one.
find_oldest-total :
    (entries : Table Orphan) (oldest : Option Orphan)
    → 0 < length entries
    → (q : Orphan) × (find_oldest entries oldest ≡ some q)
unfolding find_oldest
find_oldest-total [] oldest h = elim h [ ]
find_oldest-total (entry ∷ entries) none h = find_oldest-some entries entry.1
find_oldest-total (entry ∷ entries) (some o) h = go (ltb entry.1.expiration o.expiration)
  where
    go :
        (t : Bool)
        → (q : Orphan) × (find_oldest entries (if t then some entry.1 else some o) ≡ some q)
    go true = find_oldest-some entries entry.1
    go false = find_oldest-some entries o

-- The eviction leaves room for one more.
evict_oldest-room :
    (max_orphan_blocks : ℕ) (pool : OrphanPool)
    → 1 ≤ max_orphan_blocks
    → length pool.orphans ≤ max_orphan_blocks
    → IsListed pool
    → (0 < length pool.orphans → (o : Orphan) × (pool.oldest_orphan ≡ some o))
    → (evicted : OrphanPool) × (evict_oldest max_orphan_blocks pool ≡ some evicted)
      × (length evicted.orphans + 1 ≤ max_orphan_blocks)
      × IsListed evicted
unfolding evict_oldest remove_orphan_block
evict_oldest-room max_orphan_blocks pool positive fits l oldest =
    go (ltb max_orphan_blocks (length pool.orphans + 1)) refl
  where
    evict :
        (found : Option Orphan)
        → pool.oldest_orphan ≡ found
        → 0 < length pool.orphans
        → (evicted : OrphanPool) × (◌≡◌ {A = Option OrphanPool}
            (elim found [
              | none ↦ none
              | some o ↦ some (record (remove_orphan_block o pool) { oldest_orphan = none })
            ])
            (some evicted))
          × (length evicted.orphans + 1 ≤ max_orphan_blocks)
          × IsListed evicted
    evict none e some_orphans = let (o, f) = oldest some_orphans in cc (sym e ∙ f)
    evict (some o) e some_orphans =
        let lt = length-erase_lt o.hash pool.orphans {v = o} (l o e) in
        (record (remove_orphan_block o pool) { oldest_orphan = none }, refl, omega arith, λ q f. cc)

    go :
        (t : Bool)
        → ltb max_orphan_blocks (length pool.orphans + 1) ≡ t
        → (evicted : OrphanPool) × (◌≡◌ {A = Option OrphanPool}
            (if t
              then elim pool.oldest_orphan [
                | none ↦ none
                | some o ↦ some (record (remove_orphan_block o pool) { oldest_orphan = none })
              ]
              else some pool)
            (some evicted))
          × (length evicted.orphans + 1 ≤ max_orphan_blocks)
          × IsListed evicted
    go true full = evict pool.oldest_orphan refl (ground arith)
    go false room = (pool, refl, ground arith, l)

push_orphan-IsListed :
    (orphan : Orphan) (pool : OrphanPool)
    → lookup orphan.hash pool.orphans ≡ none
    → IsListed pool
    → IsListed (push_orphan orphan pool)
push_orphan-IsListed orphan pool new l = λ o f.
    (let found = l o f in
      let other : (orphan.hash == o.hash) ≡ false =
        ==_false (λ (s : orphan.hash ≡ o.hash).
          cc (sym new ∙ ap (λ k. lookup k pool.orphans) s ∙ found)) in
      lookup-insert orphan.hash o.hash orphan pool.orphans ∙ rw other found)

push_orphan-length :
    (orphan : Orphan) (pool : OrphanPool)
    → length (push_orphan orphan pool).orphans ≤ length pool.orphans + 1
unfolding insert
push_orphan-length orphan pool = let le = length-erase_le orphan.hash pool.orphans in omega arith

module _ (previous_of : ℕ → ℕ) where
  IsOnly-entries :
      (pool : OrphanPool)
      → IsConsistent previous_of pool
      → All (λ (e : ℕ × Orphan). IsOnly pool e.1) pool.orphans
  IsOnly-entries pool c =
      All-map pool.orphans
        (λ (e : ℕ × Orphan) found q f.
          some-injective _ _
            (sym f ∙ ap (λ k. lookup k pool.orphans) (c.keyed e.0 e.1 found).0 ∙ found))
        (lookup-entries pool.orphans c.distinct)

  listed-entries :
      (pool : OrphanPool)
      → IsConsistent previous_of pool
      → All (λ (e : ℕ × Orphan). lookup e.1.hash pool.orphans ≡ some e.1) pool.orphans
  listed-entries pool c =
      All-map pool.orphans
        (λ (e : ℕ × Orphan) found.
          ap (λ k. lookup k pool.orphans) (c.keyed e.0 e.1 found).0 ∙ found)
        (lookup-entries pool.orphans c.distinct)

  -- Where the two maps agree, the oldest orphan, if there is one, is still an orphan, and there are no
  -- more orphans than the greatest number, which is at least one: `AddOrphanBlock` of a new block does
  -- not panic, leaves no more than the greatest number of orphans, and leaves an oldest orphan, if any,
  -- that is one of them.
  pub add_orphan_block-IsListed :
      (max_orphan_blocks now : ℕ) (orphan : Orphan) (pool : OrphanPool)
      → IsConsistent previous_of pool
      → IsListed pool
      → lookup orphan.hash pool.orphans ≡ none
      → 1 ≤ max_orphan_blocks
      → length pool.orphans ≤ max_orphan_blocks
      → (added : OrphanPool) × (add_orphan_block max_orphan_blocks now orphan pool ≡ some added)
        × (length added.orphans ≤ max_orphan_blocks)
        × IsListed added
  unfolding add_orphan_block
  add_orphan_block-IsListed max_orphan_blocks now orphan pool c l new positive fits =
      let shrinks = expire_orphans-Shrinks now pool.orphans pool in
      let few = shrinks.shorter in
      let (evicted, e, room, listed) =
        evict_oldest-room max_orphan_blocks found positive (omega arith) found-IsListed
          (find_oldest-total expired.orphans expired.oldest_orphan) in
      let unknown : lookup orphan.hash evicted.orphans ≡ none =
        Shrinks-none found.orphans evicted.orphans orphan.hash
          (evict_oldest-Shrinks max_orphan_blocks found {evicted = evicted} e)
          (Shrinks-none pool.orphans expired.orphans orphan.hash shrinks new) in
      let le = push_orphan-length orphan evicted in
      (
        push_orphan orphan evicted,
        ap push e,
        omega arith,
        push_orphan-IsListed orphan evicted unknown listed,
      )
    where
      push : Option OrphanPool → Option OrphanPool
      push evicted = elim evicted [ none ↦ none | some left ↦ some (push_orphan orphan left) ]

      expired : OrphanPool
      expired = expire_orphans now pool.orphans pool

      found : OrphanPool
      found = record expired { oldest_orphan = find_oldest expired.orphans expired.oldest_orphan }

      found-IsListed : IsListed found
      found-IsListed =
          find_oldest-All previous_of (λ (o : Orphan). lookup o.hash expired.orphans ≡ some o)
            expired.orphans expired.oldest_orphan
            (listed-entries expired (
              expire_orphans-IsConsistent previous_of now pool.orphans pool
                (IsConsistent-entries previous_of pool c) c))
            (expire_orphans-IsListed now pool.orphans pool (IsOnly-entries pool c) l)

expire_orphans-none :
    (now : ℕ) (entries : Table Orphan) (pool : OrphanPool)
    → All (λ (e : ℕ × Orphan). ltb e.1.expiration now ≡ false) entries
    → expire_orphans now entries pool ≡ pool
unfolding expire_orphans expire_one
expire_orphans-none now [] pool young = refl
expire_orphans-none now (entry ∷ entries) pool young =
    ap (expire_orphans now entries) (go (ltb entry.1.expiration now) young.0)
    ∙ expire_orphans-none now entries pool young.1
  where
    go :
        (t : Bool)
        → t ≡ false
        → (if t
            then (if is_at entry.1 pool.oldest_orphan
                then record (remove_orphan_block entry.1 pool) { oldest_orphan = none }
                else remove_orphan_block entry.1 pool)
            else pool)
          ≡ pool
    go true e = cc
    go false e = refl

find_oldest-stale :
    (entries : Table Orphan) (stale : Orphan)
    → All (λ (e : ℕ × Orphan). ltb e.1.expiration stale.expiration ≡ false) entries
    → find_oldest entries (some stale) ≡ some stale
unfolding find_oldest
find_oldest-stale [] stale young = refl
find_oldest-stale (entry ∷ entries) stale young =
    ap (find_oldest entries) (go (ltb entry.1.expiration stale.expiration) young.0)
    ∙ find_oldest-stale entries stale young.1
  where
    go : (t : Bool) → t ≡ false → (if t then some entry.1 else some stale) ≡ some stale
    go true e = cc
    go false e = refl

evict_oldest-stale :
    (max_orphan_blocks : ℕ) (pool : OrphanPool) (stale : Orphan)
    → length pool.orphans ≡ max_orphan_blocks
    → pool.oldest_orphan ≡ some stale
    → evict_oldest max_orphan_blocks pool
      ≡ some (record (remove_orphan_block stale pool) { oldest_orphan = none })
unfolding evict_oldest
evict_oldest-stale max_orphan_blocks pool stale full oldest =
    go (ltb max_orphan_blocks (length pool.orphans + 1)) pool.oldest_orphan (ground arith) oldest
  where
    go :
        (t : Bool) (found : Option Orphan)
        → t ≡ true
        → found ≡ some stale
        → (if t
            then elim found [
              | none ↦ none
              | some o ↦ some (record (remove_orphan_block o pool) { oldest_orphan = none })
            ]
            else some pool)
          ≡ some (record (remove_orphan_block stale pool) { oldest_orphan = none })
    go true none e f = cc
    go true (some o) e f =
        ap (λ q. some (record (remove_orphan_block q pool) { oldest_orphan = none }))
          (some-injective _ _ f)
    go false found e f = cc

push_orphan-new :
    (orphan : Orphan) (pool : OrphanPool)
    → lookup orphan.hash pool.orphans ≡ none
    → length (push_orphan orphan pool).orphans ≡ suc (length pool.orphans)
unfolding insert
push_orphan-new orphan pool new = ap suc (length-erase-none orphan.hash pool.orphans new)

-- A full pool grows above the greatest number of orphans if its oldest orphan is one that has left
-- (`ProcessOrphans` does not reset it), and none expires, now or before that one.
pub add_orphan_block-stale :
    (max_orphan_blocks now : ℕ) (orphan stale : Orphan) (pool : OrphanPool)
    → length pool.orphans ≡ max_orphan_blocks
    → pool.oldest_orphan ≡ some stale
    → lookup stale.hash pool.orphans ≡ none
    → lookup orphan.hash pool.orphans ≡ none
    → All (λ (e : ℕ × Orphan). ltb e.1.expiration now ≡ false) pool.orphans
    → All (λ (e : ℕ × Orphan). ltb e.1.expiration stale.expiration ≡ false) pool.orphans
    → (added : OrphanPool) × (add_orphan_block max_orphan_blocks now orphan pool ≡ some added)
      × (length added.orphans ≡ max_orphan_blocks + 1)
unfolding add_orphan_block remove_orphan_block
add_orphan_block-stale max_orphan_blocks now orphan stale pool full oldest left new young
      older_than =
    let same = expire_orphans-none now pool.orphans pool young in
    let evicted =
      evict_oldest-stale max_orphan_blocks (with_oldest pool) stale full
        (ap (find_oldest pool.orphans) oldest ∙ find_oldest-stale pool.orphans stale older_than) in
    let unknown : lookup orphan.hash (erase stale.hash pool.orphans) ≡ none =
      Shrinks-none pool.orphans (erase stale.hash pool.orphans) orphan.hash
        (Shrinks-erase stale.hash pool.orphans) new in
    let removed = record (remove_orphan_block stale (with_oldest pool)) { oldest_orphan = none } in
    let size = push_orphan-new orphan removed unknown in
    let kept = length-erase-none stale.hash pool.orphans left in
    (
      push_orphan orphan removed,
      ap (λ q. push (evict_oldest max_orphan_blocks (with_oldest q))) same ∙ ap push evicted,
      size ∙ omega arith,
    )
  where
    push : Option OrphanPool → Option OrphanPool
    push evicted = elim evicted [ none ↦ none | some left ↦ some (push_orphan orphan left) ]

    with_oldest : OrphanPool → OrphanPool
    with_oldest q = record q { oldest_orphan = find_oldest q.orphans q.oldest_orphan }
