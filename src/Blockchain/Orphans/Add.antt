-- ===== src/Blockchain/Orphans/Add.antt =====
-- blockchain/blockchain.go: `AddOrphanBlock` keeps the maps of the orphans in agreement.
use mathlib.Core.Option.{some-injective}
use elastos_ela_side_chain.Common.{
  ℕ, ◌+◌, ◌≡◌, refl, sym, subst, ◌∙◌, ap, Bool, true, false, Option, none, some, [], ◌∷◌, length,
  ◌==◌, ==_iff, ltb, if◌then◌else◌, All, All-map,
}
use elastos_ela_side_chain.Common.Table.{Table, lookup, IsDistinct}
use elastos_ela_side_chain.Blockchain.Orphans.{
  Orphan, OrphanPool, remove_orphan_block, is_at, expire_one, expire_orphans, older, find_oldest,
  push_orphan, evict_oldest, add_orphan_block,
}
use elastos_ela_side_chain.Blockchain.Orphans.Remove.{
  Shrinks, Shrinks-same, Shrinks-then, Shrinks-erase, Shrinks-none,
}
use elastos_ela_side_chain.Blockchain.Orphans.Consistent.{
  IsConsistent, remove_orphan_block-IsConsistent, push_orphan-IsConsistent,
}

-- In a table that holds each key once, each entry is found.
pub lookup-entries :
    (m : Table Orphan) → IsDistinct m → All (λ (e : ℕ × Orphan). lookup e.0 m ≡ some e.1) m
unfolding lookup
lookup-entries [] d = tt
lookup-entries (entry ∷ m) d = (
  self (entry.0 == entry.0) refl,
  All-map m (λ e found. behind e found (entry.0 == e.0) refl) (lookup-entries m d.1),
)
  where
    self :
        (t : Bool)
        → (entry.0 == entry.0) ≡ t
        → (if t then some entry.1 else lookup entry.0 m) ≡ some entry.1
    self true e = refl
    self false e = cc (sym e ∙ (==_iff entry.0 entry.0).1 refl)

    behind :
        (e : ℕ × Orphan)
        → lookup e.0 m ≡ some e.1
        → (t : Bool) → (entry.0 == e.0) ≡ t
        → (if t then some entry.1 else lookup e.0 m) ≡ some e.1
    behind e found true same =
        cc (sym d.0 ∙ ap (λ k. lookup k m) ((==_iff entry.0 e.0).0 same) ∙ found)
    behind e found false other = found

pub expire_one-Shrinks :
    (now : ℕ) (orphan : Orphan) (pool : OrphanPool)
    → Shrinks pool.orphans (expire_one now orphan pool).orphans
unfolding expire_one remove_orphan_block
expire_one-Shrinks now orphan pool =
    go (ltb orphan.expiration now) (is_at orphan pool.oldest_orphan)
  where
    go :
        (t u : Bool)
        → Shrinks pool.orphans
            (if t
              then (if u
                  then record (remove_orphan_block orphan pool) { oldest_orphan = none }
                  else remove_orphan_block orphan pool)
              else pool).orphans
    go false u = Shrinks-same pool.orphans
    go true false = Shrinks-erase orphan.hash pool.orphans
    go true true = Shrinks-erase orphan.hash pool.orphans

pub expire_orphans-Shrinks :
    (now : ℕ) (entries : Table Orphan) (pool : OrphanPool)
    → Shrinks pool.orphans (expire_orphans now entries pool).orphans
unfolding expire_orphans
expire_orphans-Shrinks now [] pool = Shrinks-same pool.orphans
expire_orphans-Shrinks now (entry ∷ entries) pool =
    Shrinks-then _ _ _ (expire_one-Shrinks now entry.1 pool)
      (expire_orphans-Shrinks now entries (expire_one now entry.1 pool))

pub evict_oldest-Shrinks :
    (max_orphan_blocks : ℕ) (pool : OrphanPool) {evicted : OrphanPool}
    → evict_oldest max_orphan_blocks pool ≡ some evicted
    → Shrinks pool.orphans evicted.orphans
unfolding evict_oldest remove_orphan_block
evict_oldest-Shrinks max_orphan_blocks pool {evicted} e =
    go (ltb max_orphan_blocks (length pool.orphans + 1)) pool.oldest_orphan e
  where
    go :
        (t : Bool) (oldest : Option Orphan)
        → (if t
            then elim oldest [
              | none ↦ none
              | some o ↦ some (record (remove_orphan_block o pool) { oldest_orphan = none })
            ]
            else some pool)
          ≡ some evicted
        → Shrinks pool.orphans evicted.orphans
    go false oldest f =
        subst (λ (q : OrphanPool). Shrinks pool.orphans q.orphans) (some-injective _ _ f)
          (Shrinks-same pool.orphans)
    go true none f = cc
    go true (some o) f =
        subst (λ (q : OrphanPool). Shrinks pool.orphans q.orphans) (some-injective _ _ f)
          (Shrinks-erase o.hash pool.orphans)

module _ (previous_of : ℕ → ℕ) where
  -- The previous block of the orphan is what the header of its hash says.
  abbrev pub IsKnown : Orphan → Type 0
  IsKnown o = o.previous ≡ previous_of o.hash

  pub IsConsistent-entries :
      (pool : OrphanPool)
      → IsConsistent previous_of pool
      → All (λ (e : ℕ × Orphan). IsKnown e.1) pool.orphans
  IsConsistent-entries pool c =
      All-map pool.orphans
        (λ e found. (c.keyed e.0 e.1 found).1 ∙ ap previous_of (sym (c.keyed e.0 e.1 found).0))
        (lookup-entries pool.orphans c.distinct)

  pub set_oldest-IsConsistent :
      (oldest : Option Orphan) (pool : OrphanPool)
      → ((o : Orphan) → oldest ≡ some o → IsKnown o)
      → IsConsistent previous_of pool
      → IsConsistent previous_of (record pool { oldest_orphan = oldest })
  set_oldest-IsConsistent oldest pool k c = record {
    distinct = c.distinct;
    keyed = c.keyed;
    listed = c.listed;
    held = c.held;
    known = k;
  }

  expire_one-IsConsistent :
      (now : ℕ) (orphan : Orphan) (pool : OrphanPool)
      → IsKnown orphan
      → IsConsistent previous_of pool
      → IsConsistent previous_of (expire_one now orphan pool)
  unfolding expire_one
  expire_one-IsConsistent now orphan pool k c =
      go (ltb orphan.expiration now) (is_at orphan pool.oldest_orphan)
    where
      go :
          (t u : Bool)
          → IsConsistent previous_of (
              if t
              then (if u
                  then record (remove_orphan_block orphan pool) { oldest_orphan = none }
                  else remove_orphan_block orphan pool)
              else pool)
      go false u = c
      go true false = remove_orphan_block-IsConsistent previous_of orphan pool k c
      go true true =
          set_oldest-IsConsistent none (remove_orphan_block orphan pool) (λ o e. cc)
            (remove_orphan_block-IsConsistent previous_of orphan pool k c)

  pub expire_orphans-IsConsistent :
      (now : ℕ) (entries : Table Orphan) (pool : OrphanPool)
      → All (λ (e : ℕ × Orphan). IsKnown e.1) entries
      → IsConsistent previous_of pool
      → IsConsistent previous_of (expire_orphans now entries pool)
  unfolding expire_orphans
  expire_orphans-IsConsistent now [] pool k c = c
  expire_orphans-IsConsistent now (entry ∷ entries) pool k c =
      expire_orphans-IsConsistent now entries (expire_one now entry.1 pool) k.1
        (expire_one-IsConsistent now entry.1 pool k.0 c)

  -- What `find_oldest` gives is the one it starts from or an entry's.
  pub find_oldest-All {κ} :
      (P : Orphan → Type κ) (entries : Table Orphan) (oldest : Option Orphan)
      → All (λ (e : ℕ × Orphan). P e.1) entries
      → ((o : Orphan) → oldest ≡ some o → P o)
      → (o : Orphan) → find_oldest entries oldest ≡ some o
      → P o
  unfolding find_oldest
  find_oldest-All P [] oldest h k o e = k o e
  find_oldest-All P (entry ∷ entries) oldest h k o e =
      find_oldest-All P entries (older entry.1 oldest) h.1 (λ q f. first oldest k q f) o e
    where
      choose :
          (t : Bool) (old q : Orphan)
          → P old
          → (if t then some entry.1 else some old) ≡ some q
          → P q
      choose true old q p f = subst P (some-injective _ _ f) h.0
      choose false old q p f = subst P (some-injective _ _ f) p

      first :
          (oldest : Option Orphan)
          → ((q : Orphan) → oldest ≡ some q → P q)
          → (q : Orphan) → older entry.1 oldest ≡ some q
          → P q
      first none k q f = subst P (some-injective _ _ f) h.0
      first (some old) k q f = choose (ltb entry.1.expiration old.expiration) old q (k old refl) f

  evict_oldest-IsConsistent :
      (max_orphan_blocks : ℕ) (pool : OrphanPool) {evicted : OrphanPool}
      → IsConsistent previous_of pool
      → evict_oldest max_orphan_blocks pool ≡ some evicted
      → IsConsistent previous_of evicted
  unfolding evict_oldest
  evict_oldest-IsConsistent max_orphan_blocks pool {evicted} c e =
      go (ltb max_orphan_blocks (length pool.orphans + 1)) pool.oldest_orphan c.known e
    where
      go :
          (t : Bool) (oldest : Option Orphan)
          → ((o : Orphan) → oldest ≡ some o → IsKnown o)
          → (if t
              then elim oldest [
                | none ↦ none
                | some o ↦ some (record (remove_orphan_block o pool) { oldest_orphan = none })
              ]
              else some pool)
            ≡ some evicted
          → IsConsistent previous_of evicted
      go false oldest k f = subst (IsConsistent previous_of) (some-injective _ _ f) c
      go true none k f = cc
      go true (some o) k f = subst (IsConsistent previous_of) (some-injective _ _ f) (
          set_oldest-IsConsistent none (remove_orphan_block o pool) (λ q g. cc)
            (remove_orphan_block-IsConsistent previous_of o pool (k o refl) c))

  -- `AddOrphanBlock` of a block that is no orphan yet keeps the two maps in agreement: each orphan stands
  -- under its hash and waits for its previous block, and whatever waits is in the map.
  pub add_orphan_block-IsConsistent :
      (max_orphan_blocks now : ℕ) (orphan : Orphan) (pool : OrphanPool) {added : OrphanPool}
      → IsConsistent previous_of pool
      → IsKnown orphan
      → lookup orphan.hash pool.orphans ≡ none
      → add_orphan_block max_orphan_blocks now orphan pool ≡ some added
      → IsConsistent previous_of added
  unfolding add_orphan_block
  add_orphan_block-IsConsistent max_orphan_blocks now orphan pool {added} c k new e =
      go (evict_oldest max_orphan_blocks found) refl e
    where
      expired : OrphanPool
      expired = expire_orphans now pool.orphans pool

      found : OrphanPool
      found = record expired { oldest_orphan = find_oldest expired.orphans expired.oldest_orphan }

      consistent : IsConsistent previous_of found
      consistent =
          let x =
            expire_orphans-IsConsistent now pool.orphans pool (IsConsistent-entries pool c) c in
          set_oldest-IsConsistent (find_oldest expired.orphans expired.oldest_orphan) expired
            (find_oldest-All IsKnown expired.orphans expired.oldest_orphan
              (IsConsistent-entries expired x) x.known)
            x

      go :
          (evicted : Option OrphanPool)
          → evict_oldest max_orphan_blocks found ≡ evicted
          → (elim evicted [ none ↦ none | some left ↦ some (push_orphan orphan left) ]) ≡ some added
          → IsConsistent previous_of added
      go none f h = cc
      go (some left) f h = subst (IsConsistent previous_of) (some-injective _ _ h) (
          push_orphan-IsConsistent previous_of orphan left k
            (Shrinks-none found.orphans left.orphans orphan.hash
              (evict_oldest-Shrinks max_orphan_blocks found {evicted = left} f)
              (Shrinks-none pool.orphans expired.orphans orphan.hash
                (expire_orphans-Shrinks now pool.orphans pool) new))
            (evict_oldest-IsConsistent max_orphan_blocks found {evicted = left} consistent f))
