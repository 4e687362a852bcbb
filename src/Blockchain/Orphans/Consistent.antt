-- ===== src/Blockchain/Orphans/Consistent.antt =====
-- blockchain/blockchain.go: the two maps of the orphans agree. `previous_of` is what the header of a hash
-- says of the previous block.
use mathlib.Core.Option.{some-injective}
use elastos_ela_side_chain.Common.{
  ℕ, ◌≡◌, refl, sym, subst, ◌∙◌, ap, Bool, true, false, none, some, [], ◌∷◌, ◌++◌, ◌==◌, ==_iff,
  ==_false, if◌then◌else◌, All, All-map,
}
use elastos_ela_side_chain.Common.Table.{
  lookup, insert, erase, lookup-insert, lookup-erase, IsDistinct, erase-IsDistinct,
  insert-IsDistinct,
}
use elastos_ela_side_chain.Blockchain.Orphans.{
  Orphan, OrphanPool, orphans_or_nil, waiting, without_hash, remove_orphan_block, push_orphan,
}
use elastos_ela_side_chain.Blockchain.Orphans.Remove.{
  waiting-remove_orphan_block, lookup-erase-some,
}
use elastos_ela_side_chain.Blockchain.Orphans.Listed.{
  is_listed, is_listed-without_hash, is_listed-append, is_listed-last, All-append, All-without_hash,
}

-- The two maps agree: an orphan stands under its hash and waits for its previous block, and what waits
-- for a block stands in the map and has that previous block. The oldest orphan may have left.
pub record IsConsistent (previous_of : ℕ → ℕ) (pool : OrphanPool) : Type 0 where
  pub distinct : IsDistinct pool.orphans
  pub keyed :
      (h : ℕ) (o : Orphan)
      → lookup h pool.orphans ≡ some o
      → (o.hash ≡ h) × (o.previous ≡ previous_of h)
  pub listed :
      (h : ℕ) (o : Orphan)
      → lookup h pool.orphans ≡ some o
      → is_listed h (waiting o.previous pool) ≡ true
  pub held :
      (p : ℕ)
      → All
          (λ (o : Orphan). (o.previous ≡ p) × (lookup o.hash pool.orphans ≡ some o))
          (waiting p pool)
  pub known : (o : Orphan) → pool.oldest_orphan ≡ some o → o.previous ≡ previous_of o.hash

module _ (previous_of : ℕ → ℕ) where
  pub remove_orphan_block-IsConsistent :
      (orphan : Orphan) (pool : OrphanPool)
      → orphan.previous ≡ previous_of orphan.hash
      → IsConsistent previous_of pool
      → IsConsistent previous_of (remove_orphan_block orphan pool)
  unfolding remove_orphan_block
  remove_orphan_block-IsConsistent orphan pool same c = record {
    distinct = erase-IsDistinct orphan.hash pool.orphans c.distinct;
    keyed = λ h o e. c.keyed h o (lookup-erase-some orphan.hash h pool.orphans e).1;
    listed = λ h o e.
        (let (other, found) = lookup-erase-some orphan.hash h pool.orphans e in
          ap (is_listed h) (waiting-remove_orphan_block orphan pool o.previous)
          ∙ still h o other (orphan.previous == o.previous) refl (c.listed h o found));
    held = λ p.
        subst
          (All (λ (o : Orphan).
            (o.previous ≡ p) × (lookup o.hash (erase orphan.hash pool.orphans) ≡ some o)))
          (sym (waiting-remove_orphan_block orphan pool p)) (left p (orphan.previous == p) refl);
    known = c.known;
  }
    where
      still :
          (h : ℕ) (o : Orphan)
          → (orphan.hash == h) ≡ false
          → (t : Bool) → (orphan.previous == o.previous) ≡ t
          → is_listed h (waiting o.previous pool) ≡ true
          → is_listed h (
              if t
              then without_hash orphan.hash (waiting orphan.previous pool)
              else waiting o.previous pool)
            ≡ true
      still h o other true e was =
          is_listed-without_hash orphan.hash h (waiting orphan.previous pool) other
          ∙ ap (λ q. is_listed h (waiting q pool)) ((==_iff _ _).0 e)
          ∙ was
      still h o other false e was = was

      left :
          (p : ℕ) (t : Bool)
          → (orphan.previous == p) ≡ t
          → All
              (λ (o : Orphan).
                (o.previous ≡ p) × (lookup o.hash (erase orphan.hash pool.orphans) ≡ some o))
              (if t
                then without_hash orphan.hash (waiting orphan.previous pool)
                else waiting p pool)
      left p true e =
          All-map (without_hash orphan.hash (waiting orphan.previous pool))
            (λ o h. (
              h.1.0 ∙ (==_iff _ _).0 e,
              lookup-erase orphan.hash o.hash pool.orphans ∙ rw (h.0) h.1.1,
            ))
            (All-without_hash _ orphan.hash (waiting orphan.previous pool) (c.held orphan.previous))
      left p false e =
          All-map (waiting p pool)
            (λ o h. (
              h.0,
              lookup-erase orphan.hash o.hash pool.orphans
                  ∙ rw
                      (==_false {a = orphan.hash} {b = o.hash} (λ s. cc (
                        sym e
                        ∙ (==_iff orphan.previous p).1
                            (same ∙ ap previous_of s ∙ sym (c.keyed o.hash o h.1).1 ∙ h.0))))
                      h.1,
            ))
            (c.held p)

  pub push_orphan-IsConsistent :
      (orphan : Orphan) (pool : OrphanPool)
      → orphan.previous ≡ previous_of orphan.hash
      → lookup orphan.hash pool.orphans ≡ none
      → IsConsistent previous_of pool
      → IsConsistent previous_of (push_orphan orphan pool)
  push_orphan-IsConsistent orphan pool same new c = record {
    distinct = insert-IsDistinct orphan.hash orphan pool.orphans c.distinct;
    keyed = λ h o e.
        key h o (orphan.hash == h) refl (sym (lookup-insert orphan.hash h orphan pool.orphans) ∙ e);
    listed = λ h o e.
        ap (is_listed h) (waiting-push o.previous)
        ∙ list h o (orphan.hash == h) refl
            (sym (lookup-insert orphan.hash h orphan pool.orphans) ∙ e)
            (orphan.previous == o.previous) refl;
    held = λ p. subst (All (Held p)) (sym (waiting-push p)) (hold p (orphan.previous == p) refl);
    known = c.known;
  }
    where
      Held : ℕ → Orphan → Type 0
      Held p o =
          (o.previous ≡ p) × (lookup o.hash (insert orphan.hash orphan pool.orphans) ≡ some o)

      waiting-push :
          (p : ℕ)
          → waiting p (push_orphan orphan pool) ≡ (
              if orphan.previous == p
              then waiting orphan.previous pool ++ (orphan ∷ [])
              else waiting p pool)
      waiting-push p =
          ap orphans_or_nil (
            lookup-insert orphan.previous p (waiting orphan.previous pool ++ (orphan ∷ []))
              pool.prev_orphans)
          ∙ split (orphan.previous == p)
        where
          split :
              (t : Bool)
              → orphans_or_nil (
                  if t
                  then some (waiting orphan.previous pool ++ (orphan ∷ []))
                  else lookup p pool.prev_orphans)
                ≡ (if t then waiting orphan.previous pool ++ (orphan ∷ []) else waiting p pool)
          split true = refl
          split false = refl

      key :
          (h : ℕ) (o : Orphan) (t : Bool)
          → (orphan.hash == h) ≡ t
          → (if t then some orphan else lookup h pool.orphans) ≡ some o
          → (o.hash ≡ h) × (o.previous ≡ previous_of h)
      key h o true e found =
          let at : orphan.hash ≡ h = (==_iff _ _).0 e in
          subst (λ (q : Orphan). (q.hash ≡ h) × (q.previous ≡ previous_of h))
            (some-injective _ _ found) (at, same ∙ ap previous_of at)
      key h o false e found = c.keyed h o found

      list :
          (h : ℕ) (o : Orphan) (t : Bool)
          → (orphan.hash == h) ≡ t
          → (if t then some orphan else lookup h pool.orphans) ≡ some o
          → (u : Bool) → (orphan.previous == o.previous) ≡ u
          → is_listed h
              (if u then waiting orphan.previous pool ++ (orphan ∷ []) else waiting o.previous pool)
            ≡ true
      list h o true e found true f =
          ap (λ k. is_listed k (waiting orphan.previous pool ++ (orphan ∷ [])))
            (sym ((==_iff orphan.hash h).0 e))
          ∙ is_listed-last (waiting orphan.previous pool) orphan
      list h o true e found false f = cc (
          sym f
          ∙ (==_iff orphan.previous o.previous).1
              (ap (λ (q : Orphan). q.previous) (some-injective _ _ found)))
      list h o false e found true f =
          is_listed-append h (waiting orphan.previous pool) orphan
            (ap (λ q. is_listed h (waiting q pool)) ((==_iff _ _).0 f) ∙ c.listed h o found)
      list h o false e found false f = c.listed h o found

      old :
          (p : ℕ) (o : Orphan) → (o.previous ≡ p) × (lookup o.hash pool.orphans ≡ some o) → Held p o
      old p o h = (
        h.0,
        lookup-insert orphan.hash o.hash orphan pool.orphans
            ∙ rw
                (==_false {a = orphan.hash} {b = o.hash}
                  (λ s. cc (sym new ∙ ap (λ k. lookup k pool.orphans) s ∙ h.1)))
                h.1,
      )

      hold :
          (p : ℕ) (t : Bool)
          → (orphan.previous == p) ≡ t
          → All
              (Held p)
              (if t then waiting orphan.previous pool ++ (orphan ∷ []) else waiting p pool)
      hold p true e =
          All-append (Held p) (waiting orphan.previous pool) orphan
            (All-map (waiting orphan.previous pool) (λ o h. old p o (h.0 ∙ (==_iff _ _).0 e, h.1))
              (c.held orphan.previous))
            (
              (==_iff _ _).0 e,
              lookup-insert orphan.hash orphan.hash orphan pool.orphans
                  ∙ rw ((==_iff orphan.hash orphan.hash).1 refl) refl,
            )
      hold p false e = All-map (waiting p pool) (λ o h. old p o h) (c.held p)
