-- ===== src/Blockchain/Orphans/Process.antt =====
-- blockchain/blockchain.go: `ProcessOrphans` ends, and what it leaves.
use mathlib.Core.Option.{some-injective}
use elastos_ela_side_chain.Common.{
  ℕ, zero, suc, ◌+◌, ◌≤◌, ◌<◌, ◌≡◌, refl, sym, subst, ◌∙◌, ap, Bool, true, false, Option, none,
  some, List, [], ◌∷◌, ◌++◌, length, length-append, ◌==◌, ==_iff, if◌then◌else◌, All, arith,
}
use elastos_ela_side_chain.Common.Table.{Table, lookup, insert, erase}
use elastos_ela_side_chain.Blockchain.Orphans.{
  Orphan, OrphanPool, orphans_or_nil, waiting, without_hash, put_or_delete, remove_orphan_block,
  Processed, accept_waiting, process_hashes, process_orphans,
}
use elastos_ela_side_chain.Blockchain.Orphans.Remove.{waiting-remove_orphan_block}
use elastos_ela_side_chain.Blockchain.Orphans.Consistent.{
  IsConsistent, remove_orphan_block-IsConsistent,
}

-- How many orphans wait in all.
abbrev pub total : Table (List Orphan) → ℕ
total [] = 0
total (entry ∷ m) = length entry.1 + total m

total-erase_le : (p : ℕ) (m : Table (List Orphan)) → total (erase p m) ≤ total m
unfolding erase
total-erase_le p [] = omega arith
total-erase_le p (entry ∷ m) = go (entry.0 == p) (total-erase_le p m)
  where
    go :
        (t : Bool)
        → total (erase p m) ≤ total m
        → total (if t then erase p m else entry ∷ erase p m) ≤ length entry.1 + total m
    go true h = omega arith
    go false h = omega arith

total-erase :
    (p : ℕ) (m : Table (List Orphan))
    → total (erase p m) + length (orphans_or_nil (lookup p m)) ≤ total m
unfolding erase lookup
total-erase p [] = omega arith
total-erase p (entry ∷ m) = go (entry.0 == p) (total-erase_le p m) (total-erase p m)
  where
    go :
        (t : Bool)
        → total (erase p m) ≤ total m
        → total (erase p m) + length (orphans_or_nil (lookup p m)) ≤ total m
        → total (if t then erase p m else entry ∷ erase p m)
            + length (orphans_or_nil (if t then some entry.1 else lookup p m))
          ≤ length entry.1 + total m
    go true le h = omega arith
    go false le h = omega arith

total-put_or_delete :
    (p : ℕ) (l : List Orphan) (m : Table (List Orphan))
    → total (put_or_delete p l m) ≤ length l + total (erase p m)
unfolding insert
total-put_or_delete p [] m = omega arith
total-put_or_delete p (o ∷ l) m = omega arith

without_hash-length : (k : ℕ) (l : List Orphan) → length (without_hash k l) ≤ length l
unfolding without_hash
without_hash-length k [] = omega arith
without_hash-length k (o ∷ l) = go (o.hash == k) (without_hash-length k l)
  where
    go :
        (t : Bool)
        → length (without_hash k l) ≤ length l
        → length (if t then without_hash k l else o ∷ without_hash k l) ≤ suc (length l)
    go true h = omega arith
    go false h = omega arith

without_hash-head : (o : Orphan) (l : List Orphan) → length (without_hash o.hash (o ∷ l)) ≤ length l
unfolding without_hash
without_hash-head o l =
    go (o.hash == o.hash) ((==_iff o.hash o.hash).1 refl) (without_hash-length o.hash l)
  where
    go :
        (t : Bool)
        → t ≡ true
        → length (without_hash o.hash l) ≤ length l
        → length (if t then without_hash o.hash l else o ∷ without_hash o.hash l) ≤ length l
    go true e h = h
    go false e h = cc

-- The removal of one that waits leaves fewer.
remove_orphan_block-total :
    (hash : ℕ) (orphan : Orphan) (rest : List Orphan) (pool : OrphanPool)
    → orphan.previous ≡ hash
    → waiting hash pool ≡ orphan ∷ rest
    → total (remove_orphan_block orphan pool).prev_orphans + 1 ≤ total pool.prev_orphans
unfolding remove_orphan_block
remove_orphan_block-total hash orphan rest pool previous head =
    let own : waiting orphan.previous pool ≡ orphan ∷ rest =
      ap (λ q. waiting q pool) previous ∙ head in
    let put =
      total-put_or_delete orphan.previous (without_hash orphan.hash (waiting orphan.previous pool))
        pool.prev_orphans in
    let erased = total-erase orphan.previous pool.prev_orphans in
    let fewer : length (without_hash orphan.hash (waiting orphan.previous pool)) ≤ length rest =
      subst (λ l. length (without_hash orphan.hash l) ≤ length rest) (sym own)
        (without_hash-head orphan rest) in
    let size : length (waiting orphan.previous pool) ≡ suc (length rest) = ap length own in
    omega arith

-- What nothing waits for stays so.
remove_orphan_block-empty :
    (orphan : Orphan) (pool : OrphanPool) (q : ℕ)
    → waiting q pool ≡ []
    → waiting q (remove_orphan_block orphan pool) ≡ []
unfolding without_hash
remove_orphan_block-empty orphan pool q e =
    waiting-remove_orphan_block orphan pool q ∙ go (orphan.previous == q) refl
  where
    go :
        (t : Bool)
        → (orphan.previous == q) ≡ t
        → (if t then without_hash orphan.hash (waiting orphan.previous pool) else waiting q pool)
          ≡ []
    go true f =
        ap (without_hash orphan.hash)
          (ap (λ k. waiting k pool) ((==_iff orphan.previous q).0 f) ∙ e)
    go false f = e

abbrev pub has_error {ℓ} : {E : Type ℓ} → Option E → Bool
has_error none = false
has_error (some e) = true

module _ {ℓ κ} {E : Type ℓ} {S : Type κ} (maybe_accept_block : Orphan → S → Option E × S)
    (previous_of : ℕ → ℕ) where
  -- A stop of the loops, from a queue and a pool on.
  record Stops (hash : ℕ) (queue : List ℕ) (pool : OrphanPool) (p : Processed E S) : Type 0 where
    consistent : IsConsistent previous_of p.pool
    fewer : length p.hashes + total p.pool.prev_orphans ≤ length queue + total pool.prev_orphans
    none_waits : has_error p.error ≡ false → waiting hash p.pool ≡ []
    empty : (q : ℕ) → waiting q pool ≡ [] → waiting q p.pool ≡ []

  accept_waiting-Stops :
      (fuel hash : ℕ) (queue : List ℕ) (pool : OrphanPool) (state : S)
      → total pool.prev_orphans < fuel
      → IsConsistent previous_of pool
      → (p : Processed E S) × (accept_waiting maybe_accept_block fuel hash queue pool state
          ≡ some p)
        × Stops hash queue pool p
  unfolding accept_waiting
  accept_waiting-Stops zero hash queue pool state enough c = absurd (omega arith)
  accept_waiting-Stops (suc fuel) hash queue pool state enough c =
      go (waiting hash pool) refl (c.held hash)
        (λ queue pool state e c. accept_waiting-Stops fuel hash queue pool state e c)
    where
      Ends : Option (Processed E S) → Type (ℓ ⊔ κ)
      Ends found = (p : Processed E S) × (found ≡ some p) × Stops hash queue pool p

      go :
          (w : List Orphan)
          → waiting hash pool ≡ w
          → All (λ (o : Orphan). (o.previous ≡ hash) × (lookup o.hash pool.orphans ≡ some o)) w
          → ((queue : List ℕ) (pool : OrphanPool) (state : S)
              → total pool.prev_orphans < fuel
              → IsConsistent previous_of pool
              → (p : Processed E S) × (accept_waiting maybe_accept_block fuel hash queue pool state
                  ≡ some p)
                × Stops hash queue pool p)
          → Ends (elim w [
            | [] ↦ some (record { error = none; hashes = queue; pool = pool; state = state })
            | orphan ∷ _ ↦
                let left = remove_orphan_block orphan pool in
                let (error, after) = maybe_accept_block orphan state in
                let rest =
                  accept_waiting maybe_accept_block fuel hash
                    (queue ++ (orphan.hash ∷ []))
                    left
                    after in
                elim error [
                  | none ↦ rest
                  | some e ↦
                      some (record { error = some e; hashes = queue; pool = left; state = after })
                ]
          ])
      go [] e h ih = (
        record { error = none; hashes = queue; pool = pool; state = state },
        refl,
        record { consistent = c; fewer = omega arith; none_waits = λ _. e; empty = λ q f. f },
      )
      go (orphan ∷ others) e h ih =
          let previous : orphan.previous ≡ hash = h.0.0 in
          let less = remove_orphan_block-total hash orphan others pool previous e in
          let known : orphan.previous ≡ previous_of orphan.hash =
            (c.keyed orphan.hash orphan h.0.1).1 in
          let consistent = remove_orphan_block-IsConsistent previous_of orphan pool known c in
          let after = (maybe_accept_block orphan state).1 in
          finish (maybe_accept_block orphan state).0 orphan after less consistent (
            ih (queue ++ (orphan.hash ∷ [])) (remove_orphan_block orphan pool) after (omega arith)
              consistent)
        where
          finish :
              (error : Option E) (orphan : Orphan) (after : S)
              → total (remove_orphan_block orphan pool).prev_orphans + 1 ≤ total pool.prev_orphans
              → IsConsistent previous_of (remove_orphan_block orphan pool)
              → (p : Processed E S) × (accept_waiting maybe_accept_block fuel hash
                    (queue ++ (orphan.hash ∷ []))
                    (remove_orphan_block orphan pool)
                    after
                  ≡ some p)
                × Stops hash (queue ++ (orphan.hash ∷ [])) (remove_orphan_block orphan pool) p
              → Ends (elim error [
                | none ↦
                    accept_waiting maybe_accept_block fuel hash
                      (queue ++ (orphan.hash ∷ []))
                      (remove_orphan_block orphan pool)
                      after
                | some e ↦ some (record {
                  error = some e;
                  hashes = queue;
                  pool = remove_orphan_block orphan pool;
                  state = after;
                })
              ])
          finish none orphan after less consistent (p, found, stops) =
              let few = stops.fewer in
              let size = length-append queue (orphan.hash ∷ []) in
              (
                p,
                found,
                record {
                  consistent = stops.consistent;
                  fewer = omega arith;
                  none_waits = stops.none_waits;
                  empty = λ q f. stops.empty q (remove_orphan_block-empty orphan pool q f);
                },
              )
          finish (some e) orphan after less consistent rest = (
            _,
            refl,
            record {
              consistent = consistent;
              fewer = omega arith;
              none_waits = λ f. cc;
              empty = λ q f. remove_orphan_block-empty orphan pool q f;
            },
          )

  -- No orphan waits for the first hash any more, if there was no error.
  abbrev NoneWaits : List ℕ → Processed E S → Type 0
  NoneWaits [] p = Unit
  NoneWaits (hash ∷ hashes) p = has_error p.error ≡ false → waiting hash p.pool ≡ []

  process_hashes-Stops :
      (fuel : ℕ) (hashes : List ℕ) (pool : OrphanPool) (state : S)
      → length hashes + total pool.prev_orphans ≤ fuel
      → IsConsistent previous_of pool
      → (p : Processed E S) × (process_hashes maybe_accept_block fuel hashes pool state ≡ some p)
        × IsConsistent previous_of p.pool
        × ((q : ℕ) → waiting q pool ≡ [] → waiting q p.pool ≡ [])
        × NoneWaits hashes p
  unfolding process_hashes
  process_hashes-Stops fuel [] pool state enough c =
      (record { error = none; hashes = []; pool = pool; state = state }, refl, c, (λ q e. e), tt)
  process_hashes-Stops zero (hash ∷ hashes) pool state enough c = absurd (omega arith)
  process_hashes-Stops (suc fuel) (hash ∷ hashes) pool state enough c =
      let (p, found, stops) =
        accept_waiting-Stops (suc fuel) hash hashes pool state (omega arith) c in
      let few = stops.fewer in
      go p stops.consistent stops.empty stops.none_waits
        (accept_waiting maybe_accept_block (suc fuel) hash hashes pool state) found
        (process_hashes-Stops fuel p.hashes p.pool p.state (omega arith) stops.consistent)
    where
      Ends : Option (Processed E S) → Type (ℓ ⊔ κ)
      Ends found =
          (p : Processed E S) × (found ≡ some p)
          × IsConsistent previous_of p.pool
          × ((q : ℕ) → waiting q pool ≡ [] → waiting q p.pool ≡ [])
          × NoneWaits (hash ∷ hashes) p

      error_of :
          (p : Processed E S)
          → IsConsistent previous_of p.pool
          → ((q : ℕ) → waiting q pool ≡ [] → waiting q p.pool ≡ [])
          → (has_error p.error ≡ false → waiting hash p.pool ≡ [])
          → (r : Processed E S) × (process_hashes maybe_accept_block fuel p.hashes p.pool p.state
              ≡ some r)
            × IsConsistent previous_of r.pool
            × ((q : ℕ) → waiting q p.pool ≡ [] → waiting q r.pool ≡ [])
            × NoneWaits p.hashes r
          → (error : Option E) → p.error ≡ error
          → Ends (elim error [
            | none ↦ process_hashes maybe_accept_block fuel p.hashes p.pool p.state
            | some e ↦ some p
          ])
      error_of p c empty waits (r, found, rc, rest, _) none e =
          (r, found, rc, (λ q f. rest q (empty q f)), λ _. rest hash (waits (ap has_error e)))
      error_of p c empty waits r (some x) e = (p, refl, c, empty, λ f. cc (sym f ∙ ap has_error e))

      go :
          (p : Processed E S)
          → IsConsistent previous_of p.pool
          → ((q : ℕ) → waiting q pool ≡ [] → waiting q p.pool ≡ [])
          → (has_error p.error ≡ false → waiting hash p.pool ≡ [])
          → (found : Option (Processed E S)) → found ≡ some p
          → (r : Processed E S) × (process_hashes maybe_accept_block fuel p.hashes p.pool p.state
              ≡ some r)
            × IsConsistent previous_of r.pool
            × ((q : ℕ) → waiting q p.pool ≡ [] → waiting q r.pool ≡ [])
            × NoneWaits p.hashes r
          → Ends (elim found [
            | none ↦ none
            | some p ↦
                let rest = process_hashes maybe_accept_block fuel p.hashes p.pool p.state in
                elim p.error [ none ↦ rest | some e ↦ some p ]
          ])
      go p c empty waits none f r = cc
      go p c empty waits (some s) f r =
          let same : p ≡ s = sym (some-injective _ _ f) in
          subst
            (λ (x : Processed E S). Ends (elim x.error [
              | none ↦ process_hashes maybe_accept_block fuel x.hashes x.pool x.state
              | some e ↦ some x
            ]))
            same (error_of p c empty waits r p.error refl)

  -- On orphans whose maps agree, `ProcessOrphans` ends, whatever `maybeAcceptBlock` does, with fuel for
  -- one round more than there are orphans that wait; it leaves maps that agree, and if no block was
  -- refused then no orphan waits for the block that it was called for.
  pub process_orphans-IsConsistent :
      (fuel hash : ℕ) (pool : OrphanPool) (state : S)
      → total pool.prev_orphans < fuel
      → IsConsistent previous_of pool
      → (p : Processed E S) × (process_orphans maybe_accept_block fuel hash pool state ≡ some p)
        × IsConsistent previous_of p.pool
        × (has_error p.error ≡ false → waiting hash p.pool ≡ [])
  unfolding process_orphans
  process_orphans-IsConsistent fuel hash pool state enough c =
      let (p, found, consistent, _, none_waits) =
        process_hashes-Stops fuel (hash ∷ []) pool state (omega arith) c in
      (p, found, consistent, none_waits)
