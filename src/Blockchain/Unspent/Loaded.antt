-- ===== src/Blockchain/Unspent/Loaded.antt =====
-- blockchain/chaindata.go: the read of a transaction's indexes into the map.
use elastos_ela_side_chain.Common.{
  ℕ, ◌≡◌, refl, sym, ◌∙◌, ap, subst, Bool, true, false, Option, none, some, List, ◌==◌, ==_iff,
  if◌then◌else◌,
}
use elastos_ela_side_chain.Common.Result.{ok, err, ok-injective}
use elastos_ela_side_chain.Common.Table.{Table, lookup, insert, lookup-insert}
use elastos_ela_side_chain.Blockchain.Unspent.{
  get_uint16_array, not_found, odd_length, values_or_nil, load_unspent,
}
use elastos_ela_side_chain.Blockchain.Unspent.Bytes.{get_uint16_array-IsUint16}
use elastos_ela_side_chain.Blockchain.Unspent.Counts.{
  IsUint16, decoded, stored, or_stored, current, current-insert, Fits, insert-Fits,
}

-- What a read into the map changes: nothing but that the value is there.
pub record Loaded (db unspents : Table (List ℕ)) (hash : ℕ) (loaded : Table (List ℕ)) : Type 0 where
  pub same : (h : ℕ) → current db loaded h ≡ current db unspents h
  pub value : values_or_nil (lookup hash loaded) ≡ current db unspents hash
  pub other : (h : ℕ) → (hash == h) ≡ false → lookup h loaded ≡ lookup h unspents
  pub fits : Fits loaded

pub Loaded-insert :
    (db unspents : Table (List ℕ)) (hash : ℕ) (indexes : List ℕ)
    → current db unspents hash ≡ indexes
    → IsUint16 indexes
    → Fits unspents
    → Loaded db unspents hash (insert hash indexes unspents)
Loaded-insert db unspents hash indexes held small fits = record {
  same = λ h. current-insert db unspents hash h indexes ∙ go h (hash == h) refl;
  value = ap values_or_nil (lookup-insert hash hash indexes unspents) ∙ here (hash == hash) refl;
  other = λ h e. lookup-insert hash h indexes unspents ∙ rw e refl;
  fits = insert-Fits hash indexes unspents small fits;
}
  where
    go :
        (h : ℕ) (t : Bool)
        → (hash == h) ≡ t
        → (if t then indexes else current db unspents h) ≡ current db unspents h
    go h true e = sym held ∙ ap (current db unspents) ((==_iff hash h).0 e)
    go h false e = refl

    here :
        (t : Bool)
        → (hash == hash) ≡ t
        → values_or_nil (if t then some indexes else lookup hash unspents)
          ≡ current db unspents hash
    here true e = sym held
    here false e = cc (sym ((==_iff hash hash).1 refl) ∙ e)

pub load_unspent-Loaded :
    (db unspents : Table (List ℕ)) (hash : ℕ) {loaded : Table (List ℕ)}
    → Fits unspents
    → load_unspent db hash unspents ≡ ok loaded
    → Loaded db unspents hash loaded
unfolding load_unspent
load_unspent-Loaded db unspents hash {loaded} fits e = cached (lookup hash unspents) refl e
  where
    read :
        (found : Option (List ℕ))
        → lookup hash unspents ≡ none
        → stored db hash ≡ values_or_nil found
        → ((xs : List ℕ) → found ≡ some xs → IsUint16 xs)
        → (elim found [ none ↦ err odd_length | some indexes ↦ ok (insert hash indexes unspents) ])
          ≡ ok loaded
        → Loaded db unspents hash loaded
    read none missing held small h = cc
    read (some indexes) missing held small h =
        subst (λ l. Loaded db unspents hash l) (ok-injective h)
          (Loaded-insert db unspents hash indexes (ap (or_stored (stored db hash)) missing ∙ held)
            (small indexes refl) fits)

    stored_in :
        (found : Option (List ℕ))
        → lookup hash unspents ≡ none
        → lookup hash db ≡ found
        → (elim found [
          | none ↦ err not_found
          | some bytes ↦ elim (get_uint16_array bytes) [
            | none ↦ err odd_length
            | some indexes ↦ ok (insert hash indexes unspents)
          ]
        ])
          ≡ ok loaded
        → Loaded db unspents hash loaded
    stored_in none missing held h = cc
    stored_in (some bytes) missing held h =
        read (get_uint16_array bytes) missing (ap decoded held)
          (λ xs r. get_uint16_array-IsUint16 bytes {xs = xs} r) h

    cached :
        (found : Option (List ℕ))
        → lookup hash unspents ≡ found
        → (elim found [
          | some _ ↦ ok unspents
          | none ↦ elim (lookup hash db) [
            | none ↦ err not_found
            | some bytes ↦ elim (get_uint16_array bytes) [
              | none ↦ err odd_length
              | some indexes ↦ ok (insert hash indexes unspents)
            ]
          ]
        ])
          ≡ ok loaded
        → Loaded db unspents hash loaded
    cached (some values) held h =
        subst (λ l. Loaded db unspents hash l) (ok-injective h)
          (record {
            same = λ k. refl;
            value = ap values_or_nil held ∙ sym (ap (or_stored (stored db hash)) held);
            other = λ k e. refl;
            fits = fits;
          })
    cached none held h = stored_in (lookup hash db) held refl h
