-- ===== src/Bloom/Filter/Sound/Transaction.antt =====
-- bloom/filter.go: `matchTxAndUpdate`, from the laws of `add` and `matches`.
use mathlib.Core.Option.{some-injective}
use elastos_ela_side_chain.Common.{
  ℕ, zero, suc, ◌+◌, ◌%◌, ◌^◌, ◌<◌, ◌≡◌, refl, sym, ◌∙◌, ap, Bool, true, false, ◌||◌, Option, some,
  List, [], ◌∷◌, length, get_elem?, arith, if◌then◌else◌, ◌⊎◌, inl, inr,
}
use elastos_ela_side_chain.Core.{OutPoint, Output, Transaction, Input}
use elastos_ela_side_chain.Bloom.Filter.{
  FilterLoad, Filter, ◌>>=◌, matches, add, match_outputs, match_inputs, match_tx_and_update,
}
use elastos_ela_side_chain.Bloom.Filter.Sound.{matches-total, add-matches, add-keeps}

-- A filter of at least a byte, whose bits a uint32 counts.
abbrev pub IsSized : FilterLoad → Type 0
IsSized msg = (0 < length msg.filter) × (length msg.filter < 2 ^ 29)

false_is_true {ℓ} : {A : Type ℓ} → false ≡ true → A
false_is_true e = cc

abbrev ended : Bool → FilterLoad → Option (Bool × Filter)
ended matched msg = some (matched, some msg)

-- Whatever matched a filter matches a later one.
abbrev pub Keeps : FilterLoad → FilterLoad → Type 0
Keeps old new =
    (bytes : List ℕ) → matches (some old) bytes ≡ some true → matches (some new) bytes ≡ some true

module _ (hash_bytes : ℕ → List ℕ) (outpoint_bytes : OutPoint → List ℕ) where
  abbrev pub outpoint_at : ℕ → ℕ → List ℕ
  outpoint_at hash i = outpoint_bytes (record { tx_id = hash; index = i % 2 ^ 16 })

  -- What the loop over the outputs from index `i` on has done when it ends.
  record Scanned (hash i : ℕ) (outputs : List Output) (matched : Bool) (msg : FilterLoad)
      : Type 0 where
    matched' : Bool
    msg' : FilterLoad
    result :
        match_outputs hash_bytes outpoint_bytes hash i outputs matched (some msg)
        ≡ some (matched', some msg')
    sized : IsSized msg'
    keeps : Keeps msg msg'
    stays : matched ≡ true → matched' ≡ true
    recorded :
        (k : ℕ) {output : Output}
        → get_elem? outputs k ≡ some output
        → matches (some msg) output.program_hash ≡ some true
        → (matched' ≡ true) × (matches (some msg') (outpoint_at hash (i + k)) ≡ some true)

  -- One round of the loop, given the filter it leaves and what the rounds after it do.
  Scanned-cons :
      (hash i : ℕ) (output : Output) (outputs : List Output) (matched found : Bool)
      (msg msg1 : FilterLoad)
      → matches (some msg) output.program_hash ≡ some found
      → (if found then add (some msg) (outpoint_at hash i) else some (some msg)) ≡ some (some msg1)
      → Keeps msg msg1
      → (found ≡ true → matches (some msg1) (outpoint_at hash i) ≡ some true)
      → Scanned hash (i + 1) outputs (matched || found) msg1
      → Scanned hash i (output ∷ outputs) matched msg
  unfolding match_outputs
  Scanned-cons hash i output outputs matched found msg msg1 e first keeps1 here rest = record {
    matched' = rest.matched';
    msg' = rest.msg';
    result = rw (e, first) rest.result;
    sized = rest.sized;
    keeps = λ bytes h. rest.keeps bytes (keeps1 bytes h);
    stays = λ h. rest.stays (rw h refl);
    recorded = at_index;
  }
    where
      or_true : (a : Bool) {b : Bool} → b ≡ true → (a || b) ≡ true
      or_true true h = refl
      or_true false h = h

      at_index :
          (k : ℕ) {o : Output}
          → get_elem? (output ∷ outputs) k ≡ some o
          → matches (some msg) o.program_hash ≡ some true
          → (rest.matched' ≡ true)
            × (matches (some rest.msg') (outpoint_at hash (i + k)) ≡ some true)
      at_index zero at hit =
          let same : output ≡ _ = some-injective _ _ at in
          let is_found : found ≡ true =
            some-injective _ _
              (sym e ∙ ap (λ (t : Output). matches (some msg) t.program_hash) same ∙ hit) in
          let start : i + 0 ≡ i = omega arith in
          (
            rest.stays (or_true matched is_found),
            ap (λ n. matches (some rest.msg') (outpoint_at hash n)) start
                ∙ rest.keeps (outpoint_at hash i) (here is_found),
          )
      at_index (suc k) at hit =
          let (all, kept) = rest.recorded k at (keeps1 _ hit) in
          let shift : i + suc k ≡ i + 1 + k = omega arith in
          (all, ap (λ n. matches (some rest.msg') (outpoint_at hash n)) shift ∙ kept)

  match_outputs-Scanned :
      (hash i : ℕ) (outputs : List Output) (matched : Bool) (msg : FilterLoad)
      → IsSized msg
      → Scanned hash i outputs matched msg
  unfolding match_outputs
  match_outputs-Scanned hash i [] matched msg s = record {
    matched' = matched;
    msg' = msg;
    result = refl;
    sized = s;
    keeps = λ bytes h. h;
    stays = λ h. h;
    recorded = λ k at. cc;
  }
  match_outputs-Scanned hash i (output ∷ outputs) matched msg s =
      let (found, e) = matches-total msg output.program_hash s.0 s.1 in
      go (λ m msg1 s1. match_outputs-Scanned hash (i + 1) outputs m msg1 s1) found e
    where
      go :
          ((m : Bool) (msg1 : FilterLoad) → IsSized msg1 → Scanned hash (i + 1) outputs m msg1)
          → (found : Bool) → matches (some msg) output.program_hash ≡ some found
          → Scanned hash i (output ∷ outputs) matched msg
      go rest true e =
          let (msg1, added, same, now) = add-matches msg (outpoint_at hash i) s.0 s.1 in
          let before : Keeps msg msg1 =
            λ bytes. add-keeps msg msg1 (outpoint_at hash i) bytes added in
          Scanned-cons hash i output outputs matched true msg msg1 e added before (λ t. now)
            (rest (matched || true) msg1 (rw same s))
      go rest false e =
          Scanned-cons hash i output outputs matched false msg msg e refl (λ bytes h. h) (λ t. cc)
            (rest (matched || false) msg s)

  match_inputs-total :
      (inputs : List Input) (msg : FilterLoad)
      → IsSized msg
      → (b : Bool) × (match_inputs hash_bytes outpoint_bytes inputs (some msg) ≡ some b)
  unfolding match_inputs
  match_inputs-total [] msg s = (false, refl)
  match_inputs-total (input ∷ inputs) msg s =
      let (found, e) = matches-total msg (outpoint_bytes input.previous) s.0 s.1 in
      let (b, rest) = match_inputs-total inputs msg s in
      ((if found then true else b), rw (e, rest) (by_found found b))
    where
      by_found :
          (found b : Bool)
          → (if found then some true else some b) ≡ some (if found then true else b)
      by_found true b = refl
      by_found false b = refl

  -- On a filter of at least one byte and at most 2 ^ 29 - 1 bytes that the program hash of the
  -- output at index `k` of a transaction matches, `matchTxAndUpdate` does not panic, finds the
  -- transaction relevant, and leaves a filter that the outpoint of that output (with `k` as a
  -- uint16) matches, so that a transaction that spends it is found relevant too.
  pub match_tx_and_update-outpoint :
      (tx : Transaction) (msg : FilterLoad) (k : ℕ) (output : Output)
      → IsSized msg
      → get_elem? tx.outputs k ≡ some output
      → matches (some msg) output.program_hash ≡ some true
      → (msg' : FilterLoad) × (match_tx_and_update hash_bytes outpoint_bytes tx (some msg)
          ≡ some (true, some msg'))
        × (matches (some msg') (outpoint_at tx.hash k) ≡ some true)
  unfolding match_tx_and_update
  match_tx_and_update-outpoint tx msg k output s at hit =
      let (by_hash, e) = matches-total msg (hash_bytes tx.hash) s.0 s.1 in
      let scan = match_outputs-Scanned tx.hash 0 tx.outputs by_hash msg s in
      let (all, kept) = scan.recorded k at hit in
      let from_zero : k ≡ 0 + k = omega arith in
      (
        scan.msg',
        rw (e, scan.result, all) refl,
        ap (λ n. matches (some scan.msg') (outpoint_at tx.hash n)) from_zero ∙ kept,
      )

  -- On a filter of at least one byte and at most 2 ^ 29 - 1 bytes, `matchTxAndUpdate` does not
  -- panic, whatever the transaction, and what matched the filter matches the one it leaves.
  pub match_tx_and_update-keeps :
      (tx : Transaction) (msg : FilterLoad) (bytes : List ℕ)
      → IsSized msg
      → (before : Bool) × (matched : Bool) × (msg' : FilterLoad) × (matches (some msg) bytes
          ≡ some before)
        × (match_tx_and_update hash_bytes outpoint_bytes tx (some msg) ≡ some (matched, some msg'))
        × ((before ≡ false) ⊎ (matches (some msg') bytes ≡ some true))
  unfolding match_tx_and_update
  match_tx_and_update-keeps tx msg bytes s =
      let (by_hash, e) = matches-total msg (hash_bytes tx.hash) s.0 s.1 in
      let scan = match_outputs-Scanned tx.hash 0 tx.outputs by_hash msg s in
      let (spends, spent) = match_inputs-total tx.inputs scan.msg' scan.sized in
      let (before, was) = matches-total msg bytes s.0 s.1 in
      (
        before,
        (if scan.matched' then true else spends),
        scan.msg',
        was,
        rw (e, scan.result) (by_outputs scan.matched' spent),
        by_before before scan.msg' was (scan.keeps bytes),
      )
    where
      by_outputs :
          (m : Bool) {msg' : FilterLoad} {spends : Bool}
          → match_inputs hash_bytes outpoint_bytes tx.inputs (some msg') ≡ some spends
          → (if m
              then ended true msg'
              else (match_inputs hash_bytes outpoint_bytes tx.inputs (some msg') >>= λ b.
                  ended b msg'))
            ≡ ended (if m then true else spends) msg'
      by_outputs true spent = refl
      by_outputs false spent = rw spent refl

      by_before :
          (before : Bool) (msg' : FilterLoad)
          → matches (some msg) bytes ≡ some before
          → (matches (some msg) bytes ≡ some true → matches (some msg') bytes ≡ some true)
          → (before ≡ false) ⊎ (matches (some msg') bytes ≡ some true)
      by_before true msg' was keeps = inr (keeps was)
      by_before false msg' was keeps = inl refl
