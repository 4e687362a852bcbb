-- ===== src/Bloom/Filter/Sound.antt =====
-- bloom/filter.go: `add` and `matches` together.
pub mod Transaction
use native.Mathlib.Nat.{mod-lt}
use mathlib.Core.Option.{some-injective}
use elastos_ela_side_chain.Common.{
  ℕ, zero, suc, ◌+◌, ◌-◌, ◌*◌, ◌/◌, ◌%◌, ◌^◌, ◌≤◌, ◌<◌, ◌≡◌, refl, sym, ◌∙◌, ap, Bool, true, false,
  Option, none, some, List, [], ◌∷◌, length, if◌then◌else◌, ◌==◌, ==_iff, ==_false, arith,
}
use elastos_ela_side_chain.Bloom.Murmur.{murmur_hash3}
use elastos_ela_side_chain.Bloom.Filter.{
  FilterLoad, Filter, ◌>>=◌, bit_count, bit_offset, test_bit, set_bit, matches_from, matches,
  add_from, add,
}
use elastos_ela_side_chain.Bloom.Filter.Bits.{
  >>=-eq-some, set_bit-length, set_bit-test_bit, set_bit-keeps, set_bit-total, test_bit-total,
}

-- A later state of a filter: it has the same shape, and no bit was cleared.
pub record Grown (old new : FilterLoad) : Type 0 where
  pub same_hash_funcs : new.hash_funcs ≡ old.hash_funcs
  pub same_tweak : new.tweak ≡ old.tweak
  pub same_length : length new.filter ≡ length old.filter
  pub kept : (j : ℕ) → test_bit old.filter j ≡ some true → test_bit new.filter j ≡ some true

Grown-refl : (msg : FilterLoad) → Grown msg msg
Grown-refl msg = record {
  same_hash_funcs = refl;
  same_tweak = refl;
  same_length = refl;
  kept = λ j h. h;
}

pub Grown-trans : {a b c : FilterLoad} → Grown a b → Grown b c → Grown a c
Grown-trans p q = record {
  same_hash_funcs = q.same_hash_funcs ∙ p.same_hash_funcs;
  same_tweak = q.same_tweak ∙ p.same_tweak;
  same_length = q.same_length ∙ p.same_length;
  kept = λ j h. q.kept j (p.kept j h);
}

set_bit-Grown :
    (msg : FilterLoad) (idx : ℕ) {filter' : List ℕ}
    → set_bit msg.filter idx ≡ some filter'
    → Grown msg (record msg { filter = filter' })
set_bit-Grown msg idx e = record {
  same_hash_funcs = refl;
  same_tweak = refl;
  same_length = set_bit-length msg.filter idx e;
  kept = set_bit-keeps msg.filter idx e;
}

bit_offset-Grown :
    {old new : FilterLoad} (g : Grown old new) (i : ℕ) (bytes : List ℕ)
    → bit_offset new i bytes ≡ bit_offset old i bytes
unfolding bit_offset
bit_offset-Grown g i bytes = rw (g.same_length, g.same_tweak) refl

matches_step :
    (rounds i : ℕ) (msg : FilterLoad) (bytes : List ℕ)
    → matches_from (suc rounds) i msg bytes ≡ some true
    → (idx : ℕ) × (bit_offset msg i bytes ≡ some idx)
      × (test_bit msg.filter idx ≡ some true)
      × (matches_from rounds (i + 1) msg bytes ≡ some true)
unfolding matches_from
matches_step rounds i msg bytes e =
    let (idx, at, tested) = >>=-eq-some (bit_offset msg i bytes) _ e in
    let (found, read, rest) = >>=-eq-some (test_bit msg.filter idx) _ tested in
    go found idx at read rest
  where
    go :
        (found : Bool) (idx : ℕ)
        → bit_offset msg i bytes ≡ some idx
        → test_bit msg.filter idx ≡ some found
        → (if found then matches_from rounds (i + 1) msg bytes else some false) ≡ some true
        → (idx : ℕ) × (bit_offset msg i bytes ≡ some idx)
          × (test_bit msg.filter idx ≡ some true)
          × (matches_from rounds (i + 1) msg bytes ≡ some true)
    go true idx at read rest = (idx, at, read, rest)
    go false idx at read rest = cc

matches_from-suc :
    (rounds i : ℕ) (msg : FilterLoad) (bytes : List ℕ) {idx : ℕ}
    → bit_offset msg i bytes ≡ some idx
    → test_bit msg.filter idx ≡ some true
    → matches_from rounds (i + 1) msg bytes ≡ some true
    → matches_from (suc rounds) i msg bytes ≡ some true
unfolding matches_from
matches_from-suc rounds i msg bytes at read rest = rw (at, read, rest) refl

add_step :
    (rounds i : ℕ) (msg : FilterLoad) (bytes : List ℕ) {msg' : FilterLoad}
    → add_from (suc rounds) i msg bytes ≡ some msg'
    → (idx : ℕ) × (bit_offset msg i bytes ≡ some idx)
      × (filter' : List ℕ) × (set_bit msg.filter idx ≡ some filter')
      × (add_from rounds (i + 1) (record msg { filter = filter' }) bytes ≡ some msg')
unfolding add_from
add_step rounds i msg bytes e =
    let (idx, at, written) = >>=-eq-some (bit_offset msg i bytes) _ e in
    let (filter', set_at, rest) = >>=-eq-some (set_bit msg.filter idx) _ written in
    (idx, at, filter', set_at, rest)

add_from-Grown :
    (rounds i : ℕ) (msg : FilterLoad) (bytes : List ℕ) {msg' : FilterLoad}
    → add_from rounds i msg bytes ≡ some msg'
    → Grown msg msg'
unfolding add_from
add_from-Grown zero i msg bytes e = let same = some-injective _ _ e in rw (← same) (Grown-refl msg)
add_from-Grown (suc rounds) i msg bytes e =
    let (idx, at, filter', set_at, rest) = add_step rounds i msg bytes e in
    Grown-trans (set_bit-Grown msg idx set_at) (add_from-Grown rounds (i + 1) _ bytes rest)

matches_from-Grown :
    (rounds i : ℕ) {old new : FilterLoad} (bytes : List ℕ)
    → Grown old new
    → matches_from rounds i old bytes ≡ some true
    → matches_from rounds i new bytes ≡ some true
unfolding matches_from
matches_from-Grown zero i bytes g e = refl
matches_from-Grown (suc rounds) i {old} {new} bytes g e =
    let (idx, at, read, rest) = matches_step rounds i old bytes e in
    matches_from-suc rounds i new bytes (bit_offset-Grown g i bytes ∙ at) (g.kept idx read)
      (matches_from-Grown rounds (i + 1) bytes g rest)

add_from-matches_from :
    (rounds i : ℕ) (msg : FilterLoad) (bytes : List ℕ) {msg' : FilterLoad}
    → add_from rounds i msg bytes ≡ some msg'
    → matches_from rounds i msg' bytes ≡ some true
unfolding matches_from
add_from-matches_from zero i msg bytes e = refl
add_from-matches_from (suc rounds) i msg bytes {msg'} e =
    let (idx, at, filter', set_at, rest) = add_step rounds i msg bytes e in
    let later = add_from-Grown rounds (i + 1) _ bytes rest in
    let whole = add_from-Grown (suc rounds) i msg bytes e in
    matches_from-suc rounds i msg' bytes (bit_offset-Grown whole i bytes ∙ at)
      (later.kept idx (set_bit-test_bit msg.filter idx set_at))
      (add_from-matches_from rounds (i + 1) _ bytes rest)

-- The bits of a filter of `size` bytes that a uint32 can count.
bit_inside :
    (size h : ℕ)
    → 0 < size
    → size < 2 ^ 29
    → ((size * 8 % 2 ^ 32 == 0) ≡ false) × (h % (size * 8 % 2 ^ 32) / 8 < size)
bit_inside size h positive fits =
    let exact : size * 8 % 2 ^ 32 ≡ size * 8 = omega arith in
    let some_bits : 0 < size * 8 = omega arith in
    rw exact (==_false (λ e. absurd (omega arith)), omega (arith, mod-lt h some_bits))

module _ (msg : FilterLoad) (positive : 0 < length msg.filter)
    (fits : length msg.filter < 2 ^ 29) where
  bit_offset-total :
      (i : ℕ) (bytes : List ℕ)
      → (idx : ℕ) × (bit_offset msg i bytes ≡ some idx) × (idx / 8 < length msg.filter)
  unfolding bit_offset
  bit_offset-total i bytes =
      let h = murmur_hash3 ((i * 0xfba4c795 + msg.tweak) % 2 ^ 32) bytes in
      let (some_bits, inside) = bit_inside (length msg.filter) h positive fits in
      (h % bit_count msg, rw some_bits refl, inside)

add_from-total :
    (rounds i : ℕ) (msg : FilterLoad) (bytes : List ℕ)
    → 0 < length msg.filter
    → length msg.filter < 2 ^ 29
    → (msg' : FilterLoad) × (add_from rounds i msg bytes ≡ some msg')
unfolding add_from
add_from-total zero i msg bytes positive fits = (msg, refl)
add_from-total (suc rounds) i msg bytes positive fits =
    let (idx, at, inside) = bit_offset-total msg positive fits i bytes in
    let (filter', set_at) = set_bit-total msg.filter idx inside in
    let same = set_bit-length msg.filter idx set_at in
    let (msg', rest) =
      add_from-total rounds (i + 1) (record msg { filter = filter' }) bytes (rw same positive)
        (rw same fits) in
    (msg', rw (at, set_at) rest)

matches_from-total :
    (rounds i : ℕ) (msg : FilterLoad) (bytes : List ℕ)
    → 0 < length msg.filter
    → length msg.filter < 2 ^ 29
    → (b : Bool) × (matches_from rounds i msg bytes ≡ some b)
unfolding matches_from
matches_from-total zero i msg bytes positive fits = (true, refl)
matches_from-total (suc rounds) i msg bytes positive fits =
    let (idx, at, inside) = bit_offset-total msg positive fits i bytes in
    let (found, read) = test_bit-total msg.filter idx inside in
    let (b, rest) = matches_from-total rounds (i + 1) msg bytes positive fits in
    ((if found then b else false), rw (at, read, rest) (by_found found b))
  where
    by_found :
        (found b : Bool)
        → (if found then some b else some false) ≡ some (if found then b else false)
    by_found true b = refl
    by_found false b = refl

-- What `add` gives: the bytes match from then on, and so does whatever matched before.
pub add_from-Added :
    (msg : FilterLoad) (bytes : List ℕ) {msg' : FilterLoad}
    → add_from msg.hash_funcs 0 msg bytes ≡ some msg'
    → (matches (some msg') bytes ≡ some true)
      × ((other : List ℕ)
          → matches (some msg) other ≡ some true
          → matches (some msg') other ≡ some true)
unfolding matches
add_from-Added msg bytes {msg'} e =
    let grown = add_from-Grown msg.hash_funcs 0 msg bytes e in
    (
      ap (λ rounds. matches_from rounds 0 msg' bytes) grown.same_hash_funcs
          ∙ add_from-matches_from msg.hash_funcs 0 msg bytes e,
      λ other h.
          ap (λ rounds. matches_from rounds 0 msg' other) grown.same_hash_funcs
          ∙ matches_from-Grown msg.hash_funcs 0 other grown h,
    )

pub matches-total :
    (msg : FilterLoad) (bytes : List ℕ)
    → 0 < length msg.filter
    → length msg.filter < 2 ^ 29
    → (b : Bool) × (matches (some msg) bytes ≡ some b)
unfolding matches
matches-total msg bytes positive fits = matches_from-total msg.hash_funcs 0 msg bytes positive fits

-- On a filter of at least one byte and at most 2 ^ 29 - 1 bytes, whatever its number of hash
-- functions and its tweak, `add` does not panic, and the filter that it leaves has as many bytes as
-- before and matches the bytes added: there is no false negative.
pub add-matches :
    (msg : FilterLoad) (bytes : List ℕ)
    → 0 < length msg.filter
    → length msg.filter < 2 ^ 29
    → (msg' : FilterLoad) × (add (some msg) bytes ≡ some (some msg'))
      × (length msg'.filter ≡ length msg.filter)
      × (matches (some msg') bytes ≡ some true)
unfolding add
add-matches msg bytes positive fits =
    let (msg', e) = add_from-total msg.hash_funcs 0 msg bytes positive fits in
    (
      msg',
      rw e refl,
      (add_from-Grown msg.hash_funcs 0 msg bytes e).same_length,
      (add_from-Added msg bytes e).0,
    )

-- Bytes that match a filter match it after any `add` that does not panic.
pub add-keeps :
    (msg msg' : FilterLoad) (bytes other : List ℕ)
    → add (some msg) bytes ≡ some (some msg')
    → matches (some msg) other ≡ some true
    → matches (some msg') other ≡ some true
unfolding add
add-keeps msg msg' bytes other e h =
    let (loaded, added, same) = >>=-eq-some (add_from msg.hash_funcs 0 msg bytes) _ e in
    (add_from-Added msg bytes (added ∙ some-injective _ _ same)).1 other h
