-- ===== src/Memo/Ownership.antt =====
-- NativeRtOwnershipMemo of native_rt_ownership_memo.h: the last successful claim of render targets, by
-- slot for the keys and targets, by position of the claim for the lengths. A pointer is a number, 0
-- for null.
use bolts_rebuilt.Prelude.{
  ℕ, zero, suc, ◌≤◌, ◌<◌, ◌≡◌, inl, inr, ap, ◌∙◌, Bool, true, false, not, ◌&&◌, Bool-cases, ltb,
  leb, ◌==◌, if◌then◌else◌, arith,
}
use bolts_rebuilt.Prelude.Bits.{bit}

abbrev pub slots : ℕ
slots = 5

pub record Memo : Type 0 where
  pub owner : ℕ
  pub generation : ℕ
  pub used_bits : ℕ
  pub count : ℕ
  pub keys : ℕ → ℕ
  pub lengths_tiles : ℕ → ℕ
  pub targets : ℕ → ℕ

-- The arguments of a claim: the keys of the used slots, and the lengths of the first `count` claims.
pub record Claim : Type 0 where
  pub owner : ℕ
  pub generation : ℕ
  pub used_bits : ℕ
  pub count : ℕ
  pub keys : ℕ → ℕ
  pub lengths_tiles : ℕ → ℕ

pub new_memo : Memo
new_memo = record {
  owner = 0;
  generation = 0;
  used_bits = 0;
  count = 0;
  keys = λ _. 0;
  lengths_tiles = λ _. 0;
  targets = λ _. 0;
}

-- The loop over the slots below a bound, and the one over the claims.
unfoldable pub keys_match : Memo → Claim → ℕ → Bool
keys_match memo claim zero = true
keys_match memo claim (suc i) =
    keys_match memo claim i && not (bit claim.used_bits i && not (claim.keys i == memo.keys i))

unfoldable pub lengths_match : Memo → Claim → ℕ → Bool
lengths_match memo claim zero = true
lengths_match memo claim (suc i) =
    lengths_match memo claim i && leb (claim.lengths_tiles i) (memo.lengths_tiles i)

unfoldable pub matches : Memo → Claim → Bool
matches memo claim =
    not (memo.owner == 0)
    && claim.owner == memo.owner
    && claim.generation == memo.generation
    && claim.used_bits == memo.used_bits
    && claim.count == memo.count
    && keys_match memo claim slots
    && lengths_match memo claim claim.count

unfoldable pub publish : Claim → (targets : ℕ → ℕ) → Memo
publish claim targets = record {
  owner = claim.owner;
  generation = claim.generation;
  used_bits = claim.used_bits;
  count = claim.count;
  keys = λ i. if bit claim.used_bits i then claim.keys i else 0;
  targets = λ i. if bit claim.used_bits i then targets i else 0;
  lengths_tiles = λ i. if ltb i claim.count then claim.lengths_tiles i else 0;
}

keys_match-all :
    (memo : Memo) (claim : Claim) (n i : ℕ)
    → keys_match memo claim n ≡ true
    → i < n
    → (bit claim.used_bits i && not (claim.keys i == memo.keys i)) ≡ false
unfolding keys_match
keys_match-all memo claim zero i h below = elim below [ ]
keys_match-all memo claim (suc n) i h below = elim (Bool-cases (i == n)) [
  | inl e ↦
      ap (λ x. bit claim.used_bits x && not (claim.keys x == memo.keys x)) {x = i} {y = n}
        (ground arith)
      ∙ ground arith
  | inr ne ↦ keys_match-all memo claim n i (ground arith) (ground arith)
]

lengths_match-all :
    (memo : Memo) (claim : Claim) (n i : ℕ)
    → lengths_match memo claim n ≡ true
    → i < n
    → claim.lengths_tiles i ≤ memo.lengths_tiles i
unfolding lengths_match
lengths_match-all memo claim zero i h below = elim below [ ]
lengths_match-all memo claim (suc n) i h below = elim (Bool-cases (i == n)) [
  | inl e ↦
      let same : i ≡ n = ground arith in
      let same_claim = ap claim.lengths_tiles same in
      let same_memo = ap memo.lengths_tiles same in ground arith
  | inr ne ↦ lengths_match-all memo claim n i (ground arith) (ground arith)
]

-- A claim that matches the memo of a published claim has its owner, generation, used slots and count;
-- it has its key in each used slot, and no claim of it is longer than the published one.
pub publish-matches :
    (published claim : Claim) (targets : ℕ → ℕ) (i : ℕ)
    → matches (publish published targets) claim ≡ true
    → (claim.owner ≡ published.owner)
      × (claim.generation ≡ published.generation)
      × (claim.used_bits ≡ published.used_bits)
      × (claim.count ≡ published.count)
      × ((ltb i slots && bit published.used_bits i && not (claim.keys i == published.keys i))
          ≡ false)
      × ((ltb i published.count && ltb (published.lengths_tiles i) (claim.lengths_tiles i)) ≡ false)
unfolding matches publish
publish-matches published claim targets i h =
    let keys = keys_match-all (publish published targets) claim slots i in
    let lengths = lengths_match-all (publish published targets) claim claim.count i in
    let same_bits : claim.used_bits ≡ published.used_bits = ground arith in
    let same_bit = ap (λ b. bit b i) same_bits in ground arith
