-- ===== src/Core/Domain/PrefixFree.antt =====
-- No tag is a prefix of another, so a tag tells its domain.
use nymora.Prelude.{
  ℕ, zero, suc, ◌<◌, ◌≡◌, refl, ap, Bool, true, false, not, ◌&&◌, ◌||◌, none, some, [], ◌∷◌, arith,
  get_elem?, ◌==◌, if◌then◌else◌,
}
use nymora.Prelude.Bytes.{Bytes}
use nymora.Core.Domain.{Domain, agora_id, tag, codes, all}

unfoldable pub is_prefix : Bytes → Bytes → Bool
is_prefix [] ys = true
is_prefix (x ∷ xs) [] = false
is_prefix (x ∷ xs) (y ∷ ys) = if x == y then is_prefix xs ys else false

pub is_prefix_refl : (xs : Bytes) → is_prefix xs xs ≡ true
unfolding is_prefix
is_prefix_refl [] = refl
is_prefix_refl (x ∷ xs) = ground (arith, is_prefix_refl xs)

-- The place of a domain in the registry.
index : Domain → ℕ
index Domain.agora_id = 0
index Domain.commitment = 1
index Domain.policy_class = 2
index Domain.accumulator_leaf = 3
index Domain.accumulator_node = 4
index Domain.exclusion_leaf = 5
index Domain.exclusion_node = 6
index Domain.migration_certificate = 7
index Domain.epoch_certificate = 8
index Domain.nullifier_vouch = 9
index Domain.nullifier_attestation = 10
index Domain.nullifier_policy = 11
index Domain.nullifier_migration = 12
index Domain.live_auth_commitment = 13
index Domain.live_auth_context = 14
index Domain.live_auth_pseudonym = 15
index Domain.live_auth_sas = 16
index Domain.tag_key = 17
index Domain.tag_routing = 18
index Domain.bulletin = 19
index Domain.witness_key = 20
index Domain.proposal_policy = 21
index Domain.proposal_revocation = 22
index Domain.proposal_dissolution = 23
index Domain.transparency_entry = 24
index Domain.transparency_head = 25
index Domain.ledger_entry = 26
index Domain.ledger_head_handle = 27
index Domain.action_context = 28
index Domain.fetch_key = 29
index Domain.body_key = 30
index Domain.inbox_ephemeral = 31
index Domain.inbox_seal = 32
index Domain.inbox_tag = 33
index Domain.bulletin_body = 34
index Domain.envelope_ciphertexts = 35
index Domain.proposal_horizon = 36
index Domain.armor = 37
index Domain.content = 38

all-index : (d : Domain) → get_elem? all (index d) ≡ some d
unfolding all index
all-index agora_id = refl
all-index d = refl

index-lt : (d : Domain) → index d < 39
unfolding index
index-lt agora_id = omega arith
index-lt d = omega arith

tag_at : ℕ → Bytes
tag_at i = elim (get_elem? all i) [ none ↦ [] | some d ↦ codes (tag d) ]

all_below : ℕ → (ℕ → Bool) → Bool
all_below zero p = true
all_below (suc n) p = p n && all_below n p

all_below_sound : (n : ℕ) (p : ℕ → Bool) (i : ℕ) → all_below n p ≡ true → i < n → p i ≡ true
unfolding all_below
all_below_sound zero p i h lt = absurd (omega arith)
all_below_sound (suc n) p i h lt = ground (arith, all_below_sound n p i)

distinct_at : ℕ → ℕ → Bool
distinct_at i j = not (is_prefix (tag_at i) (tag_at j)) || i == j

registry_table : all_below 39 (λ i. all_below 39 (λ j. distinct_at i j)) ≡ true
unfolding all_below distinct_at is_prefix tag_at all tag
registry_table = refl

distinct_at-same :
    (i j : ℕ) → distinct_at i j ≡ true → is_prefix (tag_at i) (tag_at j) ≡ true → i ≡ j
unfolding distinct_at
distinct_at-same i j h pre = ground arith

tag_at-index : (d : Domain) → tag_at (index d) ≡ codes (tag d)
unfolding tag_at index all
tag_at-index agora_id = refl
tag_at-index d = refl

-- For two domains of the registry: if the tag of one is a prefix of the other's, they are one.
pub tag_prefix_free : (d e : Domain) → is_prefix (codes (tag d)) (codes (tag e)) ≡ true → d ≡ e
tag_prefix_free d e h =
    let row : all_below 39 (λ j. distinct_at (index d) j) ≡ true =
      all_below_sound 39 (λ i. all_below 39 (λ j. distinct_at i j)) (index d) registry_table
        (index-lt d) in
    let cell : distinct_at (index d) (index e) ≡ true =
      all_below_sound 39 (λ j. distinct_at (index d) j) (index e) row (index-lt e) in
    let pre : is_prefix (tag_at (index d)) (tag_at (index e)) ≡ true =
      rw (tag_at-index d, tag_at-index e) h in
    let same : index d ≡ index e = distinct_at-same (index d) (index e) cell pre in
    cc (all-index d, all-index e, ap (λ (i : ℕ). get_elem? all i) same)
