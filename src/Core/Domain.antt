-- ===== src/Core/Domain.antt =====
-- nymora-core/src/domain.rs: the domain registry, every tag a hash or a key derivation is
-- separated by.
pub mod PrefixFree
use Prim.Native.Char.{code}
use Prim.Native.String
use Prim.Native.String.{String}
use nymora.Prelude.{ℕ, List, [], ◌∷◌}
use nymora.Prelude.Bytes.{Bytes}

pub data Domain : Type 0 where
  agora_id commitment policy_class accumulator_leaf accumulator_node exclusion_leaf exclusion_node
        migration_certificate epoch_certificate nullifier_vouch nullifier_attestation
        nullifier_policy nullifier_migration live_auth_commitment live_auth_context
        live_auth_pseudonym live_auth_sas tag_key tag_routing bulletin witness_key proposal_policy
        proposal_revocation proposal_dissolution transparency_entry transparency_head ledger_entry
        ledger_head_handle action_context fetch_key body_key inbox_ephemeral inbox_seal inbox_tag
        bulletin_body envelope_ciphertexts proposal_horizon armor content :
      Domain

-- The bytes of an ASCII text.
abbrev pub codes : String → Bytes
codes String.[] = []
codes (String.◌∷◌ c s) = code c ∷ codes s

-- `Domain::tag`
unfoldable pub tag : Domain → String
tag agora_id = "nymora/v0/agora-id"
tag commitment = "nymora/v0/commitment"
tag policy_class = "nymora/v0/policy-class"
tag accumulator_leaf = "nymora/v0/accumulator/leaf"
tag accumulator_node = "nymora/v0/accumulator/node"
tag exclusion_leaf = "nymora/v0/exclusion/leaf"
tag exclusion_node = "nymora/v0/exclusion/node"
tag migration_certificate = "nymora/v0/migration-cert"
tag epoch_certificate = "nymora/v0/epoch-cert"
tag nullifier_vouch = "nymora/v0/nullifier/vouch"
tag nullifier_attestation = "nymora/v0/nullifier/attestation"
tag nullifier_policy = "nymora/v0/nullifier/policy"
tag nullifier_migration = "nymora/v0/nullifier/migration"
tag live_auth_commitment = "nymora/v0/live-auth/commitment"
tag live_auth_context = "nymora/v0/live-auth/context"
tag live_auth_pseudonym = "nymora/v0/live-auth/pseudonym"
tag live_auth_sas = "nymora/v0/live-auth/sas"
tag tag_key = "nymora/v0/tag/key"
tag tag_routing = "nymora/v0/tag/routing"
tag bulletin = "nymora/v0/bulletin"
tag witness_key = "nymora/v0/witness/key"
tag proposal_policy = "nymora/v0/proposal/policy"
tag proposal_revocation = "nymora/v0/proposal/revocation"
tag proposal_dissolution = "nymora/v0/proposal/dissolution"
tag transparency_entry = "nymora/v0/transparency/entry"
tag transparency_head = "nymora/v0/transparency/head"
tag ledger_entry = "nymora/v0/ledger/entry"
tag ledger_head_handle = "nymora/v0/ledger/head-handle"
tag action_context = "nymora/v0/action-context"
tag fetch_key = "nymora/v0/fetch/key"
tag body_key = "nymora/v0/envelope/key"
tag inbox_ephemeral = "nymora/v0/inbox/ephemeral"
tag inbox_seal = "nymora/v0/inbox/seal"
tag inbox_tag = "nymora/v0/inbox/tag"
tag bulletin_body = "nymora/v0/envelope/body"
tag envelope_ciphertexts = "nymora/v0/envelope/ciphertexts"
tag proposal_horizon = "nymora/v0/proposal/horizon"
tag armor = "nymora/v0/armor"
tag content = "nymora/v0/content"

-- `Domain::ALL`
unfoldable pub all : List Domain
all =
    agora_id ∷ commitment ∷ policy_class ∷ accumulator_leaf ∷ accumulator_node ∷ exclusion_leaf
    ∷ exclusion_node ∷ migration_certificate ∷ epoch_certificate ∷ nullifier_vouch
    ∷ nullifier_attestation ∷ nullifier_policy ∷ nullifier_migration ∷ live_auth_commitment
    ∷ live_auth_context ∷ live_auth_pseudonym ∷ live_auth_sas ∷ tag_key ∷ tag_routing ∷ bulletin
    ∷ witness_key ∷ proposal_policy ∷ proposal_revocation ∷ proposal_dissolution
    ∷ transparency_entry ∷ transparency_head ∷ ledger_entry ∷ ledger_head_handle ∷ action_context
    ∷ fetch_key ∷ body_key ∷ inbox_ephemeral ∷ inbox_seal ∷ inbox_tag ∷ bulletin_body
    ∷ envelope_ciphertexts ∷ proposal_horizon ∷ armor ∷ content ∷ []
