-- ===== src/Operator/Log.antt =====
-- nymora-protocol/src/operator/log.rs: the transparency log and the auditor's three checks.
pub mod Audit
use nymora.Prelude.{
  ℕ, Bool, true, false, not, ◌&&◌, Option, none, some, List, [], ◌∷◌, ◌++◌, ltb, ◌==◌,
  if◌then◌else◌, length, get_elem?, bytes_eq, replicate,
}
use nymora.Prelude.Bytes.{Bytes, le_bytes, be_bytes}
use nymora.Core.Domain.{Domain}
use nymora.Crypto.Primitives.{Primitives}
use nymora.Crypto.Hash
use nymora.Crypto.Hash.{Hasher}

pub data LogEntry : Type 0 where
  -- epoch, class, root
  class_root : ℕ → ℕ → Bytes → LogEntry
  -- epoch, revocation root, spend root
  exclusion_roots : ℕ → Bytes → Bytes → LogEntry
  -- epoch, class, version
  policy_changed : ℕ → ℕ → ℕ → LogEntry
  frozen : ℕ → LogEntry

-- The values that `absorb_into` absorbs, in order.
unfoldable pub entry_values : LogEntry → List Bytes
entry_values (class_root epoch class root) =
    (0 ∷ []) ∷ le_bytes 8 epoch ∷ be_bytes 32 class ∷ root ∷ []
entry_values (exclusion_roots epoch revocation spend) =
    (1 ∷ []) ∷ le_bytes 8 epoch ∷ revocation ∷ spend ∷ []
entry_values (policy_changed epoch class version) =
    (2 ∷ []) ∷ le_bytes 8 epoch ∷ be_bytes 32 class ∷ le_bytes 8 version ∷ []
entry_values (frozen epoch) = (3 ∷ []) ∷ le_bytes 8 epoch ∷ []

-- `LogEntry::epoch`
abbrev pub entry_epoch : LogEntry → ℕ
entry_epoch (class_root epoch _ _) = epoch
entry_epoch (exclusion_roots epoch _ _) = epoch
entry_epoch (policy_changed epoch _ _) = epoch
entry_epoch (frozen epoch) = epoch

abbrev pub is_frozen : LogEntry → Bool
is_frozen (frozen _) = true
is_frozen _ = false

pub record SignedHead : Type 0 where
  pub sequence : ℕ
  pub head : Bytes
  pub signature : Bytes

pub record TransparencyLog : Type 0 where
  pub seed : Bytes
  pub entries : List LogEntry
  pub heads : List SignedHead

abbrev pub zero_head : Bytes
zero_head = replicate 32 0

-- `heads.last().map_or([0u8; 32], |h| h.head)`
unfoldable pub last_head : List SignedHead → Bytes
last_head [] = zero_head
last_head (h ∷ []) = h.head
last_head (h ∷ k ∷ rest) = last_head (k ∷ rest)

module _ (prim : Primitives) where
  unfoldable pub new : Bytes → TransparencyLog
  new seed = record { seed = prim.mint_signing_secret seed; entries = []; heads = [] }

  unfoldable pub chain_step : Bytes → LogEntry → Bytes
  chain_step prev entry =
      Hash.finalize prim (
        Hash.absorb_all (entry_values entry)
          (Hash.absorb prev (Hash.new Domain.transparency_entry)))

  unfoldable pub head_message : ℕ → Bytes → prim.fld.F
  head_message sequence head = prim.from_id (
      Hash.finalize prim
        (Hash.absorb_all (le_bytes 8 sequence ∷ head ∷ []) (Hash.new Domain.transparency_head)))

  unfoldable pub append : LogEntry → TransparencyLog → TransparencyLog
  append entry log =
      let head = chain_step (last_head log.heads) entry in
      let sequence = length log.entries in
      record log {
        entries = log.entries ++ entry ∷ [];
        heads =
            log.heads
            ++ (record {
              sequence = sequence;
              head = head;
              signature = prim.sign log.seed (head_message sequence head);
            })
              ∷ [];
      }

  unfoldable pub log_public_key : TransparencyLog → Bytes
  log_public_key log = prim.public_key log.seed

  unfoldable pub head_verifies : SignedHead → Bytes → Bool
  head_verifies head public_key =
      prim.verify public_key (head_message head.sequence head.head) head.signature

  -- The chain recomputed over the entries, one digest for each.
  unfoldable pub recompute : Bytes → List LogEntry → List Bytes
  recompute chain [] = []
  recompute chain (entry ∷ entries) =
      chain_step chain entry ∷ recompute (chain_step chain entry) entries

  -- The check of one head against the recomputed chain; on a target of 64 bits every sequence
  -- number is an index.
  unfoldable pub head_conforms : List Bytes → Bytes → SignedHead → Bool
  head_conforms recomputed public_key h =
      (elim (get_elem? recomputed h.sequence) [
        | none ↦ false
        | some expected ↦ bytes_eq expected h.head
      ])
      && head_verifies h public_key

  unfoldable pub all_heads : List Bytes → Bytes → List SignedHead → Bool
  all_heads recomputed public_key [] = true
  all_heads recomputed public_key (h ∷ heads) =
      head_conforms recomputed public_key h && all_heads recomputed public_key heads

  unfoldable pub verify_log : List LogEntry → List SignedHead → Bytes → Bool
  verify_log entries heads public_key = all_heads (recompute zero_head entries) public_key heads

  unfoldable pub equivocation : SignedHead → SignedHead → Bytes → Bool
  equivocation a b public_key =
      a.sequence == b.sequence
      && not (bytes_eq a.head b.head)
      && head_verifies a public_key
      && head_verifies b public_key

-- The loop of `conforms`, on the last epoch seen and whether the agora froze.
unfoldable pub conforms_from : Option ℕ → Bool → List LogEntry → Bool
conforms_from last froze [] = true
conforms_from last froze (entry ∷ entries) =
    let rest = conforms_from (some (entry_epoch entry)) (is_frozen entry) entries in
    let rewinds : Bool = elim last [
      | none ↦ false
      | some previous ↦ ltb (entry_epoch entry) previous
    ] in
    if froze then false else if rewinds then false else rest

unfoldable pub conforms : List LogEntry → Bool
conforms entries = conforms_from none false entries
