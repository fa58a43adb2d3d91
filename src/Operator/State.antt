-- ===== src/Operator/State.antt =====
-- nymora-protocol/src/operator/mod.rs: the state of one agora, and the helpers of every flow.
-- A 32-byte identifier that is a key of a map (agora, class, commitment, nullifier, session,
-- subject, challenge) is the number that its bytes spell, most significant first, so the order of
-- a `BTreeMap` is that of the numbers; what is only carried or hashed is a byte string.
pub mod Exec
pub mod Landing
pub mod Sound
use nymora.Prelude.{
  ℕ, zero, suc, ◌+◌, ◌-◌, ◌*◌, ◌%◌, ◌^◌, Bool, true, false, ◌&&◌, Option, none, some, List, [], ◌∷◌,
  ◌++◌, ltb, leb, ◌==◌, if◌then◌else◌, contains, replicate,
}
use nymora.Prelude.Map
use nymora.Prelude.Map.{Map}
use nymora.Prelude.Bytes.{Bytes, be_bytes, be_value}
use nymora.Core.Error.{Outcome, ok, refuse, because, LocalReason}
use nymora.Core.Epoch.{u64_max}
use nymora.Crypto.Primitives.{Primitives}
use nymora.Proofs.{EpochRoots}
use nymora.Accumulator.Tree
use nymora.Accumulator.Tree.{Tree}
use nymora.Accumulator.Exclusion
use nymora.Accumulator.Exclusion.{ExclusionSet}
use nymora.Operator.Log
use nymora.Operator.Log.{TransparencyLog}

pub record ClassPolicy : Type 0 where
  pub voucher_class : ℕ
  pub admission_threshold : ℕ

pub record ClassState : Type 0 where
  pub tree : Tree
  pub policy : ClassPolicy
  pub version : ℕ
  pub occupied : ℕ
  pub positions : Map ℕ

pub record InboxRecord : Type 0 where
  pub key : Bytes
  pub since : ℕ

pub record VouchSession : Type 0 where
  pub candidate : ℕ
  pub target : ℕ
  pub nullifiers : List ℕ

-- nymora-protocol/src/decision.rs
pub data Decision : Type 0 where
  -- class, admission threshold, governance quorum
  policy : ℕ → ℕ → ℕ → Decision
  revocation : ℕ → Decision
  dissolution : Decision
  inbox_horizon : ℕ → Decision

pub record Proposal : Type 0 where
  pub decision : Decision
  pub approving_class : ℕ
  pub opened : ℕ
  pub nonce : Bytes
  pub approvals : List ℕ

pub record Staged : Type 0 where
  pub admissions : List (ℕ × ℕ)
  pub spends : List ℕ
  pub revocations : List ℕ

abbrev pub nothing_staged : Staged
nothing_staged = record { admissions = []; spends = []; revocations = [] }

pub record Snapshot : Type 0 where
  pub class_roots : Map Bytes
  pub revocation : Bytes
  pub spend : Bytes

pub record AgoraState : Type 0 where
  pub agora : ℕ
  pub epoch : ℕ
  pub governance_quorum : ℕ
  pub classes : Map ClassState
  pub revocations : ExclusionSet
  pub spends : ExclusionSet
  pub staged : Staged
  pub pending : List ℕ
  pub sessions : Map VouchSession
  pub proposals : Map Proposal
  pub challenges : List ℕ
  pub history : Map Snapshot
  pub tag_secret : Bytes
  pub statement_seed : Bytes
  pub log : Option TransparencyLog
  pub dissolved : Bool
  pub inboxes : Map InboxRecord
  pub staged_inboxes : Map Bytes
  pub revoked_leaves : List ℕ
  pub inbox_horizon : ℕ

-- `PAD`, the empty value placed after every leaf.
abbrev pub pad : Bytes
pad = replicate 32 0

-- `ClassState::CAPACITY`
unfoldable pub class_capacity : ℕ → ℕ
class_capacity depth = if depth == 0 then 1 else if ltb depth 64 then 2 ^ (depth - 1) else u64_max

-- `ClassState::position_of`
abbrev pub position_of : ℕ → ℕ
position_of index = index * 2

-- `ClassState::land`: the class is written before the pad, whose answer is dropped.
unfoldable pub land : ℕ → ℕ → ClassState → Option ℕ × ClassState
land depth leaf c =
    let (position, tree) = Tree.append depth c.tree (be_bytes 32 leaf) in
    elim position [
      | none ↦ (none, c)
      | some p ↦ (
        some p,
        record c {
          tree = (Tree.append depth tree pad).1;
          occupied = c.occupied + 1;
          positions = Map.insert leaf p c.positions;
        },
      )
    ]

-- `live`
unfoldable pub live : AgoraState → Outcome (Unit {0})
live s = if s.dissolved then refuse (because LocalReason.dissolved) else ok tt

-- `class`
unfoldable pub class : ℕ → AgoraState → Outcome ClassState
class c s = elim (Map.lookup c s.classes) [
  | none ↦ refuse (because LocalReason.policy_denied)
  | some state ↦ ok state
]

-- `roots_in`
unfoldable pub roots_in : ℕ → ℕ → AgoraState → Outcome EpochRoots
roots_in epoch c s = elim (Map.lookup epoch s.history) [
  | none ↦ refuse (because LocalReason.epoch_out_of_range)
  | some snap ↦ elim (Map.lookup c snap.class_roots) [
    | none ↦ refuse (because LocalReason.policy_denied)
    | some root ↦
        ok (record { class_root = root; revocation = snap.revocation; spend = snap.spend })
  ]
]

-- How many staged admissions name the class.
unfoldable pub staged_count : ℕ → List (ℕ × ℕ) → ℕ
staged_count c [] = 0
staged_count c ((d, leaf) ∷ rest) =
    let more = staged_count c rest in if d == c then suc more else more

-- `a - b` on a `u64`, as a release build wraps it.
unfoldable pub sub64 : ℕ → ℕ → ℕ
sub64 a b = (a + 2 ^ 64 - b) % 2 ^ 64

-- `remaining_capacity`
unfoldable pub remaining_capacity : ℕ → ℕ → AgoraState → ℕ
remaining_capacity depth c s = elim (Map.lookup c s.classes) [
  | none ↦ 0
  | some state ↦
      sub64 (sub64 (class_capacity depth) state.occupied) (staged_count c s.staged.admissions)
]

module _ (prim : Primitives) (depth : ℕ) where
  -- The class roots, logged in class order.
  unfoldable pub log_class_roots : ℕ → Map Bytes → TransparencyLog → TransparencyLog
  log_class_roots epoch [] log = log
  log_class_roots epoch ((c, root) ∷ rest) log =
      log_class_roots epoch rest (Log.append prim (Log.class_root epoch c root) log)

  -- `snapshot`
  unfoldable pub snapshot : AgoraState → AgoraState
  snapshot s =
      let class_roots =
        Map.map_values (λ (c : ClassState). Tree.root prim.fld depth c.tree) s.classes in
      let revocation = Exclusion.root prim.fld depth s.revocations in
      let spend = Exclusion.root prim.fld depth s.spends in
      let log : Option TransparencyLog = elim s.log [
        | none ↦ none
        | some log ↦ some (
            Log.append prim (Log.exclusion_roots s.epoch revocation spend)
              (log_class_roots s.epoch class_roots log))
      ] in
      record s {
        log = log;
        history =
            Map.insert s.epoch
              (record { class_roots = class_roots; revocation = revocation; spend = spend })
              s.history;
      }

  -- `dissolve`
  unfoldable pub dissolve : AgoraState → AgoraState
  dissolve s =
      let log : Option TransparencyLog = elim s.log [
        | none ↦ none
        | some log ↦ some (Log.append prim (Log.frozen s.epoch) log)
      ] in
      record s {
        dissolved = true;
        sessions = [];
        proposals = [];
        challenges = [];
        staged = nothing_staged;
        pending = [];
        tag_secret = replicate 32 0;
        statement_seed = replicate 32 0;
        log = log;
      }
