-- ===== src/Tests/OperatorRuns.antt =====
-- The theorems on nymora-protocol's operator at concrete inputs: one class, its founder landed, a
-- session, a proposal and a challenge open.
use nymora.Prelude.{
  ℕ, suc, ◌*◌, ◌+◌, ◌≤◌, ◌≡◌, refl, true, false, ◌||◌, none, some, List, [], ◌∷◌, ◌++◌, length,
  take, get_elem?, contains, arith,
}
use nymora.Prelude.Map
use nymora.Prelude.Map.{Map}
use nymora.Prelude.NatSet
use nymora.Prelude.Bytes.{Bytes, be_bytes}
use nymora.Core.Error.{ok, err, ProtocolError, refuse, because, LocalReason}
use nymora.Core.Epoch
use nymora.Proofs.{
  EpochRoots, verify_vouch, verify_policy_approval, verify_migration, verify_verification_access,
}
use nymora.Bulletin.{accept_envelope, is_stale}
use nymora.Accumulator.Exclusion
use nymora.Accumulator.Exclusion.{truncate_key}
use nymora.Operator.Log
use nymora.Operator.Log.{LogEntry, class_root, exclusion_roots, verify_log, log_public_key}
use nymora.Operator.Log.Audit.{append_all, verify_log-append_all}
use nymora.Operator.State.{
  AgoraState, ClassState, VouchSession, Proposal, Decision, revocation, nothing_staged, pad, land,
  staged_count, roots_in, live, class, remaining_capacity, class_capacity, sub64, snapshot,
}
use nymora.Operator.State.Landing.{IsPaired, land-position}
use nymora.Operator.Envelope.{
  Envelope, inbox_live, statement, statement_key, envelope_now, current_envelope, class_ciphertexts,
}
use nymora.Operator.Envelope.Delivery.{accept_envelope-current, advance_epoch-unserved}
use nymora.Operator.Boundary.{advance_epoch}
use nymora.Operator.Boundary.Lands.{advance_epoch-opens}
use nymora.Operator.Vouch.{Admission, vouch_attest, vouch_finalize, is_staged}
use nymora.Operator.Vouch.Attested.{vouch_attest-once}
use nymora.Operator.Vouch.Admitted.{vouch_finalize-threshold}
use nymora.Operator.Quorum.{approve, execute}
use nymora.Operator.Quorum.Approves.{approve-once}
use nymora.Operator.Migrate.{any_key, migrate}
use nymora.Operator.Migrate.Spend.{migrate-once}
use nymora.Operator.Access.{MemberAccess, admit, redeem_access}
use nymora.Operator.Access.Gate.{Shut, advance_epoch-Shut, redeem_access-once}
use nymora.Operator.Trace.{Call, attest, advance, execute_subject, run_all, answer}
use nymora.Operator.Trace.Dissolved.{run_all-dissolved}
use nymora.Operator.Trace.History.{run_all-history, run_all-revoked}
use nymora.Tests.Toy.{short, short-SignVerifies, verdicts}

abbrev pub guild : ClassState
guild = record {
  tree = record { leaves = be_bytes 32 7 ∷ pad ∷ [] };
  policy = record { voucher_class = 5; admission_threshold = 1 };
  version = 1;
  occupied = 1;
  positions = (7, 0) ∷ [];
}

abbrev pub agora : AgoraState
agora = record {
  agora = 1;
  epoch = 3;
  governance_quorum = 1;
  classes = (5, guild) ∷ [];
  revocations = record { ordered = [] };
  spends = record { ordered = [] };
  staged = nothing_staged;
  pending = 8 ∷ [];
  sessions =
      (11, record { candidate = 8; target = 5; nullifiers = [] })
      ∷ (12, record { candidate = 8; target = 5; nullifiers = 21 ∷ [] })
      ∷ [];
  proposals =
      (
        14,
        record {
          decision = revocation 7;
          approving_class = 5;
          opened = 3;
          nonce = [];
          approvals = 31 ∷ [];
        },
      )
      ∷ [];
  challenges = 13 ∷ [];
  history =
      (3, record { class_roots = (5, 9 ∷ []) ∷ []; revocation = 9 ∷ []; spend = 9 ∷ [] }) ∷ [];
  tag_secret = 1 ∷ [];
  statement_seed = 2 ∷ [];
  log = none;
  dissolved = false;
  inboxes = (7, record { key = 4 ∷ []; since = 3 }) ∷ [];
  staged_inboxes = (8, 6 ∷ []) ∷ [];
  revoked_leaves = [];
  inbox_horizon = 28;
}

abbrev roots : EpochRoots
roots = record { class_root = 9 ∷ []; revocation = 9 ∷ []; spend = 9 ∷ [] }

guild-IsPaired : IsPaired guild
unfolding IsPaired
guild-IsPaired = refl

land-position_example :
    ((land 3 8 guild).0 ≡ some 2)
    × IsPaired (land 3 8 guild).1
    × ((land 3 8 guild).1.occupied ≡ 2)
    × (Map.lookup 8 (land 3 8 guild).1.positions ≡ some 2)
    × (get_elem? (land 3 8 guild).1.tree.leaves 2 ≡ some (be_bytes 32 8))
    × (get_elem? (land 3 8 guild).1.tree.leaves 3 ≡ some pad)
    × (take 2 (land 3 8 guild).1.tree.leaves ≡ guild.tree.leaves)
unfolding class_capacity
land-position_example =
    land-position 3 8 guild (omega arith) (omega arith) guild-IsPaired (omega arith)

abbrev entries : List LogEntry
entries = class_root 3 5 (9 ∷ []) ∷ exclusion_roots 3 (9 ∷ []) (9 ∷ []) ∷ []

verify_log-append_all_example :
    ((append_all short entries (Log.new short (2 ∷ []))).entries ≡ entries)
    × (verify_log short
          (append_all short entries (Log.new short (2 ∷ []))).entries
          (append_all short entries (Log.new short (2 ∷ []))).heads
          (log_public_key short (append_all short entries (Log.new short (2 ∷ []))))
        ≡ true)
verify_log-append_all_example = verify_log-append_all short short-SignVerifies (2 ∷ []) entries

abbrev attested : AgoraState
attested = (vouch_attest verdicts 11 true 22 agora).1

attest_answers : (vouch_attest verdicts 11 true 22 agora).0 ≡ ok tt
unfolding vouch_attest live class roots_in Map.lookup verify_vouch
    nymora.Operator.Vouch.record_nullifier
attest_answers = refl

vouch_attest-once_example :
    ((v : VouchSession) × (w : VouchSession) × (target : ClassState) × (roots : EpochRoots)
      × (Map.lookup 11 agora.sessions ≡ some v)
      × (class v.target agora ≡ ok target)
      × (roots_in 3 target.policy.voucher_class agora ≡ ok roots)
      × (verify_vouch verdicts true 1 3 roots 11 22 ≡ true)
      × (contains 22 v.nullifiers ≡ false)
      × (Map.lookup 11 attested.sessions ≡ some w)
      × (w.candidate ≡ v.candidate)
      × (length w.nullifiers ≡ suc (length v.nullifiers)))
    × (vouch_attest verdicts 11 true 22 attested ≡ (err ProtocolError.rejected, attested))
vouch_attest-once_example = vouch_attest-once verdicts 11 true true 22 agora attest_answers

admitted : (vouch_finalize 3 12 agora).0 ≡ ok (record { active_from = 4; position = 2 })
unfolding vouch_finalize nymora.Operator.Vouch.stage_admission nymora.Operator.Vouch.admission_at
    live class Map.lookup Map.remove Map.has_key remaining_capacity class_capacity sub64
    staged_count is_staged Epoch.next
admitted = refl

vouch_finalize-threshold_example :
    (v : VouchSession) × (target : ClassState) × (Map.lookup 12 agora.sessions ≡ some v)
    × (Map.lookup v.target agora.classes ≡ some target)
    × (target.policy.admission_threshold ≤ length v.nullifiers)
    × (Map.has_key v.candidate target.positions ≡ false)
    × (is_staged v.target v.candidate [] ≡ false)
    × (Epoch.next 3 ≡ some 4)
    × (2 ≡ 2 * (target.occupied + staged_count v.target []))
    × ((vouch_finalize 3 12 agora).1.staged.admissions ≡ (v.target, v.candidate) ∷ [])
    × (Map.lookup 12 (vouch_finalize 3 12 agora).1.sessions ≡ none)
    × (contains v.candidate (vouch_finalize 3 12 agora).1.pending ≡ false)
vouch_finalize-threshold_example =
    vouch_finalize-threshold 3 12 agora (record { active_from = 4; position = 2 }) admitted

abbrev spent_state : AgoraState
spent_state = (migrate verdicts 3 5 true 41 9 [] agora).1

migrated :
    (migrate verdicts 3 5 true 41 9 [] agora).0 ≡ ok (record { active_from = 4; position = 2 })
unfolding migrate nymora.Operator.Vouch.stage_admission nymora.Operator.Vouch.admission_at live
    class roots_in Map.lookup Map.has_key remaining_capacity class_capacity sub64 staged_count
    is_staged Epoch.next any_key Exclusion.keys verify_migration
migrated = refl

migrate-once_example :
    ((roots : EpochRoots) × (roots_in 3 5 agora ≡ ok roots)
      × (verify_migration verdicts true 1 roots.class_root roots.revocation 41 9 ≡ true))
    × (any_key (truncate_key (be_bytes 32 41)) (Exclusion.keys agora.spends) ≡ false)
    × (contains 41 agora.staged.spends ≡ false)
    × (spent_state.staged.admissions ≡ (5, 9) ∷ [])
    × (spent_state.staged.spends ≡ 41 ∷ [])
    × (migrate verdicts 3 5 true 41 10 [] spent_state ≡ (err ProtocolError.rejected, spent_state))
migrate-once_example =
    migrate-once verdicts 3 5 true 41 9 [] 5 true 10 [] agora
      (record { active_from = 4; position = 2 }) migrated

abbrev redeemed : AgoraState
redeemed = (redeem_access verdicts 5 true 13 agora).1

abbrev pass : MemberAccess
pass = record { epoch = 3 }

redeem_answers : (redeem_access verdicts 5 true 13 agora).0 ≡ ok pass
unfolding redeem_access nymora.Operator.Access.consume_challenge live roots_in Map.lookup
    NatSet.remove verify_verification_access
redeem_answers = refl

redeem_access-once_example :
    ((roots : EpochRoots) × (roots_in 3 5 agora ≡ ok roots)
      × (verify_verification_access verdicts true 1 3 roots 13 ≡ true))
    × (contains 13 agora.challenges ≡ true)
    × (contains 13 redeemed.challenges ≡ false)
    × (admit pass redeemed ≡ ok tt)
    × (redeem_access verdicts 5 true 13 redeemed ≡ (err ProtocolError.rejected, redeemed))
redeem_access-once_example = redeem_access-once verdicts 5 true true 13 agora pass redeem_answers

-- A state with an admission and a revocation staged.
abbrev full : AgoraState
full = record agora {
  staged = record { admissions = (5, 8) ∷ []; spends = []; revocations = 7 ∷ [] };
}

abbrev next_envelope : Envelope
next_envelope = elim (advance_epoch short 3 full).0 as (λ _. Envelope) [
  | ok e ↦ e
  | _ ↦ record {
    epoch = 0;
    ephemeral_key = [];
    body = [];
    ciphertexts = [];
    head = none;
    signature = [];
  }
]

boundary_answers : (advance_epoch short 3 full).0 ≡ ok next_envelope
unfolding advance_epoch live nymora.Operator.Boundary.next_epoch Epoch.next
    nymora.Operator.Boundary.land_admissions nymora.Operator.Boundary.land_admission
    nymora.Operator.Boundary.move_inbox land nymora.Accumulator.Tree.append
    nymora.Operator.Boundary.land_spends nymora.Operator.Boundary.land_revocations
    nymora.Operator.Boundary.open_epoch snapshot envelope_now nymora.Operator.Envelope.body_now
    Map.lookup Map.insert Map.remove
boundary_answers = refl

abbrev after_boundary : AgoraState
after_boundary = (advance_epoch short 3 full).1

advance_epoch-opens_example :
    (full.dissolved ≡ false)
    × (Epoch.next 3 ≡ some after_boundary.epoch)
    × (after_boundary.staged ≡ nothing_staged)
    × (after_boundary.sessions ≡ [])
    × (after_boundary.proposals ≡ [])
    × (after_boundary.challenges ≡ [])
    × ((leaf : ℕ)
        → contains leaf after_boundary.revoked_leaves
          ≡ (contains leaf full.revoked_leaves || contains leaf full.staged.revocations))
    × (envelope_now short 3 after_boundary ≡ ok next_envelope)
advance_epoch-opens_example = advance_epoch-opens short 3 full next_envelope boundary_answers

advance_epoch-unserved_example :
    (inbox_live 7 after_boundary ≡ none)
    × ((secret body_key : Bytes) (c : ℕ) (state : ClassState) (pre : List (ℕ × ℕ)) (p : ℕ)
          (post : List (ℕ × ℕ))
        → class_ciphertexts short 3 after_boundary secret body_key c state (pre ++ (p, 7) ∷ post)
          ≡ class_ciphertexts short 3 after_boundary secret body_key c state (pre ++ post))
advance_epoch-unserved_example =
    advance_epoch-unserved short 3 full next_envelope 7 boundary_answers refl

pass_admits : admit pass full ≡ ok tt
unfolding admit live
pass_admits = refl

advance_epoch-Shut_example : Shut short verdicts pass after_boundary
advance_epoch-Shut_example =
    advance_epoch-Shut short verdicts 3 pass full next_envelope pass_admits boundary_answers

-- The same agora with a quorum met for a change of policy.
abbrev decided : AgoraState
decided = record agora {
  proposals =
      (
        14,
        record {
          decision = Decision.policy 5 2 1;
          approving_class = 5;
          opened = 3;
          nonce = [];
          approvals = 31 ∷ [];
        },
      )
      ∷ [];
}

abbrev after_decision : AgoraState
after_decision = (execute short 3 14 decided).1

abbrev current : Envelope
current = elim (current_envelope short 3 agora) as (λ _. Envelope) [ ok e ↦ e | _ ↦ next_envelope ]

current_answers : current_envelope short 3 agora ≡ ok current
unfolding current_envelope live envelope_now nymora.Operator.Envelope.body_now Map.lookup
current_answers = refl

accept_envelope-current_example :
    accept_envelope short
      (statement_key short 3 agora)
      (statement short 3 1 current)
      current.signature
      (some 2)
    ≡ ok tt
unfolding is_stale
accept_envelope-current_example =
    accept_envelope-current short 3 short-SignVerifies agora current (some 2) current_answers refl

abbrev calls : List (Call short verdicts 3)
calls = attest 11 true 22 ∷ execute_subject 14 ∷ advance ∷ []

abbrev gone : AgoraState
gone = record agora { dissolved = true; revoked_leaves = 7 ∷ [] }

run_all-dissolved_example :
    (run_all short verdicts 3 calls gone ≡ gone)
    × (answer short verdicts 3 advance (run_all short verdicts 3 calls gone)
        ≡ refuse (because LocalReason.dissolved))
run_all-dissolved_example = run_all-dissolved short verdicts 3 calls advance gone refl

run_all-history_example :
    (3 ≤ (run_all short verdicts 3 calls agora).epoch)
    × (Map.lookup 3 (run_all short verdicts 3 calls agora).history ≡ Map.lookup 3 agora.history)
run_all-history_example = run_all-history short 3 verdicts calls agora 3 (omega arith)

abbrev revoked : AgoraState
revoked = record agora { revoked_leaves = 7 ∷ [] }

run_all-revoked_example :
    (contains 7 (run_all short verdicts 3 calls revoked).revoked_leaves ≡ true)
    × (inbox_live 7 (run_all short verdicts 3 calls revoked) ≡ none)
run_all-revoked_example = run_all-revoked short 3 verdicts calls revoked 7 refl

abbrev approved : AgoraState
approved = (approve verdicts 14 true 32 agora).1

approve_answers : (approve verdicts 14 true 32 agora).0 ≡ ok tt
unfolding approve nymora.Operator.Quorum.record_approval live roots_in Map.lookup
    nymora.Proofs.verify_policy_approval
approve_answers = refl

approve-once_example :
    ((p : Proposal) × (q : Proposal) × (roots : EpochRoots) × (Map.lookup 14 agora.proposals
        ≡ some p)
      × (roots_in 3 p.approving_class agora ≡ ok roots)
      × (verify_policy_approval verdicts true 1 3 roots (be_bytes 32 14) 32 ≡ true)
      × (contains 32 p.approvals ≡ false)
      × (Map.lookup 14 approved.proposals ≡ some q)
      × (q.decision ≡ p.decision)
      × (length q.approvals ≡ suc (length p.approvals)))
    × (approve verdicts 14 true 32 approved ≡ (err ProtocolError.rejected, approved))
approve-once_example = approve-once verdicts 14 true true 32 agora approve_answers
