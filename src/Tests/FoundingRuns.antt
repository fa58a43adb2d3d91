-- ===== src/Tests/FoundingRuns.antt =====
-- The theorem on founded agoras at a concrete founding.
use nymora.Prelude.{◌*◌, ◌≤◌, ◌≡◌, refl, true, none, some, List, [], ◌∷◌, length, arith}
use nymora.Prelude.Map
use nymora.Prelude.NatSet
use nymora.Prelude.Bytes.{be_bytes}
use nymora.Core.Error.{ok}
use nymora.Core.Epoch
use nymora.Operator.State.{
  AgoraState, ClassState, class, class_capacity, pad, land, live, snapshot, roots_in, sub64,
  remaining_capacity, staged_count,
}
use nymora.Operator.State.Sound.{Placed}
use nymora.Operator.Create.{
  Founding, insert_classes, land_founder, is_inconsistent, is_empty, founded, create,
}
use nymora.Operator.Vouch.{
  credentials_init, start_vouch, vouch_attest, vouch_finalize, record_nullifier, stage_admission,
  admission_at, is_staged,
}
use nymora.Operator.Boundary.{
  move_inbox, land_admission, land_admissions, land_spends, land_revocations, open_epoch,
  next_epoch, advance_epoch,
}
use nymora.Proofs.{verify_vouch}
use nymora.Accumulator.Tree
use nymora.Operator.Trace.{Call, init_credentials, start, attest, finalize, advance, run, run_all}
use nymora.Operator.Trace.Members.{run_all-create}
use nymora.Tests.Toy.{short, verdicts}
use nymora.Tests.OperatorRuns.{agora}

abbrev founding : Founding
founding = record {
  agora = 1;
  genesis = 3;
  founder = 7;
  classes = (5, record { voucher_class = 5; admission_threshold = 1 }) ∷ [];
  founder_classes = 5 ∷ [];
  founder_inbox = 4 ∷ [];
}

abbrev fresh : AgoraState
unfolding create
fresh = elim (create short 3 founding (1 ∷ []) (2 ∷ []) none) as (λ _. AgoraState) [
  | ok s ↦ s
  | _ ↦ agora
]

made : create short 3 founding (1 ∷ []) (2 ∷ []) none ≡ ok fresh
unfolding create insert_classes is_empty is_inconsistent Map.insert Map.has_key land_founder
    Map.lookup land Tree.append
made = refl

-- A candidate is vouched for, admitted, and lands at the boundary.
abbrev calls : List (Call short verdicts 3)
calls = init_credentials 8 (6 ∷ []) ∷ start 8 5 11 ∷ attest 11 true 22 ∷ finalize 11 ∷ advance ∷ []

abbrev grown : ClassState
grown = record {
  tree = record { leaves = be_bytes 32 7 ∷ pad ∷ be_bytes 32 8 ∷ pad ∷ [] };
  policy = record { voucher_class = 5; admission_threshold = 1 };
  version = 1;
  occupied = 2;
  positions = (7, 0) ∷ (8, 2) ∷ [];
}

found : Map.lookup 5 (run_all short verdicts 3 calls fresh).classes ≡ some grown
unfolding run_all run fresh founded snapshot credentials_init start_vouch vouch_attest
    vouch_finalize record_nullifier stage_admission admission_at is_staged live class
    remaining_capacity class_capacity staged_count sub64 roots_in verify_vouch advance_epoch
    next_epoch Epoch.next land_admissions land_admission land move_inbox land_spends
    land_revocations open_epoch create insert_classes is_empty is_inconsistent land_founder
    Tree.append Map.lookup Map.insert Map.has_key Map.remove Map.map_values NatSet.insert
    NatSet.place
found = refl

run_all-create_example :
    (length grown.tree.leaves ≡ 2 * grown.occupied)
    × (grown.occupied ≤ class_capacity 3)
    × Placed grown.tree.leaves grown.positions
run_all-create_example =
    run_all-create 3 (omega arith) (omega arith) short verdicts founding (1 ∷ []) (2 ∷ []) none
      fresh calls 5 grown made found
