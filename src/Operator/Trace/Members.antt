-- ===== src/Operator/Trace/Members.antt =====
-- The members of every class that an operator can reach from the founding of an agora.
use nymora.Prelude.{
  ℕ, ◌*◌, ◌≤◌, ◌<◌, ◌≡◌, refl, subst, inl, inr, some, Option, List, [], ◌∷◌, arith, length,
  Option-cases,
}
use nymora.Prelude.Map
use nymora.Prelude.Bytes.{Bytes}
use nymora.Core.Error.{ok}
use nymora.Crypto.Primitives.{Primitives}
use nymora.Proofs.{ProofSystem}
use nymora.Operator.State.{AgoraState, ClassState, ClassPolicy, class_capacity, land, snapshot}
use nymora.Operator.State.Landing.{IsPaired}
use nymora.Operator.State.Sound.{Placed, AllSound, land-IsSound, insert-AllSound, lookup-IsSound}
use nymora.Operator.Create.{Founding, insert_classes, land_founder, founded, create}
use nymora.Operator.Trace.{Call, run_all}
use nymora.Operator.Trace.Reachable.{StateSound, run_all-StateSound}

insert_classes-AllSound :
    (depth : ℕ) (rows : List (ℕ × ClassPolicy)) (m : Map.Map ClassState)
    → AllSound depth m
    → AllSound depth (insert_classes rows m)
unfolding insert_classes IsPaired Placed
insert_classes-AllSound depth [] m h = h
insert_classes-AllSound depth ((c, policy) ∷ rest) m h =
    insert_classes-AllSound depth rest _
      (insert-AllSound depth c _ m (record { paired = refl; within = omega arith; placed = tt }) h)

module _ (depth : ℕ) (lo : 0 < depth) (hi : depth < 64) where
  land_founder-AllSound :
      (founder : ℕ) (rows : List ℕ) (m landed : Map.Map ClassState)
      → AllSound depth m
      → land_founder depth founder rows m ≡ some landed
      → AllSound depth landed
  unfolding land_founder
  land_founder-AllSound founder [] m landed h e = subst (AllSound depth) (ground arith) h
  land_founder-AllSound founder (c ∷ rest) m landed h e = elim (Option-cases (Map.lookup c m)) [
    | inl missing ↦ ground arith
    | inr (state, found) ↦ elim (Option-cases (land depth founder state).0) [
      | inl full ↦ ground arith
      | inr (p, at) ↦
          land_founder-AllSound founder rest (Map.insert c (land depth founder state).1 m) landed
            (insert-AllSound depth c (land depth founder state).1 m
              (land-IsSound depth founder state lo hi (lookup-IsSound depth c state m h found)) h)
            (ground arith)
    ]
  ]

  module _ (prim : Primitives) where
    create-StateSound :
        (f : Founding) (tag_secret statement_entropy : Bytes) (log_seed : Option Bytes)
        (s : AgoraState)
        → create prim depth f tag_secret statement_entropy log_seed ≡ ok s
        → StateSound prim depth lo hi s
    unfolding create founded snapshot StateSound
    create-StateSound f tag_secret statement_entropy log_seed s h =
        let classes = insert_classes f.classes [] in
        elim (Option-cases (land_founder depth f.founder f.founder_classes classes)) [
          | inl refused ↦ ground arith
          | inr (landed, e) ↦ subst (AllSound depth) (ground arith) (
              land_founder-AllSound f.founder f.founder_classes classes landed
                (insert_classes-AllSound depth f.classes [] (unfold AllSound in tt)) e)
        ]

    -- From an agora as it was founded, of a depth from 1 to 63, over any sequence of calls,
    -- answered or refused: every class holds exactly two leaves for each of its admissions, no
    -- more admissions than its capacity, and every recorded member at the recorded position of
    -- its tree, with the pad in the next one.
    pub run_all-create :
        (system : ProofSystem) (f : Founding) (tag_secret statement_entropy : Bytes)
        (log_seed : Option Bytes) (s : AgoraState) (calls : List (Call prim system depth)) (c : ℕ)
        (state : ClassState)
        → create prim depth f tag_secret statement_entropy log_seed ≡ ok s
        → Map.lookup c (run_all prim system depth calls s).classes ≡ some state
        → (length state.tree.leaves ≡ 2 * state.occupied)
          × (state.occupied ≤ class_capacity depth)
          × Placed state.tree.leaves state.positions
    unfolding StateSound IsPaired
    run_all-create system f tag_secret statement_entropy log_seed s calls c state made found =
        let start = create-StateSound f tag_secret statement_entropy log_seed s made in
        let h =
          lookup-IsSound depth c state _ (run_all-StateSound prim depth lo hi system calls s start)
            found in
        (h.paired, h.within, h.placed)
