-- ===== src/Operator/Trace/Dissolved.antt =====
-- A dissolved agora: the calls after it.
use nymora.Prelude.{ℕ, ◌≡◌, refl, true, List, [], ◌∷◌}
use nymora.Core.Error.{refuse, because, LocalReason}
use nymora.Crypto.Primitives.{Primitives}
use nymora.Proofs.{ProofSystem}
use nymora.Operator.State.{AgoraState, live}
use nymora.Operator.Boundary.{advance_epoch}
use nymora.Operator.Vouch.{credentials_init, start_vouch, vouch_attest, vouch_finalize}
use nymora.Operator.Quorum.{propose, approve, execute}
use nymora.Operator.Access.{issue_challenge, redeem_access}
use nymora.Operator.Migrate.{migrate}
use nymora.Operator.Inbox.{inbox_certificate}
use nymora.Operator.Trace.{Call, init_credentials, start, attest, finalize, run, answer, run_all}

module _ (prim : Primitives) (system : ProofSystem) (depth : ℕ) where
  run-dissolved :
      (call : Call prim system depth) (s : AgoraState)
      → s.dissolved ≡ true
      → (answer prim system depth call s ≡ refuse (because LocalReason.dissolved))
        × (run prim system depth call s ≡ s)
  unfolding run answer live credentials_init start_vouch vouch_attest vouch_finalize propose approve
      execute issue_challenge redeem_access migrate inbox_certificate advance_epoch
  run-dissolved (init_credentials a b) s h = (rw h, rw h)
  run-dissolved (start a b c) s h = (rw h, rw h)
  run-dissolved (attest a b c) s h = (rw h, rw h)
  run-dissolved (finalize a) s h = (rw h, rw h)
  run-dissolved call s h = (rw h, rw h)

  -- In a dissolved agora every call is refused and the state stays as it is, whatever calls came
  -- before.
  pub run_all-dissolved :
      (calls : List (Call prim system depth)) (call : Call prim system depth) (s : AgoraState)
      → s.dissolved ≡ true
      → (run_all prim system depth calls s ≡ s)
        × (answer prim system depth call (run_all prim system depth calls s)
            ≡ refuse (because LocalReason.dissolved))
  unfolding run_all
  run_all-dissolved [] call s h = (refl, (run-dissolved call s h).0)
  run_all-dissolved (c ∷ calls) call s h =
      rw (run-dissolved c s h).1 (run_all-dissolved calls call s h)
