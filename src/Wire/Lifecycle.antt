-- ===== src/Wire/Lifecycle.antt =====
-- The life of an escrowed job: the changes of status that contracts/AgenticCommerce.sol makes.
use ghost_protocol.Prelude.{◌≡◌, refl, arith, true}
use mathlib.Core.Path.{sym, subst}
use ghost_protocol.Wire.Schema.{
  WireContractState, job_open, job_funded, job_submitted, job_completed, job_rejected, job_expired,
}
use ghost_protocol.Wire.Terms.{is_terminal}

pub data Step : WireContractState → WireContractState → Type 0 where
  to_funded : Step job_open job_funded
  to_submitted : Step job_funded job_submitted
  to_completed : Step job_submitted job_completed
  to_rejected : Step job_submitted job_rejected
  to_expired : Step job_submitted job_expired
  cancel : Step job_open job_rejected
  refund : Step job_funded job_expired

pub data Reach (s : WireContractState) : WireContractState → Type 0 where
  here : Reach s s
  next : {t u : WireContractState} → Reach s t → Step t u → Reach s u

pub Reach-trans : {s t u : WireContractState} → Reach s t → Reach t u → Reach s u
Reach-trans r here = r
Reach-trans r (next q x) = next (Reach-trans r q) x

-- A job that has ended stays as it ended.
pub Reach-terminal : {s t : WireContractState} → is_terminal s ≡ true → Reach s t → t ≡ s
Reach-terminal ended here = refl
Reach-terminal {s} ended (next {t} q x) =
    absurd (no_step x (subst (λ r. is_terminal r ≡ true) (sym (Reach-terminal ended q)) ended))
  where
    no_step : {t u : WireContractState} → Step t u → is_terminal t ≡ true → ⊥
    no_step to_funded e = ground arith
    no_step to_submitted e = ground arith
    no_step to_completed e = ground arith
    no_step to_rejected e = ground arith
    no_step to_expired e = ground arith
    no_step cancel e = ground arith
    no_step refund e = ground arith
