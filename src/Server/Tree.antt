-- ===== src/Server/Tree.antt =====
-- What the messages of internal/server/mapping.go say of the result of a run.
use odyssey_core_agent.Prelude.{
  ℕ, zero, suc, ltb, false, ◌<◌, ◌≤◌, ◌-◌, ◌%◌, ◌^◌, List, [], ◌∷◌, String, ℤ, pos, negsuc, ◌≡◌,
  refl, ◌∙◌, ap, ◌⊎◌, ◌↔◌, subst, Bool-cases, inl, inr, All, Any, arith,
}
use odyssey_core_agent.Prelude.Error.{Error}
use odyssey_core_agent.Domain.Duration.{neg}
use odyssey_core_agent.Domain.Status.{Status}
use odyssey_core_agent.Domain.Result.{StepResult}
use odyssey_core_agent.Server.Messages.{
  StatusMessage, status_unspecified, status_pending, status_running, status_passed, status_failed,
  status_errored, status_skipped, JobMessage, StageMessage, Response, signed32, int32, step_message,
}

-- How bad a status is to a client.
abbrev pub severity : StatusMessage → ℕ
severity status_passed = 0
severity status_skipped = 1
severity status_pending = 2
severity status_running = 3
severity status_unspecified = 4
severity status_failed = 5
severity status_errored = 6

-- A status sums up the messages below it: with none it is pending, and else none of them is worse, and
-- one of them has it.
abbrev pub SumsUp : {B : Type 0} → (B → StatusMessage) → StatusMessage → List B → Type 0
SumsUp status own [] = own ≡ status_pending
SumsUp status own (m ∷ ms) =
    All (λ b. severity (status b) ≤ severity own) (m ∷ ms) × Any (λ b. status b ≡ own) (m ∷ ms)

module _ (render : Error → String) where
  -- A job that was not set up is errored and has the text of the fault; any other has none, and its
  -- status sums up its steps.
  abbrev pub JobSummedUp : JobMessage → Type 0
  JobSummedUp m =
      ((e : Error) × (m.status ≡ status_errored) × (m.error ≡ render e))
      ⊎ ((m.error ≡ "") × SumsUp (λ step. step.status) m.status m.step_results)

  abbrev pub StageSummedUp : StageMessage → Type 0
  StageSummedUp m =
      SumsUp (λ job. job.status) m.status m.job_results × All JobSummedUp m.job_results

  abbrev pub SummedUp : Response → Type 0
  SummedUp m =
      SumsUp (λ stage. stage.status) m.status m.stage_results × All StageSummedUp m.stage_results

-- The exit codes of an int32.
abbrev pub Fits32 : ℤ → Type 0
Fits32 (pos n) = n < 2 ^ 31
Fits32 (negsuc n) = n < 2 ^ 31

signed32-low : (n : ℕ) → n < 2 ^ 31 → signed32 n ≡ pos n
unfolding signed32
signed32-low n h = ground (arith, h)

signed32-high : (n : ℕ) → n < 2 ^ 31 → signed32 (2 ^ 32 - 1 - n) ≡ negsuc n
unfolding signed32
signed32-high n h =
    let high : ltb (2 ^ 32 - 1 - n) (2 ^ 31) ≡ false = ground arith in
    let magnitude : 2 ^ 32 - (2 ^ 32 - 1 - n) ≡ suc n = omega arith in rw (high, magnitude) refl

int32-Fits32 : (n : ℤ) → Fits32 n → int32 n ≡ n
unfolding int32
int32-Fits32 (pos n) h =
    let low : n % 2 ^ 32 ≡ n = omega arith in ap signed32 low ∙ signed32-low n h
int32-Fits32 (negsuc n) h =
    let low : n % 2 ^ 32 ≡ n = omega arith in
    ap (λ m. signed32 (2 ^ 32 - 1 - m)) low ∙ signed32-high n h

signed32-Fits32 : (n : ℕ) → n < 2 ^ 32 → Fits32 (signed32 n)
unfolding signed32
signed32-Fits32 n h = elim (Bool-cases (ltb n (2 ^ 31))) [
  | inl e ↦ rw e (ground (arith, e))
  | inr e ↦ rw e (high (2 ^ 32 - n) (ground (arith, e)))
]
  where
    high : (m : ℕ) → m ≤ 2 ^ 31 → Fits32 (neg m)
    high zero k = omega arith
    high (suc m) k = omega (arith, k)

int32-always : (n : ℤ) → Fits32 (int32 n)
unfolding int32
int32-always (pos n) = signed32-Fits32 (n % 2 ^ 32) (omega arith)
int32-always (negsuc n) = signed32-Fits32 (2 ^ 32 - 1 - n % 2 ^ 32) (omega arith)

-- An exit code reaches the client as it is exactly if it is an int32.
pub exit_code-step_message :
    (render : Error → String) (r : StepResult)
    → ((step_message render r).exit_code ≡ r.exit_code) ↔ Fits32 r.exit_code
unfolding step_message
exit_code-step_message render r =
    (λ h. subst Fits32 h (int32-always r.exit_code), λ h. int32-Fits32 r.exit_code h)
