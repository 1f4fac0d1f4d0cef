-- ===== src/Config/Stages.antt =====
-- The bookkeeping of stages in `RootConfig.Validate` (internal/config/models.go): the map of declared
-- stages and the count of each stage's jobs.
use odyssey_core_agent.Prelude.{
  ℕ, ◌+◌, String, Bool, true, false, not, List, [], ◌∷◌, ◌≡◌, ◌⊎◌, inl, inr, ◌↔◌, arith, nat_eq,
  ◌==◌, eq_iff, if◌then◌else◌, Map, insert, lookup-insert, All, Any, iff_trans,
}
use odyssey_core_agent.Prelude.Error.{Error}
use odyssey_core_agent.Config.Models.{
  JobConfig, marked, count_at, check_stages, check_jobs, check_used,
}
use odyssey_core_agent.Config.Validity.{In, Distinct}
use odyssey_core_agent.Config.Checks.{report-nil}

marked-insert :
    (s t : String) (seen : Map Bool)
    → marked (insert s true seen) t ≡ (if s == t then true else marked seen t)
unfolding marked
marked-insert s t seen = ground (arith, lookup-insert s t true seen)

unmarked-insert :
    (s : String) (seen : Map Bool) (ts : List String)
    → All (λ t. marked (insert s true seen) t ≡ false) ts
      ↔ (¬ In s ts × All (λ t. marked seen t ≡ false) ts)
unmarked-insert s seen [] = (λ h. (λ x. x, tt), λ h. tt)
unmarked-insert s seen (t ∷ ts) =
    let (to, from) = unmarked-insert s seen ts in
    (
      λ h.
          let (absent, rest) = to h.1 in
          (
            elim [
              | inl e ↦ ground (arith, eq_iff s t, marked-insert s t seen, h.0)
              | inr m ↦ absent m
            ],
            (ground (arith, marked-insert s t seen, h.0), rest),
          ),
      λ h. (
        ground (arith, marked-insert s t seen, eq_iff s t, λ (e : t ≡ s). h.0 (inl e), h.1.0),
        from (λ m. h.0 (inr m), h.1.1),
      ),
    )

pub check_stages-nil :
    (stages : List String) (seen : Map Bool) (errs : List Error)
    → ((check_stages stages seen errs).1 ≡ [])
      ↔ ((errs ≡ []) × All (λ s. marked seen s ≡ false) stages × Distinct stages)
unfolding check_stages
check_stages-nil [] seen errs = (λ h. (h, tt, tt), λ h. h.0)
check_stages-nil (s ∷ ss) seen errs =
    let (to, from) = unmarked-insert s seen ss in
    iff_trans (check_stages-nil ss (insert s true seen) _) (
      λ h.
          let (e, new) = (report-nil _ _ _).0 h.0 in
          let (absent, unmarked) = to h.1 in (e, (new, unmarked), (absent, h.2)),
      λ h. ((report-nil _ _ _).1 (h.0, h.1.0), from (h.2.0, h.1.1), h.2.1),
    )

pub check_stages-marked :
    (stages : List String) (seen : Map Bool) (errs : List Error) (t : String)
    → (marked (check_stages stages seen errs).0 t ≡ true) ↔ (In t stages ⊎ (marked seen t ≡ true))
unfolding check_stages
check_stages-marked [] seen errs t = (λ h. inr h, elim [ inl x ↦ absurd x | inr h ↦ h ])
check_stages-marked (s ∷ ss) seen errs t =
    iff_trans (check_stages-marked ss (insert s true seen) _ t) (
      elim [ inl m ↦ inl (inr m) | inr h ↦ ground (arith, marked-insert s t seen, eq_iff s t) ],
      elim [
        | inl m ↦ elim m [
          | inl e ↦ ground (arith, marked-insert s t seen, eq_iff s t)
          | inr n ↦ inl n
        ]
        | inr h ↦ inr (ground (arith, marked-insert s t seen))
      ],
    )

abbrev pub used : Map ℕ → String → Bool
used counts stage = not (nat_eq (count_at counts stage) 0)

used-insert :
    (s t : String) (counts : Map ℕ)
    → used (insert s (count_at counts s + 1) counts) t ≡ (if s == t then true else used counts t)
unfolding count_at
used-insert s t counts = ground (arith, lookup-insert s t (count_at counts s + 1) counts)

pub check_jobs-used :
    (seen : Map Bool) (jobs : Map JobConfig) (counts : Map ℕ) (errs : List Error) (t : String)
    → (used (check_jobs seen jobs counts errs).0 t ≡ true)
      ↔ (Any (λ entry. entry.1.stage ≡ t) jobs ⊎ (used counts t ≡ true))
unfolding check_jobs
check_jobs-used seen [] counts errs t = (λ h. inr h, elim [ inl x ↦ absurd x | inr h ↦ h ])
check_jobs-used seen ((name, job) ∷ jobs) counts errs t =
    iff_trans (check_jobs-used seen jobs _ _ t) (
      elim [
        | inl m ↦ inl (inr m)
        | inr h ↦ ground (arith, used-insert job.stage t counts, eq_iff job.stage t)
      ],
      elim [
        | inl m ↦ elim m [
          | inl e ↦ ground (arith, used-insert job.stage t counts, eq_iff job.stage t)
          | inr n ↦ inl n
        ]
        | inr h ↦ inr (ground (arith, used-insert job.stage t counts))
      ],
    )

pub check_used-nil :
    (stages : List String) (counts : Map ℕ) (errs : List Error)
    → (check_used stages counts errs ≡ []) ↔ ((errs ≡ []) × All (λ s. used counts s ≡ true) stages)
unfolding check_used
check_used-nil [] counts errs = (λ h. (h, tt), λ h. h.0)
check_used-nil (s ∷ ss) counts errs = iff_trans (check_used-nil ss counts _) (
  λ h. let (e, u) = (report-nil _ _ _).0 h.0 in (e, (ground arith, h.1)),
  λ h. ((report-nil _ _ _).1 (h.0, ground (arith, h.1.0)), h.1.1),
)
