-- ===== src/Tests/Jobs.antt =====
-- The worker's client at concrete inputs.
use protospy.Prelude.{ℕ, ◌<◌, ◌≡◌, refl, true, false, [], ◌∷◌, arith}
use protospy.Jobs.{
  Client, resolved, rejected, succeeded, ran, replied, happen, no_jobs, on_error, on_message,
  run_job,
}
use protospy.Jobs.Settling.{
  Reached, started, happened, IsAccounted, occurrences, settled_ids, Reached-IsAccounted,
  on_error-settles,
}

-- Three jobs run, of which the second cannot be posted; the first is answered.
abbrev three_jobs : Client ℕ
three_jobs =
    happen (replied (succeeded 0 7))
      (happen (ran false true) (happen (ran false false) (happen (ran true true) no_jobs)))

three_jobs-Reached : Reached three_jobs
three_jobs-Reached =
    happened
      (happened (happened (happened (started refl) (ran true true) refl) (ran false false) refl)
        (ran false true) refl)
      (replied (succeeded 0 7)) refl

-- The error rejects the third; a late answer to it changes nothing.
three_jobs_settle :
    (happen (replied (succeeded 2 9)) (on_error three_jobs)).settled
    ≡ (1, rejected) ∷ (0, resolved 7) ∷ (2, rejected) ∷ []
unfolding on_message on_error run_job
three_jobs_settle = refl

Reached-IsAccounted_example : IsAccounted three_jobs
Reached-IsAccounted_example = Reached-IsAccounted three_jobs-Reached

third_ran : 2 < three_jobs.job_counter
unfolding on_message run_job
third_ran = omega arith

on_error-settles_example : occurrences 2 (settled_ids (on_error three_jobs)) ≡ 1
on_error-settles_example = on_error-settles three_jobs-Reached 2 third_ran
