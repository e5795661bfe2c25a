-- ===== src/Jobs.antt =====
-- ui/src/body/json-parse.ts: the main thread's side of the JSON worker. Ids of jobs are the numbers
-- of the counter, and a worker is the number of workers made before it. `settled` lists what the
-- promises are settled with, in order.
pub mod Settling
use protospy.Prelude.{
  ℕ, suc, ◌+◌, Bool, true, false, Option, none, some, List, [], ◌∷◌, ◌++◌, map, ◌==◌, ◌||◌,
  if◌then◌else◌,
}

-- how a promise is settled
pub data Outcome (Answer : Type 0) : Type 0 where
  resolved : Answer → Outcome Answer
  rejected : Outcome Answer

-- the variables `_worker`, `_jobCounter` and `_pending`, whose entries are the promises of their ids
pub record Client (Answer : Type 0) : Type 0 where
  pub worker : Option ℕ
  pub workers_made : ℕ
  pub job_counter : ℕ
  pub pending : List ℕ
  pub settled : List (ℕ × Outcome Answer)

-- `OutMessage`: the id of a job with its result or an error
pub data Reply (Answer : Type 0) : Type 0 where
  succeeded : (job_id : ℕ) → Answer → Reply Answer
  failed : (job_id : ℕ) → Reply Answer

-- `_pending.has(jobId)`
unfoldable pub is_pending : ℕ → List ℕ → Bool
is_pending id [] = false
is_pending id (j ∷ pending) = (j == id) || is_pending id pending

-- `_pending.delete(jobId)`
unfoldable pub delete_job : ℕ → List ℕ → List ℕ
delete_job id [] = []
delete_job id (j ∷ pending) = if j == id then pending else j ∷ delete_job id pending

module _ {Answer : Type 0} where
  abbrev pub no_jobs : Client Answer
  no_jobs = record { worker = none; workers_made = 0; job_counter = 0; pending = []; settled = [] }

  -- `job.resolve(…)` or `job.reject(…)`
  abbrev pub settle_job : ℕ → Outcome Answer → Client Answer → Client Answer
  settle_job id outcome c = record c { settled = c.settled ++ (id, outcome) ∷ [] }

  -- `getWorker`, where a new worker can be made
  unfoldable pub get_worker : Client Answer → Client Answer
  get_worker c = elim c.worker [
    | some w ↦ c
    | none ↦ record c { worker = some c.workers_made; workers_made = c.workers_made + 1 }
  ]

  -- whether `getWorker` throws, given whether a new worker can be made
  unfoldable pub has_worker : Bool → Client Answer → Bool
  has_worker can_make c = elim c.worker [ some w ↦ true | none ↦ can_make ]

  -- `_pending.set(jobId, …)` and `postMessage`, given whether it returns
  unfoldable pub post_job : Bool → ℕ → Client Answer → Client Answer
  unfolding delete_job
  post_job true id c = record c { pending = c.pending ++ id ∷ [] }
  post_job false id c =
      settle_job id rejected (record c { pending = delete_job id (c.pending ++ id ∷ []) })

  -- `runJob`
  unfoldable pub run_job : (can_make can_post : Bool) → Client Answer → Client Answer
  unfolding has_worker get_worker post_job
  run_job can_make can_post c =
      let counted = record c { job_counter = suc c.job_counter } in
      if has_worker can_make c
      then post_job can_post c.job_counter (get_worker counted)
      else settle_job c.job_counter rejected counted

  abbrev pub id_of_reply : Reply Answer → ℕ
  id_of_reply (succeeded id answer) = id
  id_of_reply (failed id) = id

  abbrev pub outcome_of : Reply Answer → Outcome Answer
  outcome_of (succeeded id answer) = resolved answer
  outcome_of (failed id) = rejected

  -- the listener of "message"
  unfoldable pub on_message : Reply Answer → Client Answer → Client Answer
  unfolding is_pending delete_job
  on_message reply c =
      if is_pending (id_of_reply reply) c.pending
      then settle_job (id_of_reply reply) (outcome_of reply)
          (record c { pending = delete_job (id_of_reply reply) c.pending })
      else c

  -- the listener of "error", of whichever worker
  unfoldable pub on_error : Client Answer → Client Answer
  on_error c = record c {
    worker = none;
    pending = [];
    settled = c.settled ++ map (λ id. (id, rejected)) c.pending;
  }

-- what happens to the client
pub data Happening (Answer : Type 0) : Type 0 where
  ran : (can_make can_post : Bool) → Happening Answer
  replied : Reply Answer → Happening Answer
  broke : Happening Answer

abbrev pub happen : {Answer : Type 0} → Happening Answer → Client Answer → Client Answer
happen (ran can_make can_post) c = run_job can_make can_post c
happen (replied reply) c = on_message reply c
happen broke c = on_error c
