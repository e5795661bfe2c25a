-- ===== src/Jobs/Settling.antt =====
-- The promises of ui/src/body/json-parse.ts are settled once.
use mathlib.Core.List.{map-append}
use protospy.Prelude.{
  ℕ, suc, ◌+◌, ◌<◌, ◌≡◌, refl, sym, ap, ◌∙◌, Bool, true, false, List, [], ◌∷◌, ◌++◌, map, ltb, ◌==◌,
  if◌then◌else◌, arith, Bool-cases, Option-cases, subst, lt→ltb, inl, inr,
}
use protospy.Jobs.{
  Outcome, rejected, Client, Reply, is_pending, delete_job, no_jobs, settle_job, get_worker,
  has_worker, post_job, run_job, id_of_reply, outcome_of, on_message, on_error, Happening, ran,
  replied, broke, happen,
}

-- How often a number stands in a list.
unfoldable pub occurrences : ℕ → List ℕ → ℕ
occurrences id [] = 0
occurrences id (j ∷ js) = (if j == id then 1 else 0) + occurrences id js

occurrences-append :
    (id : ℕ) (js ks : List ℕ) → occurrences id (js ++ ks) ≡ occurrences id js + occurrences id ks
unfolding occurrences
occurrences-append id [] ks = omega arith
occurrences-append id (j ∷ js) ks = omega (arith, occurrences-append id js ks)

occurrences-last :
    (id j : ℕ) (js : List ℕ)
    → occurrences id (js ++ j ∷ []) ≡ occurrences id js + (if j == id then 1 else 0)
unfolding occurrences
occurrences-last id j [] = omega arith
occurrences-last id j (k ∷ js) = omega (arith, occurrences-last id j js)

occurrences-delete_job :
    (id j : ℕ) (js : List ℕ)
    → is_pending j js ≡ true
    → occurrences id js ≡ occurrences id (delete_job j js) + (if j == id then 1 else 0)
unfolding occurrences is_pending delete_job
occurrences-delete_job id j [] there = cc
occurrences-delete_job id j (k ∷ js) there = ground (arith, occurrences-delete_job id j js)

is_pending-last : (id : ℕ) (js : List ℕ) → is_pending id (js ++ id ∷ []) ≡ true
unfolding is_pending
is_pending-last id [] = ground arith
is_pending-last id (j ∷ js) = ground (arith, is_pending-last id js)

next_counted :
    (id n : ℕ)
    → (if ltb id n then 1 else 0) + (if n == id then 1 else 0) ≡ (if ltb id (suc n) then 1 else 0)
next_counted id n = ground arith

map-rejected :
    (Answer : Type 0) (js : List ℕ)
    → map (λ (e : ℕ × Outcome Answer). e.0) (map (λ id. (id, rejected)) js) ≡ js
map-rejected Answer [] = refl
map-rejected Answer (j ∷ js) = ap (◌∷◌ j) (map-rejected Answer js)

module _ {Answer : Type 0} where
  -- The ids of the jobs that are settled, as often as they are.
  abbrev pub settled_ids : Client Answer → List ℕ
  settled_ids c = map (λ e. e.0) c.settled

  -- How often a job is in flight or settled.
  abbrev pub accounted : ℕ → Client Answer → ℕ
  accounted id c = occurrences id c.pending + occurrences id (settled_ids c)

  settled_ids-settle_job :
      (id j : ℕ) (outcome : Outcome Answer) (c : Client Answer)
      → occurrences id (settled_ids (settle_job j outcome c))
        ≡ occurrences id (settled_ids c) + (if j == id then 1 else 0)
  unfolding occurrences
  settled_ids-settle_job id j outcome c =
      ap (occurrences id) (map-append (λ e. e.0) c.settled ((j, outcome) ∷ []))
      ∙ occurrences-last id j (settled_ids c)

  accounted-get_worker : (id : ℕ) (c : Client Answer) → accounted id (get_worker c) ≡ accounted id c
  unfolding get_worker
  accounted-get_worker id c = elim (Option-cases c.worker) [
    | inl idle ↦ rw (idle, get_worker) refl
    | inr (w, busy) ↦ rw (busy, get_worker) refl
  ]

  -- A new job is in flight or settled at once.
  accounted-post_job :
      (can_post : Bool) (id j : ℕ) (c : Client Answer)
      → accounted id (post_job can_post j c) ≡ accounted id c + (if j == id then 1 else 0)
  unfolding post_job
  accounted-post_job true id j c = omega (arith, occurrences-last id j c.pending)
  accounted-post_job false id j c =
      let pending = c.pending ++ j ∷ [] in
      omega (
        arith,
        settled_ids-settle_job id j rejected (record c { pending = delete_job j pending }),
        occurrences-delete_job id j pending (is_pending-last j c.pending),
        occurrences-last id j c.pending,
      )

  accounted-run_job :
      (can_make can_post : Bool) (id : ℕ) (c : Client Answer)
      → accounted id (run_job can_make can_post c)
        ≡ accounted id c + (if c.job_counter == id then 1 else 0)
  unfolding run_job
  accounted-run_job can_make can_post id c =
      let counted = record c { job_counter = suc c.job_counter } in
      elim (Bool-cases (has_worker can_make c)) [
        | inl made ↦
            rw (run_job, made)
              (accounted-post_job can_post id c.job_counter (get_worker counted)
                ∙ ap (λ n. n + (if c.job_counter == id then 1 else 0))
                    (accounted-get_worker id counted))
        | inr not_made ↦
            rw (run_job, not_made)
              (omega (arith, settled_ids-settle_job id c.job_counter rejected counted))
      ]

  accounted-on_message :
      (id : ℕ) (reply : Reply Answer) (c : Client Answer)
      → accounted id (on_message reply c) ≡ accounted id c
  unfolding on_message
  accounted-on_message id reply c =
      let j = id_of_reply reply in
      elim (Bool-cases (is_pending j c.pending)) [
        | inl there ↦
            rw (on_message, there)
              (omega (
                arith,
                settled_ids-settle_job id j (outcome_of reply)
                    (record c { pending = delete_job j c.pending }),
                occurrences-delete_job id j c.pending there,
              ))
        | inr gone ↦ rw (on_message, gone) refl
      ]

  settled_ids-on_error : (c : Client Answer) → settled_ids (on_error c) ≡ settled_ids c ++ c.pending
  unfolding on_error
  settled_ids-on_error c =
      map-append (λ e. e.0) c.settled (map (λ id. (id, rejected)) c.pending)
      ∙ ap (λ js. settled_ids c ++ js) (map-rejected Answer c.pending)

  pending-on_error : (c : Client Answer) → (on_error c).pending ≡ []
  unfolding on_error
  pending-on_error c = refl

  accounted-on_error : (id : ℕ) (c : Client Answer) → accounted id (on_error c) ≡ accounted id c
  unfolding occurrences
  accounted-on_error id c = omega (
    arith,
    ap (occurrences id) (pending-on_error c),
    ap (occurrences id) (settled_ids-on_error c),
    occurrences-append id (settled_ids c) c.pending,
  )

  job_counter-get_worker : (c : Client Answer) → (get_worker c).job_counter ≡ c.job_counter
  unfolding get_worker
  job_counter-get_worker c = elim (Option-cases c.worker) [
    | inl idle ↦ rw (idle, get_worker) refl
    | inr (w, busy) ↦ rw (busy, get_worker) refl
  ]

  job_counter-post_job :
      (can_post : Bool) (id : ℕ) (c : Client Answer)
      → (post_job can_post id c).job_counter ≡ c.job_counter
  unfolding post_job
  job_counter-post_job true id c = refl
  job_counter-post_job false id c = refl

  job_counter-run_job :
      (can_make can_post : Bool) (c : Client Answer)
      → (run_job can_make can_post c).job_counter ≡ suc c.job_counter
  unfolding run_job
  job_counter-run_job can_make can_post c =
      let counted = record c { job_counter = suc c.job_counter } in
      elim (Bool-cases (has_worker can_make c)) [
        | inl made ↦
            rw (run_job, made)
              (job_counter-post_job can_post c.job_counter (get_worker counted)
                ∙ job_counter-get_worker counted)
        | inr not_made ↦ rw (run_job, not_made) refl
      ]

  job_counter-on_message :
      (reply : Reply Answer) (c : Client Answer) → (on_message reply c).job_counter ≡ c.job_counter
  unfolding on_message
  job_counter-on_message reply c = elim (Bool-cases (is_pending (id_of_reply reply) c.pending)) [
    | inl there ↦ rw (on_message, there) refl
    | inr gone ↦ rw (on_message, gone) refl
  ]

  -- The states that happenings lead to.
  pub data Reached : Client Answer → Type 0 where
    started : {c : Client Answer} → c ≡ no_jobs → Reached c
    happened :
        {c d : Client Answer} → Reached c → (h : Happening Answer) → d ≡ happen h c → Reached d

  -- Every job that was run is accounted for once, and no other.
  abbrev pub IsAccounted : Client Answer → Type 0
  IsAccounted c = (id : ℕ) → accounted id c ≡ (if ltb id c.job_counter then 1 else 0)

  happen-IsAccounted :
      (h : Happening Answer) (c : Client Answer) → IsAccounted c → IsAccounted (happen h c)
  unfolding on_error
  happen-IsAccounted (ran can_make can_post) c inv id =
      accounted-run_job can_make can_post id c
      ∙ ap (λ n. n + (if c.job_counter == id then 1 else 0)) (inv id)
      ∙ next_counted id c.job_counter
      ∙ ap (λ n. if ltb id n then 1 else 0) (sym (job_counter-run_job can_make can_post c))
  happen-IsAccounted (replied reply) c inv id =
      accounted-on_message id reply c
      ∙ inv id
      ∙ ap (λ n. if ltb id n then 1 else 0) (sym (job_counter-on_message reply c))
  happen-IsAccounted broke c inv id = accounted-on_error id c ∙ inv id

  -- Whatever happens, in any order, every job that was run is at any time either in flight or has
  -- been settled, and that once; no other job is.
  pub Reached-IsAccounted : {c : Client Answer} → Reached c → IsAccounted c
  unfolding occurrences
  Reached-IsAccounted (started same) = subst IsAccounted (sym same) (λ id. ground arith)
  Reached-IsAccounted (happened {c = c} earlier h same) =
      subst IsAccounted (sym same) (happen-IsAccounted h c (Reached-IsAccounted earlier))

  -- After an error of a worker every job that was run has been settled once.
  pub on_error-settles :
      {c : Client Answer}
      → Reached c
      → (id : ℕ) → id < c.job_counter
      → occurrences id (settled_ids (on_error c)) ≡ 1
  unfolding occurrences
  on_error-settles {c = c} reached id run = omega (
    arith,
    accounted-on_error id c,
    Reached-IsAccounted reached id ∙ ap (λ b. if b then 1 else 0) (lt→ltb id c.job_counter run),
    ap (occurrences id) (pending-on_error c),
  )
