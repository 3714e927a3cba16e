-- ===== src/Program/Stopped.antt =====
-- The scraper after both workers were stopped.
use Prim.Native.String.{String}
use dev_search.Prelude.{
  ℕ, ◌≡◌, refl, ◌∙◌, true, false, Bool, Option, some, List, ◌∷◌, ◌++◌, ◌+◌, arith, tally-append,
}
use dev_search.Simhash.Separation.{Separated}
use dev_search.Queue.{Job}
use dev_search.Worker.{JobError, Outcome}
use dev_search.Program.{Env, State, Kind, crawler, parser, Meets, exec}
use dev_search.Program.Run.{
  Task, asking, waiting, abandoned, ended, same_kind, own, busy, parser_stopped, System, Step,
  Reach, started,
}
use dev_search.Program.Sound.{exec_to-Kept, Reach-Separated}

busy-append :
    (kind : Kind) (task : Task) (before behind : List Task)
    → busy kind (before ++ task ∷ behind) ≡ own kind task + busy kind (before ++ behind)
unfolding busy
busy-append kind task before behind = tally-append (own kind) before behind task

same_kind_refl : (kind : Kind) → same_kind kind kind ≡ true
same_kind_refl crawler = refl
same_kind_refl parser = refl

own-asking : (kind : Kind) → own kind (asking kind) ≡ 1
own-asking kind = rw (same_kind_refl kind) refl

own-waiting : (kind : Kind) (job : Job) → own kind (waiting kind job) ≡ 1
own-waiting kind job = rw (same_kind_refl kind) refl

own-ended : (kind : Kind) (job : Job) (outcome : Outcome) → own kind (ended kind job outcome) ≡ 1
own-ended kind job outcome = rw (same_kind_refl kind) refl

-- A task of the worker keeps it busy.
busy_at :
    (kind : Kind) (task : Task) (tasks before behind : List Task)
    → tasks ≡ before ++ task ∷ behind
    → own kind task ≡ 1
    → busy kind tasks ≡ 0
    → ⊥
busy_at kind task tasks before behind at one idle =
    let split : busy kind tasks ≡ own kind task + busy kind (before ++ behind) =
      rw (at) (busy-append kind task before behind) in
    absurd (omega arith)

abandoned_idle :
    (kind other : Kind) (job : Job) (tasks before behind : List Task)
    → tasks ≡ before ++ abandoned other job ∷ behind
    → busy kind tasks ≡ 0
    → busy kind (before ++ behind) ≡ 0
abandoned_idle kind other job tasks before behind at idle =
    let split : busy kind tasks ≡ own kind (abandoned other job) + busy kind (before ++ behind) =
      rw (at) (busy-append kind (abandoned other job) before behind) in
    omega arith

module _ (env : Env) (fresh : Kind → String) where
  -- Both workers are stopped, and all goroutines of `processTasks` have returned.
  abbrev pub Stopped : System env → Type 0
  Stopped s = (kind : Kind) → (s.stopped kind ≡ true) × (busy kind s.tasks ≡ 0)

  abbrev Counted : ℕ → ℕ → State env → Type 0
  Counted processed failed s =
      Separated s.index × (s.stats.processed_pages ≡ processed) × (s.stats.errors ≡ failed)

  abbrev Final : ℕ → ℕ → System env → Type 0
  Final processed failed s = Stopped s × Counted processed failed s.state

  exec-Final :
      (processed failed : ℕ) (kind : Kind) (meets : Meets) (job : Job) (s t : State env)
      (answer : Option (Option JobError))
      → exec env kind meets job s ≡ (answer, t)
      → Counted processed failed s
      → Counted processed failed t
  exec-Final processed failed kind meets job s t answer e (sep, ran, errs) =
      let (apart, jobs, failures, dups) = exec_to-Kept env kind meets job s t answer e sep in
      (apart, jobs ∙ ran, failures ∙ errs)

  parser_stopped_too :
      (stopped : Kind → Bool)
      → ((kind : Kind) → stopped kind ≡ true)
      → (kind : Kind) → parser_stopped stopped kind ≡ true
  parser_stopped_too stopped off parser = refl
  parser_stopped_too stopped off crawler = off crawler

  not_both : (b : Bool) → b ≡ true → b ≡ false → ⊥
  not_both b e f = cc

  step-Final :
      (processed failed : ℕ) (s t : System env)
      → Step env fresh s t
      → Final processed failed s
      → Final processed failed t
  step-Final processed failed s t (Step.loops kind e f) (off, h) =
      absurd (not_both (s.stopped kind) (off kind).0 e)
  step-Final processed failed s t (Step.takes kind now answer q before behind at e) (off, h) =
      absurd (busy_at kind (asking kind) s.tasks before behind at (own-asking kind) (off kind).1)
  step-Final processed failed s t (Step.answers kind meets job err u before behind at e) (off, h) =
      absurd (
        busy_at kind (waiting kind job) s.tasks before behind at (own-waiting kind job)
          (off kind).1)
  step-Final processed failed s t (Step.gives_up kind job before behind at) (off, h) =
      absurd (
        busy_at kind (waiting kind job) s.tasks before behind at (own-waiting kind job)
          (off kind).1)
  step-Final processed failed s t (Step.answers_late kind meets job err u before behind at e)
        (off, h) =
      (
        (λ k. ((off k).0, abandoned_idle k kind job s.tasks before behind at (off k).1)),
        exec-Final processed failed kind meets job s.state u (some err) e h,
      )
  step-Final processed failed s t
        (Step.completes kind now done job after outcome duration q c before behind at e) (off, h) =
      absurd (
        busy_at kind (ended kind job outcome) s.tasks before behind at (own-ended kind job outcome)
          (off kind).1)
  step-Final processed failed s t (Step.wakes kind now) (off, h) = (off, h)
  step-Final processed failed s t (Step.reaps kind now) (off, h) = (off, h)
  step-Final processed failed s t Step.stops_parser (off, h) =
      ((λ kind. (parser_stopped_too s.stopped (λ k. (off k).0) kind, (off kind).1)), h)
  step-Final processed failed s t (Step.stops_crawler e f) (off, h) =
      ((λ kind. (refl, (off kind).1)), h)
  step-Final processed failed s t (Step.passes q m limits messages) (off, h) = (off, h)

  Reach-Final :
      (processed failed : ℕ) (s t : System env)
      → Reach env fresh s t
      → Final processed failed s
      → Final processed failed t
  Reach-Final processed failed s t Reach.here h = h
  Reach-Final processed failed s t (Reach.next {t = u} run step) h =
      step-Final processed failed u t step (Reach-Final processed failed s u run h)

  -- When both workers have been stopped and their goroutines have returned, then whatever handlers that were
  -- given up, timers and other programs still do, no goroutine takes a job, and the counts of jobs that
  -- succeeded and that failed stay what they are, so the report shows the final ones.
  pub Reach-Stopped :
      (objects : env.obj.Store) (queue : env.redis.Store) (metas : env.meta_redis.Store)
      (limits : String → Option ℕ) (url_metas : env.url_metas.Store) (messages : env.streams.Store)
      (s t : System env)
      → Reach env fresh (started env objects queue metas limits url_metas messages) s
      → Stopped s
      → Reach env fresh s t
      → Stopped t
        × (t.state.stats.processed_pages ≡ s.state.stats.processed_pages)
        × (t.state.stats.errors ≡ s.state.stats.errors)
  Reach-Stopped objects queue metas limits url_metas messages s t before off run =
      let (sep, few) =
        Reach-Separated env fresh objects queue metas limits url_metas messages s before in
      let (off', h) =
        Reach-Final s.state.stats.processed_pages s.state.stats.errors s t run
          (off, (sep, refl, refl)) in
      (off', h.1, h.2)
