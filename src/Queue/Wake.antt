-- ===== src/Queue/Wake.antt =====
-- `ProcessRetryJobs`: the jobs that are due go from the retry set to the ready lists.
use Prim.Native.String.{String}
use mathlib.Core.List.{append-nil, append_assoc}
use dev_search.Prelude.{
  ℕ, ◌≡◌, ◌≢◌, ◌≤◌, ◌<◌, dec_lt, ◌⊎◌, inl, inr, refl, sym, ap, subst, ◌∙◌, Bool, true, Option, none,
  some, List, [], ◌∷◌, ◌++◌, arith, Option-cases, ◌==◌, if◌then◌else◌,
}
use dev_search.Redis.{Redis, Entry, apply_all, rpush, zrem, In}
use dev_search.Scoring.{PriorityStatus, since, score_to_priority, apply_aging}
use dev_search.Scoring.Priorities.{rank}
use dev_search.Queue.{Job, Key, ready_key, retry_key, Value, marshal_or_empty, unmarshal, unix}
use dev_search.Queue.Ops.{woken, wake, wake_all, process_retry_jobs, outcome}
use dev_search.Queue.Ready.{ready_list, ready_list-rpush}

-- The queue of a woken job, by its aged score.
pub wake_queue : ℕ → Job → PriorityStatus
wake_queue now job = score_to_priority (apply_aging job.base_score (since now job.last_enqueued_at))

woken-priority : (now : ℕ) (job : Job) → (woken now job).priority ≡ some (wake_queue now job)
unfolding woken wake_queue
woken-priority now job = refl

-- What a due text adds to the ready list of p.
pub adds : ℕ → PriorityStatus → Value → List Value
adds now p value = elim (unmarshal value) [
  | none ↦ []
  | some job ↦
      if rank (wake_queue now job) == rank p then marshal_or_empty (woken now job) ∷ [] else []
]

pub adds_all : ℕ → PriorityStatus → List Value → List Value
adds_all now p [] = []
adds_all now p (value ∷ values) = adds now p value ++ adds_all now p values

apply_all-append {ℓ κ} :
    {C : Type ℓ} {S : Type κ} (f : C → S → S) (cs ds : List C) (s : S)
    → apply_all f (cs ++ ds) s ≡ apply_all f ds (apply_all f cs s)
apply_all-append f [] ds s = refl
apply_all-append f (c ∷ cs) ds s = apply_all-append f cs ds (f c s)

outcome-eq-none : (okay : Bool) → outcome okay ≡ none → okay ≡ true
outcome-eq-none okay h = ground arith

module _ (r : Redis Key Value) (namespace : String) where
  open r use {
    Store, entry, apply, exec, exec_ok, entry_other, zrem_self, zrem_other, zrem_gone,
    zrange_by_score, zrange_in,
  }

  ready_list-wake :
      (now : ℕ) (p : PriorityStatus) (value : Value) (s : Store)
      → ready_list r namespace (apply_all apply (wake r namespace now value) s) p
        ≡ ready_list r namespace s p ++ adds now p value
  unfolding wake adds woken wake_queue score_to_priority
  ready_list-wake now p value s = elim (Option-cases (unmarshal value)) [
    | inl bad ↦ rw (bad, wake, adds) (sym (append-nil _))
    | inr (job, good) ↦
        rw (good, wake, adds) rw (woken-priority now job)
          (ap (λ (e : Entry Value). e.list)
              (entry_other (zrem (retry_key namespace) value) _ (ready_key namespace (some p))
                (λ e. cc))
            ∙ ready_list-rpush r namespace (wake_queue now job) p (marshal_or_empty (woken now job))
                s)
  ]

  ready_list-wake_all :
      (now : ℕ) (p : PriorityStatus) (values : List Value) (s : Store)
      → ready_list r namespace (apply_all apply (wake_all r namespace now values) s) p
        ≡ ready_list r namespace s p ++ adds_all now p values
  unfolding wake_all adds_all
  ready_list-wake_all now p [] s = sym (append-nil _)
  ready_list-wake_all now p (value ∷ values) s = rw (apply_all-append apply) (
      ready_list-wake_all now p values (apply_all apply (wake r namespace now value) s)
      ∙ (ap (λ l. l ++ adds_all now p values) (ready_list-wake now p value s)
          ∙ append_assoc (ready_list r namespace s p) (adds now p value) (adds_all now p values)))

  -- The score of a member of the retry set.
  retry_score : Store → Value → Option ℕ
  retry_score s value = (entry s (retry_key namespace)).zset value

  -- The push on a ready list leaves the retry set alone.
  retry-rpush :
      (q : Option PriorityStatus) (pushed : Value) (s : Store)
      → entry (apply (rpush (ready_key namespace q) pushed) s) (retry_key namespace)
        ≡ entry s (retry_key namespace)
  retry-rpush q pushed s =
      entry_other (rpush (ready_key namespace q) pushed) s (retry_key namespace) (λ e. cc)

  wake_other :
      (now : ℕ) (value other : Value) (s : Store)
      → value ≢ other
      → retry_score (apply_all apply (wake r namespace now value) s) other ≡ retry_score s other
  unfolding wake retry_score
  wake_other now value other s ne = elim (Option-cases (unmarshal value)) [
    | inl bad ↦ rw (bad, wake) refl
    | inr (job, good) ↦
        rw (good, wake)
          (zrem_other (retry_key namespace) value other _ ne
            ∙ ap (λ (e : Entry Value). e.zset other) (retry-rpush _ _ s))
  ]

  wake_gone :
      (now : ℕ) (value other : Value) (s : Store)
      → retry_score s other ≡ none
      → retry_score (apply_all apply (wake r namespace now value) s) other ≡ none
  unfolding wake retry_score
  wake_gone now value other s gone = elim (Option-cases (unmarshal value)) [
    | inl bad ↦ rw (bad, wake) gone
    | inr (job, good) ↦
        rw (good, wake)
          (zrem_gone (retry_key namespace) value other _
            (ap (λ (e : Entry Value). e.zset other) (retry-rpush _ _ s) ∙ gone))
  ]

  wake_self :
      (now : ℕ) (value : Value) (s : Store) {job : Job}
      → unmarshal value ≡ some job
      → retry_score (apply_all apply (wake r namespace now value) s) value ≡ none
  unfolding wake retry_score
  wake_self now value s good = rw (good, wake) (zrem_self (retry_key namespace) value _)

  wake_all_other :
      (now : ℕ) (values : List Value) (other : Value) (s : Store)
      → ¬ In other values
      → retry_score (apply_all apply (wake_all r namespace now values) s) other
        ≡ retry_score s other
  unfolding wake_all
  wake_all_other now [] other s out = refl
  wake_all_other now (value ∷ values) other s out = rw (apply_all-append apply) (
      wake_all_other now values other _ (λ i. out (inr i))
      ∙ wake_other now value other s (λ e. out (inl (sym e))))

  wake_all_gone :
      (now : ℕ) (values : List Value) (other : Value) (s : Store)
      → retry_score s other ≡ none
      → retry_score (apply_all apply (wake_all r namespace now values) s) other ≡ none
  unfolding wake_all
  wake_all_gone now [] other s gone = gone
  wake_all_gone now (value ∷ values) other s gone =
      rw (apply_all-append apply)
        (wake_all_gone now values other _ (wake_gone now value other s gone))

  wake_all_member :
      (now : ℕ) (values : List Value) (member : Value) (s : Store) {job : Job}
      → unmarshal member ≡ some job
      → In member values
      → retry_score (apply_all apply (wake_all r namespace now values) s) member ≡ none
  unfolding wake_all
  wake_all_member now [] member s good i = elim i [ ]
  wake_all_member now (value ∷ values) member s good (inl e) = rw (apply_all-append apply) (
      wake_all_gone now values member _ (
        subst (λ v. retry_score (apply_all apply (wake r namespace now v) s) member ≡ none) e
          (wake_self now member s good)))
  wake_all_member now (value ∷ values) member s good (inr i) =
      rw (apply_all-append apply) (wake_all_member now values member _ good i)

  -- The store after a round in which every command succeeds.
  woken_store :
      (now : ℕ) (s : Store) (values : List Value)
      → zrange_by_score (retry_key namespace) (unix now) s ≡ some values
      → (process_retry_jobs r namespace now s).1 ≡ none
      → (process_retry_jobs r namespace now s).0
        ≡ apply_all apply (wake_all r namespace now values) s
  unfolding process_retry_jobs
  woken_store now s [] due sent = rw (due, process_retry_jobs) (unfold wake_all in refl)
  woken_store now s (value ∷ values) due sent =
      rw (due, process_retry_jobs)
        (exec_ok _ s (outcome-eq-none _ (rw (due, process_retry_jobs) at sent)))

  -- When `ProcessRetryJobs` returns nil, each ready list has grown at its end by the due jobs of its
  -- priority, in their order, with the priority that their aged score gives; texts that are no job are
  -- passed over.
  pub process_retry_jobs-ready :
      (now : ℕ) (s : Store) (values : List Value) (p : PriorityStatus)
      → zrange_by_score (retry_key namespace) (unix now) s ≡ some values
      → (process_retry_jobs r namespace now s).1 ≡ none
      → ready_list r namespace (process_retry_jobs r namespace now s).0 p
        ≡ ready_list r namespace s p ++ adds_all now p values
  process_retry_jobs-ready now s values p due sent =
      rw (woken_store now s values due sent) (ready_list-wake_all now p values s)

  -- When `ProcessRetryJobs` returns nil, a job of the retry set that was due has left it, and one that was
  -- not due has its old score.
  pub process_retry_jobs-retry :
      (now : ℕ) (s : Store) (member : Value) (job : Job) (m : ℕ)
      → (entry s (retry_key namespace)).zset member ≡ some m
      → unmarshal member ≡ some job
      → (process_retry_jobs r namespace now s).1 ≡ none
      → ((m ≤ unix now)
          × ((entry (process_retry_jobs r namespace now s).0 (retry_key namespace)).zset member
              ≡ none))
        ⊎ ((unix now < m)
            × ((entry (process_retry_jobs r namespace now s).0 (retry_key namespace)).zset member
                ≡ some m))
  unfolding retry_score process_retry_jobs
  process_retry_jobs-retry now s member job m scored good sent =
      elim (Option-cases (zrange_by_score (retry_key namespace) (unix now) s)) [
        | inl down ↦ cc (rw (down, process_retry_jobs) at sent)
        | inr (values, due) ↦ rw (woken_store now s values due sent) (elim (dec_lt (unix now) m) [
          | yes late ↦ inr (
            late,
            wake_all_other now values member s
                  (λ i. early_is_not_due late ((zrange_in _ _ s values member due).0 i))
                ∙ scored,
          )
          | no soon ↦
              let reached : m ≤ unix now = omega arith in
              inl (
                reached,
                wake_all_member now values member s good
                    ((zrange_in _ _ s values member due).1 (m, scored, reached)),
              )
        ])
      ]
    where
      early_is_not_due :
          unix now < m
          → (k : ℕ) × ((entry s (retry_key namespace)).zset member ≡ some k) × (k ≤ unix now)
          → ⊥
      early_is_not_due late (k, e, l) = ground arith
