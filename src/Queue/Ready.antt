-- ===== src/Queue/Ready.antt =====
-- What `Enqueue` and `Dequeue` do with the four ready lists.
use Prim.Native.String.{String}
use mathlib.Core.List.{append-nil}
use dev_search.Prelude.{
  subst, ℕ, ◌≡◌, ◌≢◌, ◌⊎◌, inl, inr, refl, sym, ap, ◌∙◌, Bool, true, false, none, some, List, [],
  ◌∷◌, ◌++◌, map, arith, Option-cases, ◌==◌, if◌then◌else◌,
}
use dev_search.Redis.{Redis, Entry, Pop, popped, timed_out, failed, rpush, ServesFirst}
use dev_search.Scoring.{
  PriorityStatus, critical, high, normal, low, since, score_to_priority, apply_aging,
}
use dev_search.Scoring.Priorities.{rank}
use dev_search.Queue.{Job, inflight, Key, ready_key, Value, marshal, unmarshal, wire, got}
use dev_search.Queue.Ops.{prepared, enqueue, deliver, start, dequeue, outcome}

-- The first list that is not empty is that of p, and it begins with value.
abbrev pub FirstAt :
    (PriorityStatus → List Value)
    → List PriorityStatus
    → PriorityStatus
    → Value
    → List Value
    → Type 0
FirstAt ready [] p value rest = ⊥
FirstAt ready (q ∷ qs) p value rest =
    ((q ≡ p) × (ready q ≡ value ∷ rest)) ⊎ ((ready q ≡ []) × FirstAt ready qs p value rest)

FirstAt-list :
    (ready : PriorityStatus → List Value) (qs : List PriorityStatus) (p : PriorityStatus)
    (value : Value) (rest : List Value)
    → FirstAt ready qs p value rest
    → ready p ≡ value ∷ rest
FirstAt-list ready [] p value rest h = elim h [ ]
FirstAt-list ready (q ∷ qs) p value rest (inl (e, l)) = subst (λ x. ready x ≡ value ∷ rest) e l
FirstAt-list ready (q ∷ qs) p value rest (inr (e, h)) = FirstAt-list ready qs p value rest h

unmarshal_of_marshal :
    (job : Job) (value : Value) → marshal job ≡ some value → unmarshal value ≡ some (wire job)
unfolding marshal unmarshal
unmarshal_of_marshal job value h = ground arith

same_job : (a b : Job) → some a ≡ some b → a ≡ b
same_job a b e = cc

pub same_queue : (p q : PriorityStatus) → (p ≡ q) ⊎ ((p ≢ q) × ((rank p == rank q) ≡ false))
same_queue critical critical = inl refl
same_queue high high = inl refl
same_queue normal normal = inl refl
same_queue low low = inl refl
same_queue _ _ = inr ((λ e. cc), refl)

-- The priority that `Enqueue` chooses.
pub queue_of : ℕ → Job → PriorityStatus
queue_of now job = score_to_priority (
    if job.last_enqueued_at == 0
    then job.base_score
    else apply_aging job.base_score (since now job.last_enqueued_at))

prepared-priority : (now : ℕ) (job : Job) → (prepared now job).priority ≡ some (queue_of now job)
unfolding prepared queue_of
prepared-priority now job = refl

outcome-eq-none : (okay : Bool) → outcome okay ≡ none → okay ≡ true
outcome-eq-none okay h = ground arith

module _ (r : Redis Key Value) (namespace : String) where
  open r use {Store, entry, apply, exec, blpop, exec_ok, rpush_list, entry_other, blpop_served}

  -- The ready list of a priority.
  abbrev pub ready_list : Store → PriorityStatus → List Value
  ready_list s p = (entry s (ready_key namespace (some p))).list

  -- A push on one ready list, seen from each of them.
  pub ready_list-rpush :
      (q p : PriorityStatus) (value : Value) (s : Store)
      → ready_list (apply (rpush (ready_key namespace (some q)) value) s) p
        ≡ ready_list s p ++ (if rank q == rank p then value ∷ [] else [])
  ready_list-rpush q p value s = elim (same_queue q p) [
    | inl e ↦ rw (← e) (
        rpush_list (ready_key namespace (some q)) value s
        ∙ ap (λ l. ready_list s q ++ l) (ground arith))
    | inr (ne, f) ↦ rw f (
        ap (λ (e : Entry Value). e.list)
          (entry_other (rpush (ready_key namespace (some q)) value) s (ready_key namespace (some p))
            (λ e. ne cc))
        ∙ sym (append-nil (ready_list s p)))
  ]

  push_one :
      (q p : PriorityStatus) (value : Value) (s : Store)
      → (exec (rpush (ready_key namespace (some q)) value ∷ []) s).1 ≡ true
      → ready_list (exec (rpush (ready_key namespace (some q)) value ∷ []) s).0 p
        ≡ ready_list s p ++ (if rank q == rank p then value ∷ [] else [])
  push_one q p value s sent = rw (exec_ok _ s sent) (ready_list-rpush q p value s)

  enqueue_sends :
      (now : ℕ) (job : Job) (s : Store) {value : Value}
      → marshal (prepared now job) ≡ some value
      → enqueue r namespace now job s ≡ (
        prepared now job,
        (exec (rpush (ready_key namespace (some (queue_of now job))) value ∷ []) s).0,
        outcome (exec (rpush (ready_key namespace (some (queue_of now job))) value ∷ []) s).1,
      )
  unfolding enqueue
  enqueue_sends now job s good = rw (good, enqueue) (rw prepared-priority refl)

  -- When `Enqueue` returns nil, the job's text stands at the end of the ready list of its new priority, and
  -- the ready lists of the other priorities are as before.
  pub enqueue_appends :
      (now : ℕ) (job : Job) (s : Store) (p : PriorityStatus)
      → (enqueue r namespace now job s).2 ≡ none
      → (q : PriorityStatus) × (value : Value) × ((enqueue r namespace now job s).0.priority
          ≡ some q)
        × (marshal (enqueue r namespace now job s).0 ≡ some value)
        × (ready_list (enqueue r namespace now job s).1 p
            ≡ ready_list s p ++ (if rank q == rank p then value ∷ [] else []))
  unfolding enqueue
  enqueue_appends now job s p h = elim (Option-cases (marshal (prepared now job))) [
    | inl bad ↦ cc (rw (bad, enqueue) at h)
    | inr (value, good) ↦
        let sends = enqueue_sends now job s good in
        rw sends (
          queue_of now job,
          value,
          prepared-priority now job,
          good,
          push_one (queue_of now job) p value s (outcome-eq-none _ (rw sends at h)),
        )
  ]

  own_rank : (p : PriorityStatus) → (rank p == rank p) ≡ true
  own_rank p = ground arith

  at_end :
      (q p : PriorityStatus) (value pushed : Value) (before after : List Value)
      → some p ≡ some q
      → some pushed ≡ some value
      → after ≡ before ++ (if rank q == rank p then value ∷ [] else [])
      → after ≡ before ++ (pushed ∷ [])
  at_end q p value pushed before after chosen text ends =
      let e : q ≡ p = cc in let f : value ≡ pushed = cc in rw (own_rank p) at (rw (e, f) at ends)

  -- The same for a priority and a text that are known.
  pub enqueue_ready :
      (now : ℕ) (job : Job) (s : Store) (p : PriorityStatus) (pushed : Value)
      → (enqueue r namespace now job s).2 ≡ none
      → (enqueue r namespace now job s).0.priority ≡ some p
      → marshal (enqueue r namespace now job s).0 ≡ some pushed
      → ready_list (enqueue r namespace now job s).1 p ≡ ready_list s p ++ (pushed ∷ [])
  enqueue_ready now job s p pushed sent first text =
      let (q, value, chosen, good, ends) = enqueue_appends now job s p sent in
      at_end q p value pushed _ _ (sym first ∙ chosen) (sym text ∙ good) ends

  served_first :
      (s t : Store) (queues : List PriorityStatus) (key : Key) (value : Value)
      → ServesFirst (entry s) (entry t) (map (λ p. ready_key namespace (some p)) queues) key value
      → (p : PriorityStatus) × (key ≡ ready_key namespace (some p))
        × FirstAt (ready_list s) queues p value (ready_list t p)
  served_first s t [] key value h = elim h [ ]
  served_first s t (q ∷ qs) key value (inl (e, l)) = (q, sym e, inl (refl, l))
  served_first s t (q ∷ qs) key value (inr (e, rest)) =
      let (p, k, f) = served_first s t qs key value rest in (p, k, inr (e, f))

  -- What a delivered job is.
  abbrev Delivered : Store → List PriorityStatus → ℕ → Job → Type 0
  Delivered s queues now job =
      (p : PriorityStatus) × (queued : Job) × (value : Value) × (rest : List Value) × FirstAt
        (ready_list s) queues p value rest
      × (unmarshal value ≡ some queued)
      × (job ≡ record queued { status = inflight; visibility_start = now })

  deliver-Delivered :
      (queues : List PriorityStatus) (worker_id : String) (now : ℕ) (s t : Store)
      → (answer : Pop Key Value)
      → blpop (map (λ p. ready_key namespace (some p)) queues) s ≡ (answer, t)
      → (job : Job) → (deliver r namespace worker_id now answer t).0 ≡ got job
      → Delivered s queues now job
  unfolding deliver start
  deliver-Delivered queues worker_id now s t timed_out b job h = cc
  deliver-Delivered queues worker_id now s t failed b job h = cc
  deliver-Delivered queues worker_id now s t (popped key value) b job h =
      let (p, k, first) = served_first s t queues key value (blpop_served _ s t key value b) in
      elim (Option-cases (unmarshal value)) [
        | inl bad ↦ cc (rw (bad, deliver) at h)
        | inr (queued, good) ↦
            (p, queued, value, ready_list t p, first, good, cc (rw (good, deliver) at h))
      ]

  -- When `Dequeue` returns a job, then in the order of the priorities asked for the first ready list that
  -- is not empty begins with the text of that job, and the job is marked as in flight from now on.
  pub dequeue_first :
      (queues : List PriorityStatus) (worker_id : String) (now : ℕ) (s : Store) (job : Job)
      → (dequeue r namespace queues worker_id now s).0 ≡ got job
      → (p : PriorityStatus) × (queued : Job) × (value : Value) × (rest : List Value) × FirstAt
          (ready_list s)
          queues
          p
          value
          rest
        × (unmarshal value ≡ some queued)
        × (job ≡ record queued { status = inflight; visibility_start = now })
  unfolding dequeue
  dequeue_first queues worker_id now s job h =
      deliver-Delivered queues worker_id now s
        (blpop (map (λ p. ready_key namespace (some p)) queues) s).1
        (blpop (map (λ p. ready_key namespace (some p)) queues) s).0 refl job h

  -- On empty ready lists, after a job that `Enqueue` accepts, the job that the next `Dequeue` returns, if it
  -- returns one, is that job, whatever queues it asks for: as it was pushed, with a nil payload turned into
  -- `null`, and in flight.
  pub enqueue-dequeue :
      (queues : List PriorityStatus) (worker_id : String) (now later : ℕ) (s : Store)
      (job taken : Job)
      → ((p : PriorityStatus) → ready_list s p ≡ [])
      → (enqueue r namespace now job s).2 ≡ none
      → (dequeue r namespace queues worker_id later (enqueue r namespace now job s).1).0 ≡ got taken
      → taken ≡ record (wire (enqueue r namespace now job s).0) {
        status = inflight;
        visibility_start = later;
      }
  enqueue-dequeue queues worker_id now later s job taken empty sent received =
      let t = (enqueue r namespace now job s).1 in
      let (p, queued, value, rest, first, good, e) =
        dequeue_first queues worker_id later t taken received in
      let (q, pushed, chosen, text, ends) = enqueue_appends now job s p sent in
      let same : value ≡ pushed =
        ground (arith, FirstAt-list (ready_list t) queues p value rest first, ends, empty p) in
      let back : queued ≡ wire (enqueue r namespace now job s).0 =
        same_job _ _ (sym good ∙ ap unmarshal same ∙ unmarshal_of_marshal _ pushed text) in
      e ∙ ap (λ (j : Job). record j { status = inflight; visibility_start = later }) back
