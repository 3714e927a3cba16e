-- ===== src/Program/Seeds.antt =====
-- What the seeds become.
use Prim.Native.String.{String}
use mathlib.Core.List.{append-nil, append_assoc}
use dev_search.Prelude.{
  ℕ, ◌≡◌, refl, ap, sym, ◌∙◌, arith, Bool, true, none, List, [], ◌∷◌, ◌++◌, map,
}
use dev_search.Prelude.Int.{◌+ℤ◌}
use dev_search.Scoring.{critical, score_to_priority}
use dev_search.Redis.{Redis}
use dev_search.Queue.{Key, Value, job_json, new_job, wire, marshal}
use dev_search.Queue.Ops.{enqueue, prepared, outcome}
use dev_search.Queue.Ready.{ready_list, enqueue_ready}
use dev_search.Worker.Twice.{Sends}
use dev_search.Program.{seed_job, enqueue_seeds}

module _ (r : Redis Key Value) (new_id : String → String) (time : String → ℕ) where
  -- The text that is stored for a seed.
  abbrev pub seed_text : String → Value
  seed_text url = job_json (wire (prepared (time url) (seed_job (new_id url) (time url) url)))

  sent : (okay : Bool) → okay ≡ true → outcome okay ≡ none
  sent okay e = ground arith

  seed_sent :
      (url : String) (s : r.Store)
      → Sends r "frontier"
      → (enqueue r "frontier" (time url) (seed_job (new_id url) (time url) url) s).2 ≡ none
  unfolding enqueue marshal prepared seed_job new_job score_to_priority
  seed_sent url s sends = sent _ (sends _ s)

  seed_ready :
      (url : String) (s : r.Store)
      → Sends r "frontier"
      → ready_list r "frontier"
          (enqueue r "frontier" (time url) (seed_job (new_id url) (time url) url) s).1
          critical
        ≡ ready_list r "frontier" s critical ++ (seed_text url ∷ [])
  unfolding enqueue marshal prepared seed_job new_job score_to_priority ◌+ℤ◌
  seed_ready url s sends =
      enqueue_ready r "frontier" (time url) (seed_job (new_id url) (time url) url) s critical
        (seed_text url) (seed_sent url s sends) refl refl

  -- On a server on which no pipeline fails, the loop over the seeds puts their jobs at the end of the frontier's
  -- list of priority critical, in their order, and leaves nothing out.
  pub enqueue_seeds_ready :
      (urls : List String) (s : r.Store)
      → Sends r "frontier"
      → ready_list r "frontier" (enqueue_seeds r new_id time urls s) critical
        ≡ ready_list r "frontier" s critical ++ map seed_text urls
  unfolding enqueue_seeds
  enqueue_seeds_ready [] s sends = sym (append-nil _)
  enqueue_seeds_ready (url ∷ urls) s sends =
      enqueue_seeds_ready urls
        (enqueue r "frontier" (time url) (seed_job (new_id url) (time url) url) s).1 sends
      ∙ ap (λ (l : List Value). l ++ map seed_text urls) (seed_ready url s sends)
      ∙ append_assoc (ready_list r "frontier" s critical) (seed_text url ∷ []) (map seed_text urls)
