-- ===== src/Program/Boot.antt =====
-- How the two programs start: cmd/scraper/main.go and cmd/indexer/main.go up to the start of the workers.
use Prim.Native.String.{String}
use dev_search.Prelude.{
  ◌≡◌, refl, Bool, true, false, Bool-cases, inl, inr, ◌++◌, map, ℕ, if◌then◌else◌,
}
use dev_search.Scoring.{critical}
use dev_search.Redis.{Redis}
use dev_search.Queue.{Key, Value}
use dev_search.Queue.Ready.{ready_list}
use dev_search.Storage.{ObjectServer, ensure_bucket}
use dev_search.Streams.Setup.{GroupServer, new_msg_stream}
use dev_search.Worker.Twice.{Sends}
use dev_search.Program.{seed_urls, enqueue_seeds}
use dev_search.Program.Seeds.{seed_text, enqueue_seeds_ready}

pub record Servers (G O Q : Type 0) : Type 0 where
  pub groups : G
  pub objects : O
  pub queue : Q

module _ (groups : GroupServer) (obj : ObjectServer) (r : Redis Key Value) where
  abbrev pub Machine : Type 0
  Machine = Servers groups.Store obj.Store r.Store

  -- The stream, the connection to the object store and the bucket, which both programs need; `false` is the end of
  -- the program, by a panic or `log.Fatal`.
  unfoldable pub prepare : Bool → Machine → Bool × Machine
  prepare connects s =
      let (ms, g, made) = new_msg_stream groups "parser" "indexer" s.groups in
      let t : Machine = record s { groups = g } in
      let (o, ready) = ensure_bucket obj t.objects in
      if made
      then (if connects then (ready, record t { objects = o }) else (false, t))
      else (false, t)

  unfoldable pub boot_scraper : (String → String) → (String → ℕ) → Bool → Machine → Bool × Machine
  boot_scraper new_id time connects s =
      let (ready, t) = prepare connects s in
      if ready
      then (true, record t { queue = enqueue_seeds r new_id time seed_urls t.queue })
      else (false, t)

  -- `pool` and `migrated` say that `InitDB` and `RunMigrations` succeed.
  unfoldable pub boot_indexer : Bool → Bool → Bool → Machine → Bool × Machine
  boot_indexer pool migrated connects s =
      if pool then (if migrated then prepare connects s else (false, s)) else (false, s)

  prepare_queue : (connects : Bool) (s : Machine) → (prepare connects s).1.queue ≡ s.queue
  unfolding prepare
  prepare_queue connects s =
      elim (Bool-cases (new_msg_stream groups "parser" "indexer" s.groups).2) [
        | inr bad ↦ rw (bad) refl
        | inl made ↦ elim (Bool-cases connects) [
          | inl okay ↦ rw (made) (rw (okay) refl)
          | inr bad ↦ rw (made) (rw (bad) refl)
        ]
      ]

  prepare_ready :
      (s : Machine)
      → (new_msg_stream groups "parser" "indexer" s.groups).2 ≡ true
      → (ensure_bucket obj s.objects).1 ≡ true
      → (prepare true s).0 ≡ true
  unfolding prepare
  prepare_ready s made bucket = rw (made) (rw (bucket) refl)

  -- When the group is there or could be made, the client of the object store is made and the bucket is there or
  -- could be made, and no pipeline of the queue's server fails, then the scraper starts, and the jobs of all its
  -- seeds stand at the end of the frontier's list of priority critical, in their order.
  pub boot_seeds :
      (new_id : String → String) (time : String → ℕ) (s : Machine)
      → Sends r "frontier"
      → (new_msg_stream groups "parser" "indexer" s.groups).2 ≡ true
      → (ensure_bucket obj s.objects).1 ≡ true
      → ((boot_scraper new_id time true s).0 ≡ true)
        × (ready_list r "frontier" (boot_scraper new_id time true s).1.queue critical
            ≡ ready_list r "frontier" s.queue critical ++ map (seed_text r new_id time) seed_urls)
  unfolding boot_scraper
  boot_seeds new_id time s sends made bucket =
      let ready = prepare_ready s made bucket in
      (
        rw (ready) refl,
        rw (ready)
            (rw (prepare_queue true s) (enqueue_seeds_ready r new_id time seed_urls s.queue sends)),
      )
