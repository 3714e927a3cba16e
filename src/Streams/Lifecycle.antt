-- ===== src/Streams/Lifecycle.antt =====
-- What `CompleteMessage` does with a message.
use Prim.Native.String.{String}
use dev_search.Prelude.{
  ◌+◌, ◌<◌, ◌≤◌, ◌≡◌, ◌⊎◌, inl, inr, refl, subst, false, Bool-cases, Option, none, some, List, [],
  ◌∷◌, ◌++◌, arith, Option-cases, leb,
}
use dev_search.Streams.{
  Msg, dead, Data, max_retries, marshal, StreamServer, StreamError, retry, complete_message,
}

module _ (r : StreamServer) where
  open r use {Store, log, Acked, xadd, xack, xadd_log, xadd_keeps, xack_log, xack_acked}

  -- What is left of a message that failed, and what the stream holds then, if it held l before.
  abbrev Settled : Msg → Msg × Store × Option StreamError → String → List Data → Type 0
  Settled msg after stream l =
      ((msg.retry_count < max_retries)
        × (after.0 ≡ record msg { retry_count = msg.retry_count + 1 })
        × ((body : Data) × (marshal (record msg { retry_count = msg.retry_count + 1 }) ≡ some body)
            × (log after.1 stream ≡ l ++ body ∷ [])))
      ⊎ ((max_retries ≤ msg.retry_count)
          × (after.0 ≡ record msg { retry_count = msg.retry_count + 1; status = dead })
          × (log after.1 stream ≡ l))

  retry_lem :
      (msg : Msg) (stream : String) (t : Store)
      → (retry r stream msg t).2 ≡ none
      → Settled msg (retry r stream msg t) stream (log t stream)
  unfolding retry
  retry_lem msg stream t h = elim (Bool-cases (leb (msg.retry_count + 1) max_retries)) [
    | inl few ↦ elim (Option-cases (marshal (record msg { retry_count = msg.retry_count + 1 }))) [
      | inl bad ↦ cc (rw (few, bad) at h)
      | inr (body, good) ↦ elim (Bool-cases (xadd stream body t).1) [
        | inl okay ↦
            rw (few, good) (inl (ground arith, refl, (body, refl, xadd_log stream body t okay)))
        | inr lost ↦ cc (rw (few, good, lost) at h)
      ]
    ]
    | inr many ↦ rw (many) (inr (ground arith, refl, refl))
  ]

  pub retry-Acked :
      (msg : Msg) (stream name group id : String) (t : Store)
      → Acked t name group id
      → Acked (retry r stream msg t).1 name group id
  unfolding retry
  retry-Acked msg stream name group id t a =
      elim (Bool-cases (leb (msg.retry_count + 1) max_retries)) [
        | inl few ↦
            elim (Option-cases (marshal (record msg { retry_count = msg.retry_count + 1 }))) [
              | inl bad ↦ rw (few, bad) a
              | inr (body, good) ↦ rw (few, good) (xadd_keeps stream body t name group id a)
            ]
        | inr many ↦ rw (many) a
      ]

  -- When `CompleteMessage` returns nil for a message that failed, its entry is acknowledged, and either it
  -- has failed at most five times with this failure, and its text with the new count is the last of the
  -- stream, or nothing is added and it is dead.
  pub complete_message_failure :
      (msg : Msg) (stream group : String) (s : Store)
      → (complete_message r msg false stream group s).2 ≡ none
      → Acked (complete_message r msg false stream group s).1 stream group msg.stream_id
        × (((msg.retry_count < max_retries)
              × ((complete_message r msg false stream group s).0
                  ≡ record msg { retry_count = msg.retry_count + 1 })
              × ((body : Data) × (marshal (record msg { retry_count = msg.retry_count + 1 })
                    ≡ some body)
                  × (log (complete_message r msg false stream group s).1 stream
                      ≡ log s stream ++ body ∷ [])))
            ⊎ ((max_retries ≤ msg.retry_count)
                × ((complete_message r msg false stream group s).0
                    ≡ record msg { retry_count = msg.retry_count + 1; status = dead })
                × (log (complete_message r msg false stream group s).1 stream ≡ log s stream)))
  unfolding complete_message retry
  complete_message_failure msg stream group s h =
      elim (Bool-cases (xack stream group msg.stream_id s).1) [
        | inl okay ↦ rw (okay) (
          retry-Acked msg stream stream group msg.stream_id _
              (xack_acked stream group msg.stream_id s okay),
          subst
              (λ l. Settled msg (retry r stream msg (xack stream group msg.stream_id s).0) stream l)
              (xack_log stream group msg.stream_id stream s)
              (retry_lem msg stream (xack stream group msg.stream_id s).0 (rw (okay) at h)),
        )
        | inr bad ↦ cc (rw (bad) at h)
      ]
