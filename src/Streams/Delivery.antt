-- ===== src/Streams/Delivery.antt =====
-- What `GetMsg` returns.
use Prim.Native.String.{String}
use dev_search.Prelude.{
  ℕ, ◌≡◌, ◌≢◌, ◌↔◌, ◌⊎◌, inl, inr, refl, ap, subst, Option, none, some, List, [], ◌∷◌, ◌++◌,
  Option-cases,
}
use dev_search.Redis.{In}
use dev_search.Streams.{
  Msg, unmarshal, StreamEntry, StreamServer, decode, decode_all, all_entries, get_msg, read_new,
  read_again,
}

-- The message that the entry carries, read at now.
abbrev pub Carries : ℕ → StreamEntry → Msg → Type 0
Carries now entry msg =
    (sent : Msg) × (unmarshal entry.body ≡ some sent)
    × (msg ≡ record sent { stream_id = entry.stream_id; last_fetched_at = now })

In-append : {A : Type 0} (a : A) (xs ys : List A) → In a (xs ++ ys) ↔ (In a xs ⊎ In a ys)
In-append {A = A} a xs ys = (split xs, join xs)
  where
    split : (xs : List A) → In a (xs ++ ys) → In a xs ⊎ In a ys
    split [] i = inr i
    split (x ∷ xs) (inl e) = inl (inl e)
    split (x ∷ xs) (inr i) = elim (split xs i) [ inl j ↦ inl (inr j) | inr j ↦ inr j ]

    join : (xs : List A) → In a xs ⊎ In a ys → In a (xs ++ ys)
    join [] (inl i) = elim i [ ]
    join [] (inr i) = i
    join (x ∷ xs) (inl (inl e)) = inl e
    join (x ∷ xs) (inl (inr i)) = inr (join xs (inl i))
    join (x ∷ xs) (inr i) = inr (join xs (inr i))

decode_iff :
    (now : ℕ) (entry : StreamEntry) (msg : Msg) → In msg (decode now entry) ↔ Carries now entry msg
unfolding decode
decode_iff now entry msg = elim (Option-cases (unmarshal entry.body)) [
  | inl bad ↦ rw (bad, decode) (λ i. elim i [ ], λ (sent, e, f). cc)
  | inr (sent, good) ↦
      rw (good, decode)
        ((λ i. elim i [ inl e ↦ (sent, refl, e) | inr j ↦ elim j [ ] ]), λ (other, e, f). inl cc)
]

-- The messages that a call returns are those that the entries of the answer carry, and no entry that
-- carries one is left out.
decode_all_iff :
    (now : ℕ) (entries : List StreamEntry) (msg : Msg)
    → In msg (decode_all now entries)
      ↔ ((entry : StreamEntry) × In entry entries × Carries now entry msg)
unfolding decode_all
decode_all_iff now [] msg = ((λ i. elim i [ ]), λ (entry, i, c). elim i [ ])
decode_all_iff now (entry ∷ entries) msg = (
  (λ i. elim ((In-append msg (decode now entry) (decode_all now entries)).0 i) [
    | inl here ↦ (entry, inl refl, (decode_iff now entry msg).0 here)
    | inr there ↦ let (e, j, c) = (decode_all_iff now entries msg).0 there in (e, inr j, c)
  ]),
  λ (e, i, c). (In-append msg (decode now entry) (decode_all now entries)).1 (elim i [
    | inl same ↦ inl ((decode_iff now entry msg).1 (subst (λ x. Carries now x msg) same c))
    | inr j ↦ inr ((decode_all_iff now entries msg).1 (e, j, c))
  ]),
)

module _ (r : StreamServer) where
  open r use {Store, read_group, pending_answers}

  -- The entries that a call works on: those that the first read answers, if it answers a stream, else those
  -- that the second read answers.
  abbrev pub Answers : String → String → String → Store → List StreamEntry → Type 0
  Answers stream group consumer s entries =
      ((streams : List (List StreamEntry)) × (streams ≢ [])
        × ((read_group stream group consumer ">" s).0 ≡ some streams)
        × (entries ≡ all_entries streams))
      ⊎ ((t : Store) × (read_group stream group consumer ">" s ≡ (some [], t))
          × ((streams : List (List StreamEntry)) × ((read_group stream group consumer "0" t).0
                ≡ some streams)
              × (entries ≡ all_entries streams)))

  by_second :
      (stream group consumer : String) (now : ℕ) (answer : Option (List (List StreamEntry)) × Store)
      (msgs : List Msg)
      → answer.0 ≢ some []
      → (read_again r stream group consumer now answer).0 ≡ some msgs
      → (streams : List (List StreamEntry)) × (msgs ≡ decode_all now (all_entries streams))
        × (answer.0 ≡ some streams)
  unfolding read_again
  by_second stream group consumer now (none, s) msgs full h = cc
  by_second stream group consumer now (some [], s) msgs full h = absurd (full refl)
  by_second stream group consumer now (some (entries ∷ streams), s) msgs full h =
      (entries ∷ streams, cc, refl)

  by_first :
      (stream group consumer : String) (now : ℕ) (s : Store)
      (answer : Option (List (List StreamEntry)) × Store) (msgs : List Msg)
      → read_group stream group consumer ">" s ≡ answer
      → (read_new r stream group consumer now answer).0 ≡ some msgs
      → (entries : List StreamEntry) × (msgs ≡ decode_all now entries)
        × Answers stream group consumer s entries
  unfolding read_new
  by_first stream group consumer now s (none, t) msgs e h = cc
  by_first stream group consumer now s (some [], t) msgs e h =
      let (streams, f, g) =
        by_second stream group consumer now (read_group stream group consumer "0" t) msgs
          (pending_answers stream group consumer t) h in
      (all_entries streams, f, inr (t, e, (streams, g, refl)))
  by_first stream group consumer now s (some (entries ∷ streams), t) msgs e h = (
    all_entries (entries ∷ streams),
    cc,
    inl (
      entries ∷ streams,
      (λ x. cc),
      ap (λ (p : Option (List (List StreamEntry)) × Store). p.0) e,
      refl,
    ),
  )

  -- When `GetMsg` returns messages, they are those that the entries of one answer of the server carry, with
  -- the ID of the entry and the time of the call: new entries, if the first read answers a stream, else the
  -- consumer's pending ones. An entry that carries no message is passed over, and no other entry is. No
  -- call works on claimed entries, since the second read always answers a stream.
  pub get_msg_delivers :
      (stream group consumer : String) (now : ℕ) (s : Store) (msgs : List Msg)
      → (get_msg r stream group consumer now s).0 ≡ some msgs
      → (entries : List StreamEntry) × Answers stream group consumer s entries
        × ((msg : Msg)
            → In msg msgs ↔ ((entry : StreamEntry) × In entry entries × Carries now entry msg))
  unfolding get_msg
  get_msg_delivers stream group consumer now s msgs h =
      let (entries, e, f) =
        by_first stream group consumer now s (read_group stream group consumer ">" s) msgs refl h in
      (entries, f, λ msg. rw (e) (decode_all_iff now entries msg))
