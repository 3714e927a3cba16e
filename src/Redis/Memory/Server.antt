-- ===== src/Redis/Memory/Server.antt =====
-- The server in memory satisfies what is assumed of Redis.
use dev_search.Prelude.{
  ℕ, ◌+◌, ◌≤◌, ◌<◌, ◌≡◌, ◌≢◌, ◌↔◌, ◌⊎◌, inl, inr, refl, sym, ap, ap₂, subst, ◌∙◌, true, false,
  Option, none, some, List, [], ◌∷◌, arith, ltb, if◌then◌else◌, Bool-cases,
}
use dev_search.Redis.{
  Redis, Command, rpush, lpush, set, del, zadd, zrem, key_of, Pop, popped, timed_out, Reply, In,
  apply_all, ServesFirst, AllEmpty,
}
use dev_search.Redis.Memory.{
  same, member, same_refl, same-false, member_iff, Cell, Memory, score_below, score_of, change, run,
  cell_entry, pop_at, pop_first, scored_below, read,
}

module _ {K V : Type 0} (dk : Discrete K) (dv : Discrete V) where
  scored_below_iff :
      (n : ℕ) (c : Cell V) (vs : List V) (v : V)
      → In v (scored_below dk dv n c vs) ↔ (In v vs × (score_below n (c.scores v) ≡ true))
  scored_below_iff n c vs v = (sound vs, λ h. complete vs h.0 h.1)
    where
      kept :
          (w : V) (vs : List V)
          → (In v (scored_below dk dv n c vs) → In v vs × (score_below n (c.scores v) ≡ true))
          → (v ≡ w) ⊎ In v (scored_below dk dv n c vs)
          → score_below n (c.scores w) ≡ true
          → In v (w ∷ vs) × (score_below n (c.scores v) ≡ true)
      kept w vs rest (inl e) low = (inl e, rw (e) low)
      kept w vs rest (inr j) low = let (k, b) = rest j in (inr k, b)

      sound :
          (vs : List V)
          → In v (scored_below dk dv n c vs)
          → In v vs × (score_below n (c.scores v) ≡ true)
      sound [] i = elim i [ ]
      sound (w ∷ vs) i = elim (Bool-cases (score_below n (c.scores w))) [
        | inl low ↦ kept w vs (sound vs) (rw (low) at i) low
        | inr high ↦ let (j, b) = sound vs (rw (high) at i) in (inr j, b)
      ]

      complete :
          (vs : List V)
          → In v vs
          → score_below n (c.scores v) ≡ true
          → In v (scored_below dk dv n c vs)
      complete [] i b = elim i [ ]
      complete (w ∷ vs) (inl e) b = rw (← e, b) (inl refl)
      complete (w ∷ vs) (inr i) b = elim (Bool-cases (score_below n (c.scores w))) [
        | inl low ↦ rw (low) (inr (complete vs i b))
        | inr high ↦ rw (high) (complete vs i b)
      ]

  score_below_iff :
      (n : ℕ) (o : Option ℕ) → (score_below n o ≡ true) ↔ ((m : ℕ) × (o ≡ some m) × (m ≤ n))
  score_below_iff n none = (λ h. cc, λ (m, e, l). cc)
  score_below_iff n (some k) = (λ h. (k, refl, ground arith), λ (m, e, l). ground arith)

  pub run_other :
      (c : Command K V) (s : Memory K V) (k : K)
      → key_of c ≢ k
      → (run dk dv c s).cells k ≡ s.cells k
  run_other c s k ne = rw (same-false dk k (key_of c) (λ e. ne (sym e))) refl

  pub run_self :
      (c : Command K V) (s : Memory K V)
      → (run dk dv c s).cells (key_of c) ≡ change dk dv s.now c (s.cells (key_of c))
  run_self c s = rw (same_refl dk (key_of c)) refl

  pop_step :
      (q : K) (qs : List K) (s t : Memory K V) (answer : Pop K V) (l : List V)
      → (s.cells q).list ≡ l
      → pop_first dk dv (q ∷ qs) s ≡ (answer, t)
      → (elim l [ [] ↦ pop_first dk dv qs s | v ∷ vs ↦ (popped q v, pop_at dk dv q s vs) ])
        ≡ (answer, t)
  pop_step q qs s t answer l e h = rw (e, pop_first) at h

  pop_at_self : (q : K) (s : Memory K V) (vs : List V) → ((pop_at dk dv q s vs).cells q).list ≡ vs
  pop_at_self q s vs = rw (same_refl dk q) refl

  pub pop_served :
      (ks : List K) (s t : Memory K V) (k : K) (v : V)
      → pop_first dk dv ks s ≡ (popped k v, t)
      → ServesFirst (λ j. cell_entry dk dv (s.cells j)) (λ j. cell_entry dk dv (t.cells j)) ks k v
  pop_served [] s t k v h = cc
  pop_served (q ∷ qs) s t k v h = by_list (pop_served qs s t k v) (s.cells q).list refl
    where
      by_list :
          (pop_first dk dv qs s ≡ (popped k v, t)
            → ServesFirst
                (λ j. cell_entry dk dv (s.cells j))
                (λ j. cell_entry dk dv (t.cells j))
                qs
                k
                v)
          → (l : List V) → (s.cells q).list ≡ l
          → ServesFirst
              (λ j. cell_entry dk dv (s.cells j))
              (λ j. cell_entry dk dv (t.cells j))
              (q ∷ qs)
              k
              v
      by_list next [] e = inr (e, next (pop_step q qs s t (popped k v) [] e h))
      by_list next (w ∷ ws) e =
          let g = pop_step q qs s t (popped k v) (w ∷ ws) e h in
          let same_key : q ≡ k = cc in
          let same_value : w ≡ v = cc in
          let left : pop_at dk dv q s ws ≡ t = ap (λ (x : Pop K V × Memory K V). x.1) g in
          inl (
            same_key,
            e
                ∙ ap₂ ◌∷◌ same_value
                    (sym (pop_at_self q s ws) ∙ ap (λ (x : Memory K V). (x.cells q).list) left),
          )

  pub pop_other :
      (ks : List K) (s t : Memory K V) (k j : K) (v : V)
      → pop_first dk dv ks s ≡ (popped k v, t)
      → k ≢ j
      → t.cells j ≡ s.cells j
  pop_other [] s t k j v h ne = cc
  pop_other (q ∷ qs) s t k j v h ne =
      by_list (λ g. pop_other qs s t k j v g ne) (s.cells q).list refl
    where
      by_list :
          (pop_first dk dv qs s ≡ (popped k v, t) → t.cells j ≡ s.cells j)
          → (l : List V) → (s.cells q).list ≡ l
          → t.cells j ≡ s.cells j
      by_list next [] e = next (pop_step q qs s t (popped k v) [] e h)
      by_list next (w ∷ ws) e =
          let g = pop_step q qs s t (popped k v) (w ∷ ws) e h in
          let same_key : q ≡ k = cc in
          let left : pop_at dk dv q s ws ≡ t = ap (λ (x : Pop K V × Memory K V). x.1) g in
          let apart : same dk j q ≡ false = same-false dk j q (λ x. ne (sym (x ∙ same_key))) in
          ap (λ (x : Memory K V). x.cells j) (sym left) ∙ rw (apart) refl

  pub pop_empty :
      (ks : List K) (s t : Memory K V)
      → pop_first dk dv ks s ≡ (timed_out, t)
      → AllEmpty (λ j. cell_entry dk dv (s.cells j)) ks
  pop_empty [] s t h = tt
  pop_empty (q ∷ qs) s t h = by_list (pop_empty qs s t) (s.cells q).list refl
    where
      by_list :
          (pop_first dk dv qs s ≡ (timed_out, t) → AllEmpty (λ j. cell_entry dk dv (s.cells j)) qs)
          → (l : List V) → (s.cells q).list ≡ l
          → AllEmpty (λ j. cell_entry dk dv (s.cells j)) (q ∷ qs)
      by_list next [] e = (e, next (pop_step q qs s t timed_out [] e h))
      by_list next (w ∷ ws) e = let g = pop_step q qs s t timed_out (w ∷ ws) e h in cc

  score_of_iff :
      (c : Cell V) (v : V) (m : ℕ)
      → (score_of dk dv c v ≡ some m) ↔ (In v c.members × (c.scores v ≡ some m))
  score_of_iff c v m = (
    (λ h. elim (Bool-cases (member dv v c.members)) [
      | inl yes_in ↦ ((member_iff dv v c.members).0 yes_in, rw (yes_in) at h)
      | inr out ↦ cc (rw (out) at h)
    ]),
    λ (i, e). rw ((member_iff dv v c.members).1 i) e,
  )

  pub read_found :
      (o : Option V) (d : Option ℕ) (now : ℕ) (v : V)
      → read dk dv o d now ≡ Reply.found v
      → o ≡ some v
  read_found none d now v h = cc
  read_found (some w) none now v h = cc
  read_found (some w) (some d) now v h = ground arith

  pub read_before :
      (o : Option V) (d now : ℕ) (v : V) → read dk dv o (some d) now ≡ Reply.found v → now < d
  read_before none d now v h = cc
  read_before (some w) d now v h = ground arith

  pub zrem_none :
      (c : Cell V) (v : V)
      → score_of dk dv (record c { scores = λ w. if same dv w v then none else c.scores w }) v
        ≡ none
  zrem_none c v = rw (same_refl dv v) (elim (Bool-cases (member dv v c.members)) [
    | inl yes_in ↦ rw (yes_in) refl
    | inr out ↦ rw (out) refl
  ])

  pub zrem_keeps :
      (c : Cell V) (v w : V)
      → score_of dk dv c w ≡ none
      → score_of dk dv (record c { scores = λ x. if same dv x v then none else c.scores x }) w
        ≡ none
  zrem_keeps c v w gone = elim (Bool-cases (same dv w v)) [
    | inl e ↦ rw (e) (elim (Bool-cases (member dv w c.members)) [
      | inl yes_in ↦ rw (yes_in) refl
      | inr out ↦ rw (out) refl
    ])
    | inr ne ↦ rw (ne) gone
  ]

  pub due_iff :
      (k : K) (n : ℕ) (s : Memory K V) (v : V) (vs : List V)
      → some (scored_below dk dv n (s.cells k) (s.cells k).members) ≡ some vs
      → In v vs ↔ ((m : ℕ) × (score_of dk dv (s.cells k) v ≡ some m) × (m ≤ n))
  due_iff k n s v vs h =
      let c = s.cells k in
      let due : scored_below dk dv n c c.members ≡ vs = cc in
      (
        (λ i.
            let (here, low) =
              (scored_below_iff n c c.members v).0 (subst (λ l. In v l) (sym due) i) in
            let (m, e, l) = (score_below_iff n (c.scores v)).0 low in
            (m, (score_of_iff c v m).1 (here, e), l)),
        λ (m, e, l).
            let (here, scored) = (score_of_iff c v m).0 e in
            subst (λ l. In v l) due
              ((scored_below_iff n c c.members v).1
                (here, (score_below_iff n (c.scores v)).1 (m, scored, l))),
      )

  pub deadline_set :
      (now ttl : ℕ) → 0 < ttl → (if ltb 0 ttl then some (now + ttl) else none) ≡ some (now + ttl)
  deadline_set now ttl h = ground arith

  -- The server whose commands run dk dv on this memory.
  abbrev pub memory : Redis K V
  memory = record {
    Store = Memory K V;
    entry = λ s k. cell_entry dk dv (s.cells k);
    clock = λ s. s.now;
    apply = run dk dv;
    exec = λ cs s. (apply_all (run dk dv) cs s, true);
    blpop = pop_first dk dv;
    zrange_by_score = λ k n s. some (scored_below dk dv n (s.cells k) (s.cells k).members);
    lrange = λ k s. some (s.cells k).list;
    get = λ k s. read dk dv (s.cells k).text (s.cells k).deadline s.now;
    entry_other = λ c s k ne. ap (cell_entry dk dv) (run_other c s k ne);
    clock_apply = λ c s. refl;
    exec_ok = λ cs s h. refl;
    rpush_list = λ k v s. ap (λ (c : Cell V). c.list) (run_self (rpush k v) s);
    lpush_list = λ k v s. ap (λ (c : Cell V). c.list) (run_self (lpush k v) s);
    zadd_self = λ k n v s.
        ap (λ c. score_of dk dv c v) (run_self (zadd k n v) s) ∙ rw (same_refl dv v) refl;
    zadd_other = λ k n v w s ne.
        ap (λ c. score_of dk dv c w) (run_self (zadd k n v) s)
        ∙ rw (same-false dv w v (λ e. ne (sym e))) refl;
    zrem_self =
        λ k v s. ap (λ c. score_of dk dv c v) (run_self (zrem k v) s) ∙ zrem_none (s.cells k) v;
    zrem_other = λ k v w s ne.
        ap (λ c. score_of dk dv c w) (run_self (zrem k v) s)
        ∙ rw (same-false dv w v (λ e. ne (sym e))) refl;
    zrem_gone = λ k v w s gone.
        ap (λ c. score_of dk dv c w) (run_self (zrem k v) s) ∙ zrem_keeps (s.cells k) v w gone;
    set_text = λ k v ttl s. ap (λ (c : Cell V). c.text) (run_self (set k v ttl) s);
    set_deadline = λ k v ttl s h.
        ap (λ (c : Cell V). c.deadline) (run_self (set k v ttl) s) ∙ deadline_set s.now ttl h;
    del_text = λ k s. ap (λ (c : Cell V). c.text) (run_self (del k) s);
    blpop_served = pop_served;
    blpop_other = λ ks s t k j v h ne. ap (cell_entry dk dv) (pop_other ks s t k j v h ne);
    blpop_empty = pop_empty;
    zrange_in = λ k n s vs v h. due_iff k n s v vs h;
    get_live = λ k s v h. read_found _ _ s.now v h;
    get_before_deadline = λ k s v d h e. read_before (s.cells k).text d s.now v (rw (e) at h);
  }
