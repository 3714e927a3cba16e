-- ===== src/Redis/Memory.antt =====
-- A server in memory that no command fails on: it shows that what is assumed of Redis can hold, and runs
-- the tests.
pub mod Server
use dev_search.Prelude.{
  ℕ, ◌+◌, ◌≤◌, ◌<◌, ◌≡◌, ◌≢◌, ◌↔◌, ◌⊎◌, inl, inr, refl, sym, ap, ap₂, subst, ◌∙◌, Bool, true, false,
  not, ◌&&◌, ◌||◌, Option, none, some, List, [], ◌∷◌, ◌++◌, arith, leb, ltb, if◌then◌else◌,
  Bool-cases,
}
use dev_search.Redis.{
  Redis, Command, rpush, lpush, lrem, set, del, expire, zadd, zrem, key_of, Entry, Pop, popped,
  timed_out, failed, Reply, In, apply_all, ServesFirst, AllEmpty,
}

or_true : (b : Bool) → (b || true) ≡ true
or_true true = refl
or_true false = refl

module _ {A : Type 0} (d : Discrete A) where
  abbrev pub same : A → A → Bool
  same a b = elim (d a b) [ yes e ↦ true | no ne ↦ false ]

  abbrev pub member : A → List A → Bool
  member a [] = false
  member a (x ∷ xs) = same a x || member a xs

  abbrev pub remove_first : A → List A → List A
  remove_first a [] = []
  remove_first a (x ∷ xs) = let rest = remove_first a xs in if same a x then xs else x ∷ rest

  pub same_refl : (a : A) → same a a ≡ true
  same_refl a = go (d a a)
    where
      go : (c : Dec (a ≡ a)) → (elim c [ yes e ↦ true | no ne ↦ false ]) ≡ true
      go (yes e) = refl
      go (no ne) = absurd (ne refl)

  pub same_sound : (a b : A) → same a b ≡ true → a ≡ b
  same_sound a b h = go (d a b) h
    where
      go : (c : Dec (a ≡ b)) → (elim c [ yes e ↦ true | no ne ↦ false ]) ≡ true → a ≡ b
      go (yes e) h = e
      go (no ne) h = cc

  pub same-false : (a b : A) → a ≢ b → same a b ≡ false
  same-false a b ne = elim (Bool-cases (same a b)) [
    | inl e ↦ absurd (ne (same_sound a b e))
    | inr e ↦ e
  ]

  pub member_iff : (a : A) (xs : List A) → (member a xs ≡ true) ↔ In a xs
  member_iff a xs = (sound xs, complete xs)
    where
      sound : (xs : List A) → member a xs ≡ true → In a xs
      sound [] h = cc
      sound (x ∷ xs) h = elim (Bool-cases (same a x)) [
        | inl e ↦ inl (same_sound a x e)
        | inr ne ↦ inr (sound xs (rw ne at h))
      ]

      complete : (xs : List A) → In a xs → member a xs ≡ true
      complete [] i = elim i [ ]
      complete (x ∷ xs) (inl e) = rw (← e, same_refl) refl
      complete (x ∷ xs) (inr i) = rw (complete xs i) (or_true (same a x))

-- A key's list, the members that its sorted set has had and their scores, its text and its deadline.
pub record Cell (V : Type 0) : Type 0 where
  pub list : List V
  pub members : List V
  pub scores : V → Option ℕ
  pub text : Option V
  pub deadline : Option ℕ

pub record Memory (K V : Type 0) : Type 0 where
  pub now : ℕ
  pub cells : K → Cell V

abbrev pub score_below : ℕ → Option ℕ → Bool
score_below n none = false
score_below n (some m) = leb m n

module _ {V : Type 0} where
  abbrev pub empty_cell : Cell V
  empty_cell = record { list = []; members = []; scores = λ v. none; text = none; deadline = none }

module _ {K V : Type 0} (dk : Discrete K) (dv : Discrete V) where
  -- A score counts only for a member.
  abbrev pub score_of : Cell V → V → Option ℕ
  score_of c v = if member dv v c.members then c.scores v else none

  abbrev pub change : ℕ → Command K V → Cell V → Cell V
  change now (rpush k v) c = record c { list = c.list ++ v ∷ [] }
  change now (lpush k v) c = record c { list = v ∷ c.list }
  change now (lrem k v) c = record c { list = remove_first dv v c.list }
  change now (set k v ttl) c = record {
    list = [];
    members = [];
    scores = λ v. none;
    text = some v;
    deadline = if ltb 0 ttl then some (now + ttl) else none;
  }
  change now (del k) c = empty_cell
  change now (expire k ttl) c = record c { deadline = some (now + ttl) }
  change now (zadd k n v) c = record c {
    members = v ∷ c.members;
    scores = λ w. if same dv w v then some n else c.scores w;
  }
  change now (zrem k v) c = record c { scores = λ w. if same dv w v then none else c.scores w }

  abbrev pub run : Command K V → Memory K V → Memory K V
  run c s = record s {
    cells = λ k. if same dk k (key_of c) then change s.now c (s.cells k) else s.cells k;
  }

  abbrev pub cell_entry : Cell V → Entry V
  cell_entry c = record { list = c.list; zset = score_of c; text = c.text; deadline = c.deadline }

  abbrev pub pop_at : K → Memory K V → List V → Memory K V
  pop_at k s vs = record s {
    cells = λ j. if same dk j k then record (s.cells j) { list = vs } else s.cells j;
  }

  abbrev pub pop_first : List K → Memory K V → Pop K V × Memory K V
  pop_first [] s = (timed_out, s)
  pop_first (k ∷ ks) s = elim (s.cells k).list [
    | [] ↦ pop_first ks s
    | v ∷ vs ↦ (popped k v, pop_at k s vs)
  ]

  abbrev pub scored_below : ℕ → Cell V → List V → List V
  scored_below n c [] = []
  scored_below n c (v ∷ vs) =
      let rest = scored_below n c vs in if score_below n (c.scores v) then v ∷ rest else rest

  abbrev pub read : Option V → Option ℕ → ℕ → Reply V
  read none d now = Reply.missing
  read (some v) none now = Reply.found v
  read (some v) (some d) now = if ltb now d then Reply.found v else Reply.missing
