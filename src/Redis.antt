-- ===== src/Redis.antt =====
-- The Redis server, which the program reaches through a client library: the commands it sends, and what
-- Redis documents of them. K is the type of keys, V that of stored values.
pub mod Memory
use dev_search.Prelude.{
  ℕ, ◌+◌, ◌≤◌, ◌<◌, ◌≡◌, ◌≢◌, ◌↔◌, ◌⊎◌, Bool, true, Option, none, some, List, [], ◌∷◌, ◌++◌,
}

pub data Command (K V : Type 0) : Type 0 where
  rpush lpush lrem : K → V → Command K V
  set : K → V → ℕ → Command K V
  del : K → Command K V
  expire : K → ℕ → Command K V
  zadd : K → ℕ → V → Command K V
  zrem : K → V → Command K V

module _ {K V : Type 0} where
  abbrev pub key_of : Command K V → K
  key_of (rpush k v) = k
  key_of (lpush k v) = k
  key_of (lrem k v) = k
  key_of (set k v ttl) = k
  key_of (del k) = k
  key_of (expire k ttl) = k
  key_of (zadd k n v) = k
  key_of (zrem k v) = k

-- What a key holds: a list, a sorted set as the score of each member, or a text, and when it expires.
pub record Entry (V : Type 0) : Type 0 where
  pub list : List V
  pub zset : V → Option ℕ
  pub text : Option V
  pub deadline : Option ℕ

-- The answer to BLPOP.
pub data Pop (K V : Type 0) : Type 0 where
  popped : K → V → Pop K V
  timed_out : Pop K V
  failed : Pop K V

-- The answer to GET.
pub data Reply (V : Type 0) : Type 0 where
  found : V → Reply V
  missing : Reply V
  error : Reply V

abbrev pub In : {A : Type 0} → A → List A → Type 0
In a [] = ⊥
In a (x ∷ xs) = (a ≡ x) ⊎ In a xs

abbrev pub apply_all {ℓ κ} : {C : Type ℓ} {S : Type κ} → (C → S → S) → List C → S → S
apply_all f [] s = s
apply_all f (c ∷ cs) s = apply_all f cs (f c s)

-- The answer is the head of the first of the lists that is not empty, and it is removed there.
abbrev pub ServesFirst : {K V : Type 0} → (K → Entry V) → (K → Entry V) → List K → K → V → Type 0
ServesFirst before after [] k v = ⊥
ServesFirst before after (q ∷ qs) k v =
    ((q ≡ k) × ((before q).list ≡ v ∷ (after q).list))
    ⊎ (((before q).list ≡ []) × ServesFirst before after qs k v)

abbrev pub AllEmpty : {K V : Type 0} → (K → Entry V) → List K → Type 0
AllEmpty before [] = Unit {0}
AllEmpty before (q ∷ qs) = ((before q).list ≡ []) × AllEmpty before qs

-- A server and the connection to it. `apply` is the effect of a command that succeeds; `exec` sends a
-- pipeline, and `true` says that no command of it failed. After a failure nothing is known of the store.
-- Time passes between commands, which is the caller's business: `clock` is the server's time in
-- nanoseconds, and a key that has a deadline is gone from its deadline on.
pub record Redis (K V : Type 0) : Type 1 where
  pub Store : Type 0
  pub entry : Store → K → Entry V
  pub clock : Store → ℕ
  pub apply : Command K V → Store → Store
  pub exec : List (Command K V) → Store → Store × Bool
  pub blpop : List K → Store → Pop K V × Store
  -- ZRANGEBYSCORE key 0 max, LRANGE key 0 -1 and GET; `none` is an error.
  pub zrange_by_score : K → ℕ → Store → Option (List V)
  pub lrange : K → Store → Option (List V)
  pub get : K → Store → Reply V
  -- Each command touches its own key only, and takes no time.
  pub entry_other :
      (c : Command K V) (s : Store) (k : K) → key_of c ≢ k → entry (apply c s) k ≡ entry s k
  pub clock_apply : (c : Command K V) (s : Store) → clock (apply c s) ≡ clock s
  pub exec_ok :
      (cs : List (Command K V)) (s : Store)
      → (exec cs s).1 ≡ true
      → (exec cs s).0 ≡ apply_all apply cs s
  pub rpush_list :
      (k : K) (v : V) (s : Store)
      → (entry (apply (rpush k v) s) k).list ≡ (entry s k).list ++ v ∷ []
  pub lpush_list :
      (k : K) (v : V) (s : Store) → (entry (apply (lpush k v) s) k).list ≡ v ∷ (entry s k).list
  pub zadd_self :
      (k : K) (n : ℕ) (v : V) (s : Store) → (entry (apply (zadd k n v) s) k).zset v ≡ some n
  pub zadd_other :
      (k : K) (n : ℕ) (v w : V) (s : Store)
      → v ≢ w
      → (entry (apply (zadd k n v) s) k).zset w ≡ (entry s k).zset w
  pub zrem_self : (k : K) (v : V) (s : Store) → (entry (apply (zrem k v) s) k).zset v ≡ none
  pub zrem_other :
      (k : K) (v w : V) (s : Store)
      → v ≢ w
      → (entry (apply (zrem k v) s) k).zset w ≡ (entry s k).zset w
  pub zrem_gone :
      (k : K) (v w : V) (s : Store)
      → (entry s k).zset w ≡ none
      → (entry (apply (zrem k v) s) k).zset w ≡ none
  pub set_text :
      (k : K) (v : V) (ttl : ℕ) (s : Store) → (entry (apply (set k v ttl) s) k).text ≡ some v
  pub set_deadline :
      (k : K) (v : V) (ttl : ℕ) (s : Store)
      → 0 < ttl
      → (entry (apply (set k v ttl) s) k).deadline ≡ some (clock s + ttl)
  pub del_text : (k : K) (s : Store) → (entry (apply (del k) s) k).text ≡ none
  pub blpop_served :
      (ks : List K) (s t : Store) (k : K) (v : V)
      → blpop ks s ≡ (popped k v, t)
      → ServesFirst (entry s) (entry t) ks k v
  pub blpop_other :
      (ks : List K) (s t : Store) (k j : K) (v : V)
      → blpop ks s ≡ (popped k v, t)
      → k ≢ j
      → entry t j ≡ entry s j
  pub blpop_empty :
      (ks : List K) (s t : Store) → blpop ks s ≡ (timed_out, t) → AllEmpty (entry s) ks
  pub zrange_in :
      (k : K) (n : ℕ) (s : Store) (vs : List V) (v : V)
      → zrange_by_score k n s ≡ some vs
      → In v vs ↔ ((m : ℕ) × ((entry s k).zset v ≡ some m) × (m ≤ n))
  pub get_live : (k : K) (s : Store) (v : V) → get k s ≡ found v → ((entry s k).text ≡ some v)
  pub get_before_deadline :
      (k : K) (s : Store) (v : V) (d : ℕ)
      → get k s ≡ found v
      → (entry s k).deadline ≡ some d
      → clock s < d
