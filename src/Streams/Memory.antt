-- ===== src/Streams/Memory.antt =====
-- A stream server in memory, which shows that what is assumed of one can hold. It has one stream, delivers
-- all that was added since the last call, and has nothing pending.
use Prim.Native.String.{String}
use dev_search.Prelude.{Option, some, [], ◌∷◌, map, inl, inr, refl, true, List, ◌++◌}
use dev_search.Prelude.Text.{string_discrete}
use dev_search.Redis.{In}
use dev_search.Streams.{StreamEntry, Data, StreamServer}

pub record Lists : Type 0 where
  pub added : List Data
  pub unread : List Data
  pub acked : List (String × String × String)

abbrev pub read_unread : List Data → Lists → Option (List (List StreamEntry)) × Lists
read_unread [] s = (some [], s)
read_unread (body ∷ bodies) s = (
  some (map (λ b. record { stream_id = "1-0"; body = b }) (body ∷ bodies) ∷ []),
  record s { unread = [] },
)

abbrev pub lists : StreamServer
lists = record {
  Store = Lists;
  log = λ s stream. s.added;
  Acked = λ s stream group id. In (stream, group, id) s.acked;
  xadd = λ stream body s.
      (record s { added = s.added ++ body ∷ []; unread = s.unread ++ body ∷ [] }, true);
  xack = λ stream group id s. (record s { acked = (stream, group, id) ∷ s.acked }, true);
  read_group = λ stream group consumer id s. elim (string_discrete id ">") [
    | yes e ↦ read_unread s.unread s
    | no ne ↦ (some ([] ∷ []), s)
  ];
  auto_claim = λ stream group consumer s. (some [], s);
  xadd_log = λ stream body s e. refl;
  xadd_keeps = λ stream body s name group id a. a;
  xack_log = λ stream group id name s. refl;
  pending_answers = λ stream group consumer s e. cc;
  xack_keeps = λ stream group id s name other acked a. inr a;
  xack_acked = λ stream group id s e. inl refl;
}
