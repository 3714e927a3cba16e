-- ===== src/Streams/Setup.antt =====
-- `NewMsgStream` of internal/streams/stream.go: the names of a stream and of its group, and the group's
-- creation.
use Prim.Native.String.{String}
use dev_search.Prelude.{◌≡◌, refl, ap, Bool, true, Option, none, some, ◌++◌}
use dev_search.Prelude.Text.{codes, contains_text}
use dev_search.Prelude.Decimal.{text_of}

pub record MsgStream : Type 0 where
  pub namespace : String
  pub stream_name : String
  pub group_name : String

-- A server with consumer groups, and what Redis documents of XGROUP CREATE with MKSTREAM: the answer is the
-- text of an error, if any, and a group that exists is refused by an error that begins with BUSYGROUP. `Other`
-- are the commands that destroy no group and neither delete nor overwrite a stream, as XADD, XREADGROUP and
-- XACK.
pub record GroupServer : Type 1 where
  pub Store : Type 0
  pub HasGroup : Store → String → String → Type 0
  pub xgroup_create_mkstream : String → String → String → Store → Store × Option String
  pub create_makes :
      (stream group from : String) (s : Store)
      → (xgroup_create_mkstream stream group from s).1 ≡ none
      → HasGroup (xgroup_create_mkstream stream group from s).0 stream group
  pub create_refused :
      (stream group from : String) (s : Store)
      → HasGroup s stream group
      → (text : String) × (xgroup_create_mkstream stream group from s ≡ (s, some text))
        × (contains_text (codes text) (codes "BUSYGROUP") ≡ true)
  pub Other : Store → Store → Type 0
  pub other_keeps :
      (s t : Store) (stream group : String)
      → Other s t
      → HasGroup s stream group
      → HasGroup t stream group

-- The formats `%s-events` and `%s-group`.
unfoldable pub names : String → String → MsgStream
names namespace consumer_group = record {
  namespace = namespace;
  stream_name = text_of (codes namespace ++ codes "-events");
  group_name = text_of (codes consumer_group ++ codes "-group");
}

-- Whether the answer is no panic.
unfoldable pub accepted : Option String → Bool
accepted none = true
accepted (some text) = contains_text (codes text) (codes "BUSYGROUP")

module _ (r : GroupServer) where
  open r use {
    Store, HasGroup, xgroup_create_mkstream, create_makes, create_refused, Other, other_keeps,
  }

  -- `false` is a panic.
  unfoldable pub ensure_group : String → String → Store → Store × Bool
  ensure_group stream_name group_name s =
      let (t, err) = xgroup_create_mkstream stream_name group_name "0" s in (t, accepted err)

  unfoldable pub new_msg_stream : String → String → Store → MsgStream × Store × Bool
  new_msg_stream namespace consumer_group s =
      let ms = names namespace consumer_group in
      let (t, okay) = ensure_group ms.stream_name ms.group_name s in (ms, t, okay)

  ensure_group_kept :
      (stream group : String) (s : Store)
      → HasGroup s stream group
      → ensure_group stream group s ≡ (s, true)
  unfolding ensure_group accepted
  ensure_group_kept stream group s has =
      let (text, same, busy) = create_refused stream group "0" s has in
      rw (same, ensure_group) (rw (busy) refl)

  -- The stores that any number of such commands lead to.
  pub data Later (s : Store) : Store → Type 0 where
    at_once : Later s s
    after : {t u : Store} → Later s t → Other t u → Later s u

  later_keeps :
      (s t : Store) (stream group : String)
      → Later s t
      → HasGroup s stream group
      → HasGroup t stream group
  later_keeps s t stream group Later.at_once has = has
  later_keeps s t stream group (Later.after {t = u} run step) has =
      other_keeps u t stream group step (later_keeps s u stream group run has)

  -- When the group of a stream could be made, then after any commands that destroy no group and neither delete nor
  -- overwrite a stream, a `NewMsgStream` of the same names returns the same stream without a panic and changes
  -- nothing.
  pub new_msg_stream_again :
      (namespace consumer_group : String) (s t : Store)
      → (xgroup_create_mkstream
          (names namespace consumer_group).stream_name
          (names namespace consumer_group).group_name
          "0"
          s).1
        ≡ none
      → Later (new_msg_stream namespace consumer_group s).1 t
      → ((new_msg_stream namespace consumer_group s).2 ≡ true)
        × (new_msg_stream namespace consumer_group t ≡ (names namespace consumer_group, t, true))
  unfolding new_msg_stream ensure_group accepted
  new_msg_stream_again namespace consumer_group s t made later =
      let ms = names namespace consumer_group in
      (
        rw (made, accepted) refl,
        ap (λ (x : Store × Bool). (ms, x.0, x.1))
            (ensure_group_kept ms.stream_name ms.group_name t (
              later_keeps _ t ms.stream_name ms.group_name later
                (create_makes ms.stream_name ms.group_name "0" s made))),
      )
