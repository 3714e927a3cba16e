-- ===== src/Queue/Memory.antt =====
-- The server in memory for the keys and values of the queues.
use native.Mathlib.Decide.{ℕ_discrete}
use dev_search.Prelude.Text.{string_discrete}
use dev_search.Redis.{Redis}
use dev_search.Redis.Memory.{Memory, empty_cell}
use dev_search.Redis.Memory.Server.{memory}
use dev_search.Queue.{Key, Value}

abbrev pub value_discrete : Discrete Value
value_discrete = hlevel (ℕ_discrete, string_discrete)

abbrev pub key_discrete : Discrete Key
key_discrete = hlevel (string_discrete)

abbrev pub server : Redis Key Value
server = memory key_discrete value_discrete

abbrev pub nothing : Memory Key Value
nothing = record { now = 5000; cells = λ k. empty_cell }
