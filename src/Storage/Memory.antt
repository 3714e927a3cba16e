-- ===== src/Storage/Memory.antt =====
-- An object store in memory on which no call fails: it shows that what is assumed of one can hold.
use Prim.Native.String.{String}
use native.Mathlib.Decide.{ℕ_discrete}
use dev_search.Prelude.{◌≡◌, ◌≢◌, refl, sym, true, Option, some, if◌then◌else◌}
use dev_search.Prelude.Text.{string_discrete}
use dev_search.Redis.Memory.{same, same_refl, same-false}
use dev_search.Storage.{ObjectKey, ObjectServer}

abbrev pub object_discrete : Discrete ObjectKey
object_discrete = hlevel (ℕ_discrete, string_discrete)

abbrev pub Objects : Type 0
Objects = ObjectKey → Option String

abbrev pub write : ObjectKey → String → Objects → Objects
write k raw s j = if same object_discrete j k then some raw else s j

pub write_self : (k : ObjectKey) (raw : String) (s : Objects) → write k raw s k ≡ some raw
write_self k raw s = rw (same_refl object_discrete k) refl

pub write_other : (k j : ObjectKey) (raw : String) (s : Objects) → k ≢ j → write k raw s j ≡ s j
write_other k j raw s ne = rw (same-false object_discrete j k (λ e. ne (sym e))) refl

abbrev pub objects : ObjectServer
objects = record {
  Store = Objects;
  content = λ s k. s k;
  put = λ k raw content_type s. (write k raw s, true);
  get = λ k s. s k;
  bucket_exists = λ s. some true;
  make_bucket = λ s. (s, true);
  put_content = λ k raw content_type s e. write_self k raw s;
  put_other = λ k j raw content_type s ne. write_other k j raw s ne;
  get_content = λ k s raw e. e;
}
