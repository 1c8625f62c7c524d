-- ===== src/ExtentClient/Tests.antt =====
-- The theorems on extent_client.cc over a server that is a map of files.
use cse_yet_another_file_sys.Prelude.{
  ℕ, ◌≡◌, refl, true, false, Bool, Option, none, some, [], ◌∷◌, arith, done, update,
}
use cse_yet_another_file_sys.Bytes.{Bytes}
use cse_yet_another_file_sys.Manager.{Clock}
use cse_yet_another_file_sys.Manager.Calls.{Attr}
use cse_yet_another_file_sys.Server.{Status, FullFile}
use cse_yet_another_file_sys.ExtentClient.{CachedFile, ExtentClient, get, getattr, put}
use cse_yet_another_file_sys.ExtentClient.Interface.{Rpc, IsStore}
use cse_yet_another_file_sys.ExtentClient.Seen.{IsCoherent}
use cse_yet_another_file_sys.ExtentClient.Syncing.{Syncs, sync-Syncs}
use cse_yet_another_file_sys.ExtentClient.Loss.{getattr-put_loses}

abbrev Files : Type 0
Files = ℕ → Option Bytes

abbrev some_attr : Attr
some_attr = record { type = 2; atime = 0; mtime = 0; ctime = 0; size = 0 }

abbrev send : Option Bytes → FullFile → Status × FullFile
send none old = (Status.noent, old)
send (some b) old = (Status.ok, record { attr = some_attr; buf = b })

-- A new file gets number 9.
abbrev map_rpc : Rpc Files
map_rpc = record {
  create = λ type old r. ((Status.ok, 9), update r 9 (some []));
  get = λ id old r. (send (r id) old, r);
  getattr = λ id old r. (send (r id) old, r);
  put = λ id buf r. (Status.ok, update r id (some buf));
  remove = λ id r. (Status.ok, update r id none);
}

abbrev is_free : Option Bytes → Bool
is_free none = true
is_free (some b) = false

is_free-none : (o : Option Bytes) → is_free o ≡ true → o ≡ none
is_free-none none h = refl
is_free-none (some b) h = ground arith

abbrev map_store : IsStore map_rpc
map_store = record {
  contents = λ r. r;
  accepts = λ r id buf. true;
  has_room = λ r type. is_free (r 9);
  get_law = λ id old r b e. (rw e refl, rw e refl, refl);
  getattr_law = λ id old r b e. (rw e refl, rw e refl, refl);
  put_law = λ id buf r b e fits. (refl, refl);
  remove_law = λ id r b e. (refl, refl);
  create_law = λ type old r h. (refl, is_free-none (r 9) h, refl);
}

abbrev old_bytes : Bytes
old_bytes = b'o' ∷ []

abbrev new_bytes : Bytes
new_bytes = b'n' ∷ []

abbrev memory : CachedFile
memory = record {
  type = 0;
  buf = [];
  attr = some_attr;
  buf_valid = false;
  attr_valid = false;
  dirty = false;
}

abbrev clock : Clock
clock k = 1000

abbrev files : Files
files = update (λ id. none) 3 (some old_bytes)

-- Nothing is cached.
abbrev cold : ExtentClient Files
cold = record { cache = λ id. none; server = files }

cold-IsCoherent : IsCoherent map_store cold
cold-IsCoherent id = tt

abbrev dirty_file : CachedFile
dirty_file = record memory { buf = new_bytes; buf_valid = true; dirty = true }

-- File 3 was written.
abbrev warm : ExtentClient Files
warm = record { cache = λ id. some dirty_file; server = λ id. some old_bytes }

warm-IsCoherent : IsCoherent map_store warm
warm-IsCoherent id = record {
  known = (old_bytes, refl);
  clean = λ v d. ground arith;
  kept = λ d. refl;
}

sync-Syncs_example : Syncs map_store warm 3 new_bytes
sync-Syncs_example = sync-Syncs map_store warm 3 new_bytes warm-IsCoherent refl refl

getattr-put_loses_example :
    (t u : ExtentClient Files) × (a : Attr) × (put memory 3 new_bytes clock cold
      ≡ done (Status.ok, t))
    × (getattr map_rpc memory 3 t ≡ done ((Status.ok, a), u))
    × (get map_rpc memory 3 u ≡ done ((Status.ok, old_bytes), u))
getattr-put_loses_example =
    getattr-put_loses map_store memory cold 3 new_bytes old_bytes clock refl refl
