-- ===== src/YfsClient/Sample.antt =====
-- A small directory, and an extent client that is a map of files, for the tests.
use cse_yet_another_file_sys.Prelude.{
  ℕ, ◌≡◌, refl, Option, none, some, [], ◌∷◌, ◌++◌, arith, done, update, replicate, length,
  length-replicate,
}
use cse_yet_another_file_sys.Bytes.{Bytes}
use cse_yet_another_file_sys.Ids.{same_id, order}
use cse_yet_another_file_sys.Manager.Calls.{Attr, t_dir, t_file}
use cse_yet_another_file_sys.Server.{Status}
use cse_yet_another_file_sys.Server.View.{File}
use cse_yet_another_file_sys.YfsClient.{Extents, Yfs, find_entry}
use cse_yet_another_file_sys.YfsClient.Format.{Dirent, entry_size}
use cse_yet_another_file_sys.YfsClient.Printing.{IsDirent, entry_bytes}

abbrev pub Files : Type 0
Files = ℕ → Option File

abbrev pub attr_of : ℕ → Attr
attr_of type = record { type = type; atime = 0; mtime = 0; ctime = 0; size = 0 }

abbrev pub bytes_of : Option File → Status × Bytes
bytes_of none = (Status.noent, [])
bytes_of (some f) = (Status.ok, f.bytes)

abbrev pub type_of : Option File → Status × Attr
type_of none = (Status.noent, attr_of 0)
type_of (some f) = (Status.ok, attr_of f.type)

abbrev pub with_bytes : Option File → Bytes → Option File
with_bytes none buf = none
with_bytes (some f) buf = some (record f { bytes = buf })

-- A new file gets number 9.
abbrev pub map_extents : Extents Files
map_extents = record {
  create =
      λ type old s. done ((Status.ok, 9), update s 9 (some (record { type = type; bytes = [] })));
  get = λ i s. done (bytes_of (s i), s);
  getattr = λ i s. done (type_of (s i), s);
  put = λ i buf s. done (Status.ok, update s i (with_bytes (s i) buf));
  remove = λ i s. done (Status.ok, update s i none);
}

abbrev pub stack : Bytes
stack = replicate 80 7

pub stack_size : length stack ≡ entry_size
stack_size = length-replicate {A = ℕ} 80 7

abbrev pub name : Bytes
name = b'a' ∷ []

abbrev pub entry : Dirent
entry = record { name = name; inum = 5 }

pub entry-IsDirent : IsDirent entry
entry-IsDirent = record { inum_fits = omega arith; name_fits = omega arith }

abbrev pub listing : Bytes
listing = entry_bytes stack stack_size entry entry-IsDirent ++ []

abbrev pub content : Bytes
content = b'o' ∷ b'l' ∷ b'd' ∷ []

abbrev pub files : Files
files =
    update (update (λ i. none) 5 (some (record { type = t_file; bytes = content }))) 1
      (some (record { type = t_dir; bytes = listing }))

abbrev pub yfs : Yfs Files
yfs = record { extents = files; events = [] }

pub found : find_entry name (entry ∷ []) ≡ some 5
unfolding find_entry same_id order
found = refl

pub none_there : find_entry name [] ≡ none
unfolding find_entry
none_there = refl
