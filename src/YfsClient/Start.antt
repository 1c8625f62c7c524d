-- ===== src/YfsClient/Start.antt =====
-- A client of yfs_client.cc over the extent client and an extent server that was just started: its root directory
-- is empty, and nothing is cached.
use cse_yet_another_file_sys.Prelude.{
  sym, suc, refl, update, ◌∷◌, ℕ, ◌≡◌, ap, ap₂, ◌∙◌, true, false, ◌&&◌, none, some, [], arith,
  Option,
}
use cse_yet_another_file_sys.Manager.Calls.{t_dir, t_file}
use cse_yet_another_file_sys.Server.View.{view}
use cse_yet_another_file_sys.Server.Sample.{zeros, zeros-IsInode, clock, fresh, fresh-IsSound, root}
use cse_yet_another_file_sys.Server.Start.{view-root, view-unused}
use cse_yet_another_file_sys.ExtentClient.{CachedFile}
use cse_yet_another_file_sys.ExtentClient.Interface.{Rpc, IsStore, IsTyped}
use cse_yet_another_file_sys.ExtentClient.Backing.{Backing, known, is_there, bytes_in, first_free}
use cse_yet_another_file_sys.ExtentClient.Known.{first_free_here}
use cse_yet_another_file_sys.ExtentClient.Backed.{extent_rpc, extent_store, stored_contents}
use cse_yet_another_file_sys.ExtentClient.Seen.{changed-IsCoherent}
use cse_yet_another_file_sys.ExtentClient.Tidy.{changed-AllTidy}
use cse_yet_another_file_sys.ExtentClient.Typed.{extent_typed, stored_types, type_in}
use cse_yet_another_file_sys.YfsClient.{Extents, Yfs}
use cse_yet_another_file_sys.YfsClient.Dirs.{no_entry, one_entry}
use cse_yet_another_file_sys.YfsClient.Files.{IsFileStore}
use cse_yet_another_file_sys.YfsClient.Listing.{HasDir}
use cse_yet_another_file_sys.YfsClient.Sample.{stack, stack_size, entry, entry-IsDirent, listing}
use cse_yet_another_file_sys.YfsClient.Session.{Session, client_extents}
use cse_yet_another_file_sys.YfsClient.Cached.{
  with_type, client_files, client_files-IsValid, client_files-file, client_files-has_room,
}

abbrev memory : ℕ → CachedFile
memory n = record {
  type = 7;
  buf = [];
  attr = record { type = 7; atime = 7; mtime = 7; ctime = 7; size = 7 };
  buf_valid = false;
  attr_valid = false;
  dirty = false;
}

abbrev rpc : Rpc Backing
rpc = extent_rpc (λ n. clock)

abbrev pub server_extents : Extents (Session Backing)
server_extents = client_extents rpc memory (λ n. clock)

abbrev pub server_files : IsFileStore server_extents
server_files =
    client_files (extent_store (λ n. clock)) (extent_typed (λ n. clock)) memory (λ n. clock)

abbrev pub started : Yfs (Session Backing)
started = record {
  extents = record {
    client = record { cache = λ id. none; server = known fresh fresh-IsSound 0 };
    calls = 0;
  };
  events = [];
}

abbrev store : IsStore rpc
store = extent_store (λ n. clock)

abbrev typed : IsTyped store
typed = extent_typed (λ n. clock)

unused_two : first_free (view fresh) (suc 1022) 2 ≡ some 2
unused_two =
    first_free_here (view fresh) 1022 2
      (view-unused zeros clock zeros-IsInode 2 (omega arith) (omega arith))

pub started-IsValid : server_files.IsValid started.extents
started-IsValid =
    client_files-IsValid store typed memory (λ n. clock) started.extents (λ id. tt, λ id. tt)

contents_root : store.contents started.extents.client.server 1 ≡ some []
contents_root =
    stored_contents (λ n. clock) 1 started.extents.client.server
    ∙ ap bytes_in (view-root zeros clock zeros-IsInode)

typed_root : typed.typed started.extents.client.server 1 ≡ t_dir
typed_root =
    stored_types (λ n. clock) 1 started.extents.client.server
    ∙ ap type_in (view-root zeros clock zeros-IsInode)

pub started_root : server_files.file started.extents 1 ≡ some root
started_root =
    client_files-file store typed memory (λ n. clock) started.extents 1
    ∙ ap₂ with_type contents_root typed_root

pub started_room : server_files.has_room started.extents t_file ≡ true
unfolding extent_store
started_room =
    client_files-has_room store typed memory (λ n. clock) started.extents t_file
    ∙ ap (λ (o : Option ℕ). is_there o && true) unused_two

pub started-HasDir : HasDir server_files started.extents 1 []
started-HasDir = record {
  valid = started-IsValid;
  bytes = [];
  there = started_root;
  entries = no_entry;
  small = omega arith;
}

-- The same after the root directory was written: its new bytes are cached.
abbrev root_entry : CachedFile
root_entry = record (memory 0) {
  buf = listing;
  attr = record { type = t_dir; atime = 7; mtime = 7; ctime = 7; size = 80 };
  buf_valid = true;
  attr_valid = true;
  dirty = true;
}

abbrev pub written : Yfs (Session Backing)
written = record {
  extents = record {
    client = record {
      cache = update (λ id. none) 1 (some root_entry);
      server = started.extents.client.server;
    };
    calls = 0;
  };
  events = [];
}

written-IsValid : server_files.IsValid written.extents
written-IsValid =
    client_files-IsValid store typed memory (λ n. clock) written.extents
      (
        changed-IsCoherent store started.extents.client 1 (some root_entry)
            started.extents.client.server (λ j ne. refl)
            (record {
              known = ([], contents_root);
              clean = λ v d. ground (arith, d);
              kept = λ d. refl;
            })
            (λ id. tt),
        changed-AllTidy typed (memory 0) started.extents.client 1 (some root_entry)
            started.extents.client.server (λ j ne. refl)
            (record { both = λ v. refl; right = λ v. sym typed_root }) (λ id. tt),
      )

pub written-HasDir : HasDir server_files written.extents 1 (entry ∷ [])
written-HasDir = record {
  valid = written-IsValid;
  bytes = listing;
  there =
      client_files-file store typed memory (λ n. clock) written.extents 1
      ∙ ap (with_type (some listing)) typed_root;
  entries = one_entry stack stack_size entry entry-IsDirent no_entry;
  small = omega arith;
}
