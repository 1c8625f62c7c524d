-- ===== src/YfsClient/Tests.antt =====
-- The theorems on yfs_client.cc over the extent client and an extent server.
use cse_yet_another_file_sys.Prelude.{
  ◌≢◌, ap, ◌∙◌, sym, Option, update_self, update_ne, ℕ, ◌%◌, ◌/◌, ◌^◌, ◌≡◌, some, [], ◌∷◌, arith,
  done, update, length,
}
use cse_yet_another_file_sys.Bytes.{Bytes}
use cse_yet_another_file_sys.Manager.Calls.{t_file}
use cse_yet_another_file_sys.Server.View.{File}
use cse_yet_another_file_sys.YfsClient.{YfsStatus, Yfs, acquired}
use cse_yet_another_file_sys.YfsClient.Changes.{create, unlink, read, write, symlink}
use cse_yet_another_file_sys.YfsClient.Format.{entry_size, read_entries, write_entries}
use cse_yet_another_file_sys.YfsClient.Dirs.{read_entries-write_entries}
use cse_yet_another_file_sys.YfsClient.Adding.{Adds, new_entry, empty_file, create-Adds}
use cse_yet_another_file_sys.YfsClient.Erasing.{Erases, rmdir-Erases}
use cse_yet_another_file_sys.YfsClient.Ranges.{overwritten}
use cse_yet_another_file_sys.YfsClient.Contents.{ends, write-file, read-write}
use cse_yet_another_file_sys.YfsClient.Locking.{symlink-find_entry}
use cse_yet_another_file_sys.YfsClient.Sample.{
  stack, stack_size, name, entry, entry-IsDirent, files, found, none_there,
}
use cse_yet_another_file_sys.ExtentClient.Backing.{Backing}
use cse_yet_another_file_sys.YfsClient.Session.{Session}
use cse_yet_another_file_sys.YfsClient.Start.{
  server_extents, server_files, started, started_root, started_room, started-HasDir, written,
  written-HasDir,
}

read_entries-write_entries_example :
    (buf : Bytes) × (write_entries (λ k. stack) 0 (entry ∷ []) files ≡ done (buf, files))
    × (read_entries (length buf % 2 ^ 32 / entry_size) buf files ≡ done (entry ∷ [], files))
read_entries-write_entries_example =
    read_entries-write_entries (λ k. stack) (entry ∷ []) files (λ k. stack_size)
      (entry-IsDirent, tt) (omega arith)

create-Adds_example :
    Adds server_files started 1 name [] t_file (create server_extents stack 1 name 0)
create-Adds_example =
    create-Adds server_files started stack stack_size 1 name [] started-HasDir (omega arith)
      (omega arith) 0 none_there started_room

-- A file that was created in the root directory.
abbrev created : Adds server_files started 1 name [] t_file (create server_extents stack 1 name 0)
created =
    create-Adds server_files started stack stack_size 1 name [] started-HasDir (omega arith)
      (omega arith) 0 none_there started_room

abbrev after_create : Yfs (Session Backing)
after_create = record { extents = created.after; events = [] }

not_root : created.inum ≢ 1
not_root e =
    absurd (ground (arith, started_root, ap (server_files.file started.extents) e, created.unused))

created_there : server_files.file after_create.extents created.inum ≡ some (empty_file t_file)
created_there =
    ap (λ (m : ℕ → Option File). m created.inum) created.changed
    ∙ update_ne (update (server_files.file started.extents) created.inum (some (empty_file t_file)))
        1 created.inum _ (λ e. not_root (sym e))
    ∙ update_self (server_files.file started.extents) created.inum _

rmdir-Erases_example :
    Erases server_files after_create 1 created.inum [] (unlink server_extents (λ k. stack) 1 name)
rmdir-Erases_example =
    rmdir-Erases server_files after_create (λ k. stack) 1 [] [] (new_entry name created.inum)
      (empty_file t_file) created.listing (λ k. stack_size) tt created_there not_root

abbrev new_bytes : Bytes
new_bytes = b'n' ∷ []

write-file_example :
    (t : Session Backing) × (write server_extents created.inum 1 10 new_bytes after_create
      ≡ done ((YfsStatus.ok, 11), ends after_create created.inum t))
    × (server_files.file t
        ≡ update
            (server_files.file after_create.extents)
            created.inum
            (some (record { type = t_file; bytes = overwritten [] 10 new_bytes })))
    × server_files.IsValid t
write-file_example =
    write-file server_files after_create created.inum 10 new_bytes (empty_file t_file)
      created.listing.valid created_there (omega arith)

read-write_example :
    (count : ℕ) × (z u : Yfs (Session Backing)) × (write server_extents created.inum 1 10 new_bytes
        after_create
      ≡ done ((YfsStatus.ok, count), z))
    × (read server_extents created.inum 1 10 z ≡ done ((YfsStatus.ok, new_bytes), u))
read-write_example =
    read-write server_files after_create created.inum 10 new_bytes (empty_file t_file)
      created.listing.valid created_there (omega arith)

symlink-find_entry_example :
    (t : Session Backing) × (symlink server_extents stack 1 name new_bytes 0 written
      ≡ done ((YfsStatus.exist, 0), record { extents = t; events = acquired 1 ∷ [] }))
    × (server_files.file t ≡ server_files.file written.extents)
symlink-find_entry_example =
    symlink-find_entry server_files written stack 1 name new_bytes 0 5 (entry ∷ []) written-HasDir
      found
