-- ===== src/Fuse/Tests.antt =====
-- The theorems on fuse.cc over the extent client and an extent server; a session over a map of files.
use cse_yet_another_file_sys.Prelude.{
  some, update, ◌+◌, ◌==◌, ◌≡◌, refl, List, [], ◌∷◌, arith, done, take, drop,
}
use cse_yet_another_file_sys.Manager.Calls.{t_file, t_dir}
use cse_yet_another_file_sys.YfsClient.{Yfs, acquired, released}
use cse_yet_another_file_sys.YfsClient.Sample.{
  Files, map_extents, stack, stack_size, name, entry, content, yfs, found, none_there,
}
use cse_yet_another_file_sys.Server.Sample.{root, hi}
use cse_yet_another_file_sys.ExtentClient.Backing.{Backing}
use cse_yet_another_file_sys.YfsClient.Session.{Session}
use cse_yet_another_file_sys.YfsClient.Start.{
  server_extents, server_files, started, started_root, started_room, started-HasDir, written,
  written-HasDir,
}
use cse_yet_another_file_sys.Fuse.{Stat, Reply, FuseLib, eexist}
use cse_yet_another_file_sys.Fuse.Handlers.{
  fuseserver_create, fuseserver_mkdir, fuseserver_mknod, fuseserver_readdir, fuseserver_getattr,
  fuseserver_read, fuseserver_write,
}
use cse_yet_another_file_sys.Fuse.Sessions.{Request, read_of, serve_all}
use cse_yet_another_file_sys.Fuse.Keeping.{IsPaired}
use cse_yet_another_file_sys.Fuse.Locks.{serve_all-IsPaired}
use cse_yet_another_file_sys.YfsClient.Ranges.{overwritten}
use cse_yet_another_file_sys.Fuse.Writing.{fuseserver_read-fuseserver_write}
use cse_yet_another_file_sys.Fuse.Entries.{Enters, fuseserver_create-Enters, fuseserver-find_entry}
use cse_yet_another_file_sys.Fuse.Reading.{listing, fuseserver_readdir-file}
use cse_yet_another_file_sys.Fuse.Attributes.{mode_of, fuseserver_getattr-file}

-- An entry as two numbers and the name.
abbrev lib : FuseLib
lib = record {
  sets_size = λ n. n == 8;
  dirent_size = λ n. n + 2;
  dirent_bytes = λ name ino off. ino ∷ off ∷ name;
  length_law = λ name ino off. omega arith;
}

fuseserver_create-Enters_example :
    Enters server_files started 1 name [] t_file started-HasDir none_there
      (fuseserver_create server_extents stack 0 1 name)
      Reply.reply_create
fuseserver_create-Enters_example =
    fuseserver_create-Enters server_files started stack stack_size 1 name [] started-HasDir
      (omega arith) (omega arith) 0 none_there started_room

fuseserver-find_entry_example :
    ((z : Yfs (Session Backing)) × (fuseserver_create server_extents stack 0 1 name written
        ≡ done (Reply.reply_err eexist, z))
      × (server_files.file z.extents ≡ server_files.file written.extents))
    × ((z : Yfs (Session Backing)) × (fuseserver_mknod server_extents stack 0 1 name written
          ≡ done (Reply.reply_err eexist, z))
        × (server_files.file z.extents ≡ server_files.file written.extents))
    × ((z : Yfs (Session Backing)) × (fuseserver_mkdir server_extents stack 0 1 name written
          ≡ done (Reply.reply_err eexist, z))
        × (server_files.file z.extents ≡ server_files.file written.extents))
fuseserver-find_entry_example =
    fuseserver-find_entry server_files written stack 1 name 0 5 (entry ∷ []) written-HasDir found

fuseserver_readdir-file_example :
    (z : Yfs (Session Backing)) × (fuseserver_readdir server_extents lib 1 2 1 written
      ≡ done (Reply.reply_buf (take 2 (drop 1 (listing lib 0 (entry ∷ [])))), z))
    × (server_files.file z.extents ≡ server_files.file written.extents)
fuseserver_readdir-file_example =
    fuseserver_readdir-file server_files lib 1 written (entry ∷ []) 2 1 written-HasDir

fuseserver_getattr-file_example :
    (z : Yfs (Session Backing)) × (s : Stat) × (fuseserver_getattr server_extents 1 started
      ≡ done (Reply.reply_attr s, z))
    × (s.st_ino ≡ 1)
    × (s.st_mode ≡ mode_of t_dir)
    × (s.st_nlink ≡ 2)
    × (server_files.file z.extents ≡ server_files.file started.extents)
    × server_files.IsValid z.extents
fuseserver_getattr-file_example =
    fuseserver_getattr-file server_files started 1 root started-HasDir.valid started_root

-- With a hole of ten bytes.
fuseserver_read-fuseserver_write_example :
    (z u : Yfs (Session Backing)) × (fuseserver_write server_extents 1 hi 2 10 started
      ≡ done (Reply.reply_write 12, z))
    × (fuseserver_read server_extents 1 2 10 z ≡ done (Reply.reply_buf hi, u))
    × (server_files.file u.extents
        ≡ update
            (server_files.file started.extents)
            1
            (some (record root { bytes = overwritten [] 10 hi })))
fuseserver_read-fuseserver_write_example =
    fuseserver_read-fuseserver_write server_files started 1 10 hi root started-HasDir.valid
      started_root (omega arith)

abbrev requests : List Request
requests = read_of 5 3 0 ∷ read_of 5 1 1 ∷ []

abbrev after_reads : Yfs Files
after_reads = record yfs { events = released 5 ∷ acquired 5 ∷ released 5 ∷ acquired 5 ∷ [] }

two_reads :
    serve_all map_extents lib requests yfs
    ≡ done (Reply.reply_buf content ∷ Reply.reply_buf (b'l' ∷ []) ∷ [], after_reads)
unfolding serve_all
two_reads = refl

serve_all-IsPaired_example : IsPaired after_reads.events
serve_all-IsPaired_example =
    serve_all-IsPaired map_extents lib requests yfs after_reads
      (Reply.reply_buf content ∷ Reply.reply_buf (b'l' ∷ []) ∷ []) two_reads
      (λ s. absurd s, (λ s. absurd s, tt)) tt
