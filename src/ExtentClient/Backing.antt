-- ===== src/ExtentClient/Backing.antt =====
-- The extent server of extent_server.cc as the other end of the calls of extent_client.cc. Each call runs the
-- server's method; while the calls are ones that the server takes, its disk is known to be sound.
use cse_yet_another_file_sys.Prelude.{
  ℕ, zero, suc, ◌+◌, ◌-◌, ◌%◌, ◌^◌, Bool, true, false, ◌&&◌, ◌==◌, not, leb, ltb, Option, none,
  some, [], ◌∷◌, Outcome, done, exited, fault, length, if◌then◌else◌,
}
use cse_yet_another_file_sys.Bytes.{Bytes}
use cse_yet_another_file_sys.Disk.{BlockManager, inode_num, block_size}
use cse_yet_another_file_sys.Manager.{round_up}
use cse_yet_another_file_sys.Manager.Sound.{IsSound, max_direct}
use cse_yet_another_file_sys.Manager.Allocating.{free_blocks_left}
use cse_yet_another_file_sys.Server.{mask}
use cse_yet_another_file_sys.Server.View.{File, view}

-- What is known of the server after some calls, and how many there were.
pub data Backing : Type 0 where
  known : (s : BlockManager) → IsSound s → ℕ → Backing
  unknown : Option BlockManager → ℕ → Backing

-- A method that does not return leaves no server, and its caller without a reply.
abbrev pub reply_of : {A : Type 0} → A → Outcome (A × BlockManager) → A
reply_of lost (done (a, t)) = a
reply_of lost exited = lost
reply_of lost fault = lost

abbrev pub after_of : {A : Type 0} → Outcome (A × BlockManager) → Option BlockManager
after_of (done (a, t)) = some t
after_of exited = none
after_of fault = none

abbrev pub bytes_in : Option File → Option Bytes
bytes_in none = none
bytes_in (some f) = some f.bytes

-- The ids that `mask` leaves as they are.
abbrev pub contents_of : (ℕ → Option File) → ℕ → Option Bytes
contents_of v id = if ltb id (2 ^ 31) then bytes_in (v id) else none

abbrev pub contents : Backing → ℕ → Option Bytes
contents (known s p n) = contents_of (view s)
contents (unknown o n) = λ id. none

abbrev pub all_bytes : Bytes → Bool
all_bytes [] = true
all_bytes (b ∷ bs) = let rest = all_bytes bs in ltb b 256 && rest

abbrev pub fits_in : BlockManager → Option File → Bytes → Bool
fits_in s none buf = false
fits_in s (some f) buf =
    all_bytes buf
    && (leb (length buf) max_direct
        && leb (round_up (length buf) block_size - round_up (length f.bytes) block_size)
            (free_blocks_left s.using_blocks))

abbrev pub accepts : Backing → ℕ → Bytes → Bool
accepts (known s p n) id buf = fits_in s (view s (mask id)) buf
accepts (unknown o n) id buf = false

-- The first number without a file.
abbrev pub first_free : (ℕ → Option File) → ℕ → ℕ → Option ℕ
first_free v zero j = none
first_free v (suc rounds) j =
    let rest = first_free v rounds (j + 1) in elim (v j) [ none ↦ some j | some f ↦ rest ]

abbrev pub unused : BlockManager → Option ℕ
unused s = first_free (view s) (inode_num - 1) 2

abbrev pub is_there : {A : Type 0} → Option A → Bool
is_there none = false
is_there (some a) = true

abbrev pub has_room : Backing → ℕ → Bool
has_room (known s p n) type = not (type % 2 ^ 16 == 0) && is_there (unused s)
has_room (unknown o n) type = false

-- A call of which nothing is known before.
abbrev pub blind :
    {A : Type 0}
    → A
    → (BlockManager → Outcome (A × BlockManager))
    → Option BlockManager
    → ℕ
    → A × Backing
blind lost m none n = (lost, unknown none (n + 1))
blind lost m (some s) n = (reply_of lost (m s), unknown (after_of (m s)) (n + 1))
