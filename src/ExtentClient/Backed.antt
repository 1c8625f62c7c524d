-- ===== src/ExtentClient/Backed.antt =====
-- The extent server is the store of files that extent_client.cc relies on.
use cse_yet_another_file_sys.Prelude.{
  ℕ, ◌+◌, ◌≡◌, refl, ap, ◌∙◌, Bool, true, false, Option, none, some, some_injective, Outcome, done,
  length, update, arith,
}
use cse_yet_another_file_sys.Bytes.{Bytes}
use cse_yet_another_file_sys.Disk.{BlockManager}
use cse_yet_another_file_sys.Manager.{Clock}
use cse_yet_another_file_sys.Manager.Calls.{Attr, sign_extend}
use cse_yet_another_file_sys.Manager.Sound.{IsSound}
use cse_yet_another_file_sys.Server.{Status, FullFile, mask}
use cse_yet_another_file_sys.Server
use cse_yet_another_file_sys.Server.View.{File, view}
use cse_yet_another_file_sys.Server.Refines.{put-refines}
use cse_yet_another_file_sys.Server.Reads.{get-refines, get_attr-refines}
use cse_yet_another_file_sys.ExtentClient.Interface.{Rpc, IsStore}
use cse_yet_another_file_sys.ExtentClient.Backing.{
  Backing, known, unknown, reply_of, bytes_in, contents_of, contents, fits_in, accepts, has_room,
  blind,
}
use cse_yet_another_file_sys.ExtentClient.Known.{there, contents_of-update, all_bytes-IsByte}
use cse_yet_another_file_sys.ExtentClient.Filed.{removes, removes_law, creates, creates_law}

-- What a method sends of a file of the view.
abbrev pub Sent : (ℕ → Clock → BlockManager → Outcome ((Status × FullFile) × BlockManager)) → Type 0
Sent m =
    (s : BlockManager) (id : ℕ) (now : Clock) (f : File)
    → IsSound s
    → view s (mask id) ≡ some f
    → (t : BlockManager) × (a : Attr) × (m id now s
        ≡ done ((Status.ok, record { attr = a; buf = f.bytes }), t))
      × IsSound t
      × (view t ≡ view s)
      × (a.size ≡ length f.bytes)
      × (a.type ≡ sign_extend f.type)

module _ (clocks : ℕ → Clock) where
  module _ (m : ℕ → Clock → BlockManager → Outcome ((Status × FullFile) × BlockManager))
      (law : Sent m) where
    unfoldable pub sends_known :
        (s : BlockManager)
        → IsSound s
        → (n id : ℕ) (old : FullFile) (o : Option File) → view s (mask id) ≡ o
        → (Status × FullFile) × Backing
    sends_known s p n id old none e = blind (Status.rpcerr, old) (m id (clocks n)) (some s) n
    sends_known s p n id old (some f) e =
        let (t, a, sent, sound, same, size, type) = law s id (clocks n) f p e in
        (reply_of (Status.rpcerr, old) (m id (clocks n) s), known t sound (n + 1))

    sends_known_lem :
        (s : BlockManager) (p : IsSound s) (n id : ℕ) (old : FullFile) (o : Option File)
        (e : view s (mask id) ≡ o) (b : Bytes)
        → bytes_in o ≡ some b
        → ((sends_known s p n id old o e).0.0 ≡ Status.ok)
          × ((sends_known s p n id old o e).0.1.buf ≡ b)
          × (contents (sends_known s p n id old o e).1 ≡ contents_of (view s))
    unfolding sends_known
    sends_known_lem s p n id old none e b h = absurd (ground (arith, h))
    sends_known_lem s p n id old (some f) e b h =
        let (t, a, sent, sound, same, size, type) = law s id (clocks n) f p e in
        let reply : reply_of (Status.rpcerr, old) (m id (clocks n) s)
            ≡ (Status.ok, record { attr = a; buf = f.bytes }) =
          ap (reply_of (Status.rpcerr, old)) sent in
        (
          ap (λ (r : Status × FullFile). r.0) reply,
          ap (λ (r : Status × FullFile). r.1.buf) reply ∙ some_injective h,
          ap contents_of same,
        )

    unfoldable pub sends : ℕ → FullFile → Backing → (Status × FullFile) × Backing
    sends id old (known s p n) = sends_known s p n id old (view s (mask id)) refl
    sends id old (unknown o n) = blind (Status.rpcerr, old) (m id (clocks n)) o n

    pub sends_law :
        (id : ℕ) (old : FullFile) (r : Backing) (b : Bytes)
        → contents r id ≡ some b
        → ((sends id old r).0.0 ≡ Status.ok)
          × ((sends id old r).0.1.buf ≡ b)
          × (contents (sends id old r).1 ≡ contents r)
    unfolding sends
    sends_law id old (known s p n) b h =
        sends_known_lem s p n id old (view s (mask id)) refl b (there (view s) id b h).1
    sends_law id old (unknown o n) b h = absurd (ground (arith, h))

  puts_known :
      (s : BlockManager)
      → IsSound s
      → (n id : ℕ) (buf : Bytes) (o : Option File) → view s (mask id) ≡ o
      → (k : Bool) → fits_in s o buf ≡ k
      → Status × Backing
  puts_known s p n id buf (some f) e true k =
      let (t, sent, sound, changed) =
        put-refines id buf (clocks n) f p e (all_bytes-IsByte buf (ground (arith, k)))
          (ground (arith, k)) (ground (arith, k)) in
      (reply_of Status.rpcerr (Server.put id buf (clocks n) s), known t sound (n + 1))
  puts_known s p n id buf o e b k = blind Status.rpcerr (Server.put id buf (clocks n)) (some s) n

  puts_known_lem :
      (s : BlockManager) (p : IsSound s) (n id : ℕ) (buf : Bytes) (o : Option File)
      (e : view s (mask id) ≡ o) (k : Bool) (ek : fits_in s o buf ≡ k) (b : Bytes)
      → contents_of (view s) id ≡ some b
      → k ≡ true
      → ((puts_known s p n id buf o e k ek).0 ≡ Status.ok)
        × (contents (puts_known s p n id buf o e k ek).1
            ≡ update (contents_of (view s)) id (some buf))
  unfolding puts_known
  puts_known_lem s p n id buf none e true ek b h fit = absurd (ground (arith, ek))
  puts_known_lem s p n id buf o e false ek b h fit = absurd (ground (arith, fit))
  puts_known_lem s p n id buf (some f) e true ek b h fit =
      let (t, sent, sound, changed) =
        put-refines id buf (clocks n) f p e (all_bytes-IsByte buf (ground (arith, ek)))
          (ground (arith, ek)) (ground (arith, ek)) in
      let (same, here, small) = there (view s) id b h in
      (
        ap (reply_of Status.rpcerr) sent,
        ap contents_of
              (changed ∙ ap (λ i. update (view s) i (some (record f { bytes = buf }))) same)
            ∙ contents_of-update (view s) id (some (record f { bytes = buf })) small,
      )

  pub puts : ℕ → Bytes → Backing → Status × Backing
  puts id buf (known s p n) =
      puts_known s p n id buf (view s (mask id)) refl (fits_in s (view s (mask id)) buf) refl
  puts id buf (unknown o n) = blind Status.rpcerr (Server.put id buf (clocks n)) o n

  pub puts_law :
      (id : ℕ) (buf : Bytes) (r : Backing) (b : Bytes)
      → contents r id ≡ some b
      → accepts r id buf ≡ true
      → ((puts id buf r).0 ≡ Status.ok)
        × (contents (puts id buf r).1 ≡ update (contents r) id (some buf))
  unfolding puts
  puts_law id buf (known s p n) b h fit =
      puts_known_lem s p n id buf (view s (mask id)) refl (fits_in s (view s (mask id)) buf) refl b
        h fit
  puts_law id buf (unknown o n) b h fit = absurd (ground (arith, h))

  unfoldable pub extent_rpc : Rpc Backing
  extent_rpc = record {
    create = creates clocks;
    get = sends Server.get (λ s. get-refines {s = s});
    getattr = sends Server.get_attr (λ s. get_attr-refines {s = s});
    put = puts;
    remove = removes clocks;
  }

  unfoldable pub extent_store : IsStore extent_rpc
  unfolding extent_rpc
  extent_store = record {
    contents = contents;
    accepts = accepts;
    has_room = has_room;
    get_law = sends_law Server.get (λ s. get-refines {s = s});
    getattr_law = sends_law Server.get_attr (λ s. get_attr-refines {s = s});
    put_law = puts_law;
    remove_law = removes_law clocks;
    create_law = creates_law clocks;
  }

  pub stored_contents : (id : ℕ) (r : Backing) → extent_store.contents r id ≡ contents r id
  unfolding extent_store
  stored_contents id r = refl

  pub stored_accepts :
      (id : ℕ) (buf : Bytes) (r : Backing) → extent_store.accepts r id buf ≡ accepts r id buf
  unfolding extent_store
  stored_accepts id buf r = refl
