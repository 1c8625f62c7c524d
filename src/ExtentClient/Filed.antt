-- ===== src/ExtentClient/Filed.antt =====
-- The creation and the removal of files by the extent server behind extent_client.cc.
use cse_yet_another_file_sys.Prelude.{
  ℕ, ◌+◌, ◌-◌, ◌%◌, ◌^◌, ◌≡◌, refl, ap, sym, ◌∙◌, Bool, true, false, ◌&&◌, ◌==◌, not, ltb, Option,
  none, some, [], update, arith,
}
use cse_yet_another_file_sys.Bytes.{Bytes}
use cse_yet_another_file_sys.Disk.{BlockManager, inode_num}
use cse_yet_another_file_sys.Manager.{Clock}
use cse_yet_another_file_sys.Manager.Sound.{IsSound}
use cse_yet_another_file_sys.Server.{Status, FullFile, mask}
use cse_yet_another_file_sys.Server
use cse_yet_another_file_sys.Server.View.{File, view}
use cse_yet_another_file_sys.Server.Refines.{create-refines, remove-refines}
use cse_yet_another_file_sys.ExtentClient.Backing.{
  Backing, known, unknown, reply_of, bytes_in, contents_of, contents, unused, is_there, has_room,
  blind,
}
use cse_yet_another_file_sys.ExtentClient.Known.{there, contents_of-update, first_free_lem}

module _ (clocks : ℕ → Clock) where
  unfoldable pub removes_known :
      (s : BlockManager)
      → IsSound s
      → (n id : ℕ) (o : Option File) → view s (mask id) ≡ o
      → Status × Backing
  removes_known s p n id none e = blind Status.rpcerr (Server.remove id) (some s) n
  removes_known s p n id (some f) e =
      let (t, sent, sound, changed) = remove-refines id f p e in
      (reply_of Status.rpcerr (Server.remove id s), known t sound (n + 1))

  removes_known_lem :
      (s : BlockManager) (p : IsSound s) (n id : ℕ) (o : Option File) (e : view s (mask id) ≡ o)
      (b : Bytes)
      → contents_of (view s) id ≡ some b
      → bytes_in o ≡ some b
      → ((removes_known s p n id o e).0 ≡ Status.ok)
        × (contents (removes_known s p n id o e).1 ≡ update (contents_of (view s)) id none)
  unfolding removes_known
  removes_known_lem s p n id none e b h here = absurd (ground (arith, here))
  removes_known_lem s p n id (some f) e b h here =
      let (t, sent, sound, changed) = remove-refines id f p e in
      let (same, _, small) = there (view s) id b h in
      (
        ap (reply_of Status.rpcerr) sent,
        ap contents_of (changed ∙ ap (λ i. update (view s) i none) same)
            ∙ contents_of-update (view s) id none small,
      )

  unfoldable pub removes : ℕ → Backing → Status × Backing
  removes id (known s p n) = removes_known s p n id (view s (mask id)) refl
  removes id (unknown o n) = blind Status.rpcerr (Server.remove id) o n

  pub removes_law :
      (id : ℕ) (r : Backing) (b : Bytes)
      → contents r id ≡ some b
      → ((removes id r).0 ≡ Status.ok) × (contents (removes id r).1 ≡ update (contents r) id none)
  unfolding removes
  removes_law id (known s p n) b h =
      removes_known_lem s p n id (view s (mask id)) refl b h (there (view s) id b h).1
  removes_law id (unknown o n) b h = absurd (ground (arith, h))

  unfoldable pub creates_known :
      (s : BlockManager)
      → IsSound s
      → (n type old : ℕ) (k : Bool) → (type % 2 ^ 16 == 0) ≡ k
      → (o : Option ℕ) → unused s ≡ o
      → (Status × ℕ) × Backing
  creates_known s p n type old false k (some j) free =
      let (lo, hi, empty) = first_free_lem (view s) (inode_num - 1) 2 j free in
      let (id, t, sent, low, high, new, sound, changed) =
        create-refines type (clocks n) j p (ground (arith, k)) lo (omega (arith, hi)) empty in
      (reply_of (Status.rpcerr, old) (Server.create type (clocks n) s), known t sound (n + 1))
  creates_known s p n type old b k o free =
      blind (Status.rpcerr, old) (Server.create type (clocks n)) (some s) n

  creates_known_lem :
      (s : BlockManager) (p : IsSound s) (n type old : ℕ) (k : Bool) (ek : (type % 2 ^ 16 == 0) ≡ k)
      (o : Option ℕ) (eo : unused s ≡ o)
      → (not k && is_there o) ≡ true
      → ((creates_known s p n type old k ek o eo).0.0 ≡ Status.ok)
        × (contents_of (view s) (creates_known s p n type old k ek o eo).0.1 ≡ none)
        × (contents (creates_known s p n type old k ek o eo).1
            ≡ update (contents_of (view s)) (creates_known s p n type old k ek o eo).0.1 (some []))
  unfolding creates_known
  creates_known_lem s p n type old true ek o eo h = absurd (ground (arith, h))
  creates_known_lem s p n type old false ek none eo h = absurd (ground (arith, h))
  creates_known_lem s p n type old false ek (some j) eo h =
      let (lo, hi, empty) = first_free_lem (view s) (inode_num - 1) 2 j eo in
      let (id, t, sent, low, high, new, sound, changed) =
        create-refines type (clocks n) j p (ground (arith, ek)) lo (omega (arith, hi)) empty in
      let reply : reply_of (Status.rpcerr, old) (Server.create type (clocks n) s)
          ≡ (Status.ok, id) =
        ap (reply_of (Status.rpcerr, old)) sent in
      let number : (reply_of (Status.rpcerr, old) (Server.create type (clocks n) s)).1 ≡ id =
        ap (λ (r : Status × ℕ). r.1) reply in
      let small : ltb id (2 ^ 31) ≡ true = ground (arith, high) in
      (
        ap (λ (r : Status × ℕ). r.0) reply,
        ap (contents_of (view s)) number ∙ rw (small, new) refl,
        ap contents_of changed
            ∙ contents_of-update (view s) id (some (record { type = type % 2 ^ 16; bytes = [] }))
                (omega (arith, high))
            ∙ ap (λ i. update (contents_of (view s)) i (some [])) (sym number),
      )

  unfoldable pub creates : ℕ → ℕ → Backing → (Status × ℕ) × Backing
  creates type old (known s p n) =
      creates_known s p n type old (type % 2 ^ 16 == 0) refl (unused s) refl
  creates type old (unknown o n) = blind (Status.rpcerr, old) (Server.create type (clocks n)) o n

  pub creates_law :
      (type old : ℕ) (r : Backing)
      → has_room r type ≡ true
      → ((creates type old r).0.0 ≡ Status.ok)
        × (contents r (creates type old r).0.1 ≡ none)
        × (contents (creates type old r).1 ≡ update (contents r) (creates type old r).0.1 (some []))
  unfolding creates
  creates_law type old (known s p n) h =
      creates_known_lem s p n type old (type % 2 ^ 16 == 0) refl (unused s) refl h
  creates_law type old (unknown o n) h = absurd (ground (arith, h))
