-- ===== src/ExtentClient/Typed.antt =====
-- The types of the files of the extent server behind extent_client.cc: what its replies tell, and how its calls
-- change them.
use cse_yet_another_file_sys.Prelude.{
  ℕ, ◌-◌, ◌%◌, ◌^◌, ◌<◌, ◌≡◌, ◌≢◌, refl, ap, sym, ◌∙◌, fun_ext, Bool, true, false, ◌&&◌, ◌==◌, not,
  ltb, Bool-cases, inl, inr, ==_iff, Option, none, some, Outcome, update, update_ne, arith,
  if◌then◌else◌,
}
use cse_yet_another_file_sys.Bytes.{Bytes}
use cse_yet_another_file_sys.Disk.{BlockManager, inode_num}
use cse_yet_another_file_sys.Manager.{Clock}
use cse_yet_another_file_sys.Manager.Calls.{sign_extend}
use cse_yet_another_file_sys.Manager.Sound.{IsSound}
use cse_yet_another_file_sys.Server.{Status, FullFile, mask}
use cse_yet_another_file_sys.Server
use cse_yet_another_file_sys.Server.View.{File, view}
use cse_yet_another_file_sys.Server.Refines.{create-refines, remove-refines}
use cse_yet_another_file_sys.Server.Reads.{get-refines, get_attr-refines}
use cse_yet_another_file_sys.ExtentClient.Interface.{IsTyped}
use cse_yet_another_file_sys.ExtentClient.Backing.{
  Backing, known, unknown, reply_of, bytes_in, contents_of, contents, unused, is_there, first_free,
  has_room,
}
use cse_yet_another_file_sys.ExtentClient.Known.{there, first_free_lem}
use cse_yet_another_file_sys.ExtentClient.Filed.{removes, removes_known, creates, creates_known}
use cse_yet_another_file_sys.ExtentClient.Backed.{
  Sent, sends, sends_known, extent_rpc, extent_store,
}

abbrev pub type_in : Option File → ℕ
type_in none = 0
type_in (some f) = sign_extend f.type

abbrev pub types_of : (ℕ → Option File) → ℕ → ℕ
types_of v id = if ltb id (2 ^ 31) then type_in (v id) else 0

abbrev pub types : Backing → ℕ → ℕ
types (known s p n) = types_of (view s)
types (unknown o n) = λ id. 0

types_of-update :
    (v : ℕ → Option File) (id : ℕ) (o : Option File)
    → id < 2 ^ 31
    → types_of (update v id o) ≡ update (types_of v) id (type_in o)
types_of-update v id o small = fun_ext λ j. elim (Bool-cases (id == j)) [
  | inl y ↦
      let e : id ≡ j = (==_iff id j).0 y in
      let low : ltb j (2 ^ 31) ≡ true = ground (arith, small, e) in rw (y, low) refl
  | inr n ↦ rw n refl
]

-- The type at an id that `mask` leaves.
type_there :
    (v : ℕ → Option File) (id : ℕ) (f : File)
    → mask id ≡ id
    → id < 2 ^ 31
    → v (mask id) ≡ some f
    → types_of v id ≡ sign_extend f.type
type_there v id f same small e =
    let low : ltb id (2 ^ 31) ≡ true = ground (arith, small) in
    rw low (ap (λ i. type_in (v i)) (sym same) ∙ ap type_in e)

-- A type of 15 bits comes back as it is.
kept_type : (type : ℕ) → type < 2 ^ 15 → sign_extend (type % 2 ^ 16) ≡ type
kept_type type h =
    let e : type % 2 ^ 16 ≡ type = omega (arith, h) in
    let low : ltb type (2 ^ 15) ≡ true = ground (arith, h) in rw (e, low) refl

abbrev room_of : (ℕ → Option File) → ℕ → Bool
room_of v type = not (type % 2 ^ 16 == 0) && is_there (first_free v (inode_num - 1) 2)

module _ (clocks : ℕ → Clock) where
  module _ (m : ℕ → Clock → BlockManager → Outcome ((Status × FullFile) × BlockManager))
      (law : Sent m) where
    sends_known-types :
        (s : BlockManager) (p : IsSound s) (n id : ℕ) (old : FullFile) (o : Option File)
        (e : view s (mask id) ≡ o) (b : Bytes)
        → contents_of (view s) id ≡ some b
        → bytes_in o ≡ some b
        → ((sends_known clocks m law s p n id old o e).0.1.attr.type ≡ types_of (view s) id)
          × (types (sends_known clocks m law s p n id old o e).1 ≡ types_of (view s))
          × (has_room (sends_known clocks m law s p n id old o e).1 ≡ room_of (view s))
    unfolding sends_known
    sends_known-types s p n id old none e b h here = absurd (ground (arith, here))
    sends_known-types s p n id old (some f) e b h here =
        let (t, a, sent, sound, same, size, type) = law s id (clocks n) f p e in
        let (masked, _, small) = there (view s) id b h in
        (
          ap (λ r. (reply_of {A = Status × FullFile} (Status.rpcerr, old) r).1.attr.type) sent
              ∙ type
              ∙ sym (type_there (view s) id f masked small e),
          ap types_of same,
          ap room_of same,
        )

    sends-types :
        (id : ℕ) (old : FullFile) (r : Backing) (b : Bytes)
        → contents r id ≡ some b
        → ((sends clocks m law id old r).0.1.attr.type ≡ types r id)
          × (types (sends clocks m law id old r).1 ≡ types r)
          × (has_room (sends clocks m law id old r).1 ≡ has_room r)
    unfolding sends
    sends-types id old (known s p n) b h =
        sends_known-types s p n id old (view s (mask id)) refl b h (there (view s) id b h).1
    sends-types id old (unknown o n) b h = absurd (ground (arith, h))

  removes_known-types :
      (s : BlockManager) (p : IsSound s) (n id : ℕ) (o : Option File) (e : view s (mask id) ≡ o)
      (b : Bytes)
      → contents_of (view s) id ≡ some b
      → bytes_in o ≡ some b
      → (j : ℕ) → id ≢ j
      → types (removes_known clocks s p n id o e).1 j ≡ types_of (view s) j
  unfolding removes_known
  removes_known-types s p n id none e b h here j ne = absurd (ground (arith, here))
  removes_known-types s p n id (some f) e b h here j ne =
      let (t, sent, sound, changed) = remove-refines id f p e in
      let (same, _, small) = there (view s) id b h in
      ap (λ v. types_of v j) (changed ∙ ap (λ i. update (view s) i none) same)
      ∙ ap (λ (m : ℕ → ℕ). m j) (types_of-update (view s) id none small)
      ∙ update_ne (types_of (view s)) id j 0 ne

  removes-types :
      (id : ℕ) (r : Backing) (b : Bytes)
      → contents r id ≡ some b
      → (j : ℕ) → id ≢ j
      → types (removes clocks id r).1 j ≡ types r j
  unfolding removes
  removes-types id (known s p n) b h =
      removes_known-types s p n id (view s (mask id)) refl b h (there (view s) id b h).1
  removes-types id (unknown o n) b h = absurd (ground (arith, h))

  creates_known-types :
      (s : BlockManager) (p : IsSound s) (n type old : ℕ) (k : Bool) (ek : (type % 2 ^ 16 == 0) ≡ k)
      (o : Option ℕ) (eo : unused s ≡ o)
      → (not k && is_there o) ≡ true
      → type < 2 ^ 15
      → ((creates_known clocks s p n type old k ek o eo).0.1 < 2 ^ 64)
        × (types (creates_known clocks s p n type old k ek o eo).1
            ≡ update (types_of (view s)) (creates_known clocks s p n type old k ek o eo).0.1 type)
  unfolding creates_known
  creates_known-types s p n type old true ek o eo h fits = absurd (ground (arith, h))
  creates_known-types s p n type old false ek none eo h fits = absurd (ground (arith, h))
  creates_known-types s p n type old false ek (some j) eo h fits =
      let (lo, hi, empty) = first_free_lem (view s) (inode_num - 1) 2 j eo in
      let (id, t, sent, low, high, new, sound, changed) =
        create-refines type (clocks n) j p (ground (arith, ek)) lo (omega (arith, hi)) empty in
      let number : (reply_of (Status.rpcerr, old) (Server.create type (clocks n) s)).1 ≡ id =
        ap (λ r. (reply_of {A = Status × ℕ} (Status.rpcerr, old) r).1) sent in
      (
        omega (arith, number, high),
        ap types_of changed
            ∙ types_of-update (view s) id _ (omega (arith, high))
            ∙ ap (update (types_of (view s)) id) (kept_type type fits)
            ∙ ap (λ i. update (types_of (view s)) i type) (sym number),
      )

  creates-types :
      (type old : ℕ) (r : Backing)
      → has_room r type ≡ true
      → type < 2 ^ 15
      → ((creates clocks type old r).0.1 < 2 ^ 64)
        × (types (creates clocks type old r).1
            ≡ update (types r) (creates clocks type old r).0.1 type)
  unfolding creates
  creates-types type old (known s p n) h =
      creates_known-types s p n type old (type % 2 ^ 16 == 0) refl (unused s) refl h
  creates-types type old (unknown o n) h = absurd (ground (arith, h))

  pub extent_typed : IsTyped (extent_store clocks)
  unfolding extent_rpc extent_store
  extent_typed = record {
    typed = types;
    get_typed = sends-types Server.get (λ s. get-refines {s = s});
    getattr_typed = sends-types Server.get_attr (λ s. get_attr-refines {s = s});
    remove_typed = removes-types;
    create_typed = creates-types;
  }

  pub stored_types : (id : ℕ) (r : Backing) → extent_typed.typed r id ≡ types r id
  unfolding extent_typed
  stored_types id r = refl
