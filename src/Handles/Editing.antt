-- ===== src/Handles/Editing.antt =====
-- The three ways in which handle.cc changes its objects keep each object counting its handles.
use cse_yet_another_file_sys.Prelude.{
  ℕ, ◌+◌, ◌<◌, ◌≤◌, ◌^◌, ◌≡◌, ◌≢◌, inl, inr, refl, ap, sym, ◌∙◌, true, false, ◌==◌, ==_iff,
  Bool-cases, Option, none, some, some_injective, List, ◌∷◌, arith, length, update, update_self,
  update_ne,
}
use cse_yet_another_file_sys.Bytes.{Bytes}
use cse_yet_another_file_sys.Ids.{same_id}
use cse_yet_another_file_sys.Ids.Laws.{same_id_iff, same_id_refl}
use cse_yet_another_file_sys.Handles.{Hinfo, HandleMgr, set_key}
use cse_yet_another_file_sys.Handles.Users.{count}
use cse_yet_another_file_sys.Handles.Counted.{Counts, Named, IsCounted, Counts-at, Named-at}

module _ (s : HandleMgr) (alive : List ℕ) (c : IsCounted s alive) where
  -- Another address, where the object and its handles stay.
  other-Counts :
      (alive' : List ℕ) (t : HandleMgr) (j : ℕ) (o : Option Hinfo)
      → count j alive' ≡ count j alive
      → s.heap j ≡ o
      → s.fresh ≤ t.fresh
      → ((hj : Hinfo) → s.hmap hj.m ≡ some j → t.hmap hj.m ≡ some j)
      → Counts t alive' j o
  other-Counts alive' t j none same e le keeps = same ∙ Counts-at s alive j none c e
  other-Counts alive' t j (some hj) same e le keeps =
      let (leads, counted, below) = Counts-at s alive j (some hj) c e in
      (keeps hj leads, counted ∙ sym same, omega arith)

  module _ (alive' : List ℕ) (few : length alive' < 2 ^ 32) (p : ℕ) (h : Hinfo)
      (here : s.heap p ≡ some h) (others : (j : ℕ) → p ≢ j → count j alive' ≡ count j alive) where
    -- An object is changed in place.
    pub edited :
        (h' : Hinfo)
        → h'.m ≡ h.m
        → h'.refcnt ≡ count p alive'
        → IsCounted (record s { heap = update s.heap p (some h') }) alive'
    edited h' same counted = record {
      counts = counts;
      named = λ m. named m (s.hmap m) refl;
      few = few;
    }
      where
        t : HandleMgr
        t = record s { heap = update s.heap p (some h') }

        counts :
            (j : ℕ)
            → Counts
                (record s { heap = update s.heap p (some h') })
                alive'
                j
                (update s.heap p (some h') j)
        counts j = elim (Bool-cases (p == j)) [
          | inl y ↦
              let e : p ≡ j = (==_iff p j).0 y in
              let (leads, was, below) = Counts-at s alive p (some h) c here in
              rw (← e, update_self s.heap p (some h')) (ap s.hmap same ∙ leads, counted, below)
          | inr n ↦
              let ne : p ≢ j = ground arith in
              rw (update_ne s.heap p j (some h') ne) (
                other-Counts alive' (record s { heap = update s.heap p (some h') }) j (s.heap j)
                  (others j ne) refl (omega arith) (λ hj l. l))
        ]

        named :
            (m : Bytes) (o : Option ℕ)
            → s.hmap m ≡ o
            → Named (record s { heap = update s.heap p (some h') }) m o
        named m none e = tt
        named m (some q) e =
            let (h0, there, name) = Named-at s alive m (some q) c e in
            elim (Bool-cases (p == q)) [
              | inl y ↦
                  let eq : p ≡ q = (==_iff p q).0 y in
                  let same0 : h ≡ h0 = some_injective (sym here ∙ ap s.heap eq ∙ there) in
                  (
                    h',
                    ap (update s.heap p (some h')) (sym eq) ∙ update_self s.heap p (some h'),
                    same ∙ ap (λ (x : Hinfo). x.m) same0 ∙ name,
                  )
              | inr n ↦ (h0, update_ne s.heap p q (some h') (ground arith) ∙ there, name)
            ]

  -- An object that no handle has is erased, with its name.
  pub dropped :
      (m : Bytes) (p : ℕ) (h : Hinfo)
      → s.hmap m ≡ some p
      → s.heap p ≡ some h
      → h.m ≡ m
      → count p alive ≡ 0
      → IsCounted (record s { hmap = set_key s.hmap m none; heap = update s.heap p none }) alive
  dropped m p h leads here name unused = record { counts = counts; named = named; few = c.few }
    where
      t : HandleMgr
      t = record s { hmap = set_key s.hmap m none; heap = update s.heap p none }

      keeps : (j : ℕ) (k : Bytes) → p ≢ j → s.hmap k ≡ some j → set_key s.hmap m none k ≡ some j
      keeps j k ne l = elim (Bool-cases (same_id m k)) [
        | inl y ↦ absurd (ne (some_injective (sym leads ∙ ap s.hmap ((same_id_iff m k).0 y) ∙ l)))
        | inr n ↦ rw n l
      ]

      counts :
          (j : ℕ)
          → Counts
              (record s { hmap = set_key s.hmap m none; heap = update s.heap p none })
              alive
              j
              (update s.heap p none j)
      counts j = elim (Bool-cases (p == j)) [
        | inl y ↦ rw (← (==_iff p j).0 y, update_self s.heap p none) unused
        | inr n ↦
            let ne : p ≢ j = ground arith in
            rw (update_ne s.heap p j none ne) (
              other-Counts alive
                (record s { hmap = set_key s.hmap m none; heap = update s.heap p none }) j
                (s.heap j) refl refl (omega arith) (λ hj l. keeps j hj.m ne l))
      ]

      kept :
          (k : Bytes) (o : Option ℕ)
          → s.hmap k ≡ o
          → same_id m k ≡ false
          → Named (record s { hmap = set_key s.hmap m none; heap = update s.heap p none }) k o
      kept k none e n = tt
      kept k (some q) e n =
          let (h0, there, called) = Named-at s alive k (some q) c e in
          (h0, update_ne s.heap p q none (apart k q h0 there called n) ∙ there, called)
        where
          apart :
              (k : Bytes) (q : ℕ) (h0 : Hinfo)
              → s.heap q ≡ some h0
              → h0.m ≡ k
              → same_id m k ≡ false
              → p ≢ q
          apart k q h0 there called n eq =
              let h≡h0 : h ≡ h0 = some_injective (sym here ∙ ap s.heap eq ∙ there) in
              let m≡k : m ≡ k = sym name ∙ ap (λ (x : Hinfo). x.m) h≡h0 ∙ called in
              let y : same_id m k ≡ true = (same_id_iff m k).1 m≡k in absurd (ground (arith, y, n))

      named :
          (k : Bytes)
          → Named
              (record s { hmap = set_key s.hmap m none; heap = update s.heap p none })
              k
              (set_key s.hmap m none k)
      named k = elim (Bool-cases (same_id m k)) [
        | inl y ↦ rw y tt
        | inr n ↦ rw n (kept k (s.hmap k) refl n)
      ]

  -- An object is made for a name that has none.
  pub made :
      (m : Bytes)
      → s.hmap m ≡ none
      → length alive + 1 < 2 ^ 32
      → IsCounted
          (record {
            hmap = set_key s.hmap m (some s.fresh);
            heap =
                update s.heap s.fresh (some (record { cl = none; refcnt = 1; del = false; m = m }));
            fresh = s.fresh + 1;
          })
          (s.fresh ∷ alive)
  made m free few = record { counts = counts; named = named; few = ground arith }
    where
      new : Hinfo
      new = record { cl = none; refcnt = 1; del = false; m = m }

      t : HandleMgr
      t = record {
        hmap = set_key s.hmap m (some s.fresh);
        heap = update s.heap s.fresh (some new);
        fresh = s.fresh + 1;
      }

      empty : (o : Option Hinfo) → s.heap s.fresh ≡ o → (o ≡ none) × (count s.fresh alive ≡ 0)
      empty none e = (refl, Counts-at s alive s.fresh none c e)
      empty (some h) e = absurd (omega (arith, (Counts-at s alive s.fresh (some h) c e).2))

      own_name : set_key s.hmap m (some s.fresh) m ≡ some s.fresh
      own_name = rw (same_id_refl m) refl

      own_count : 1 ≡ count s.fresh (s.fresh ∷ alive)
      own_count = ground (arith, (empty (s.heap s.fresh) refl).1)

      keeps : (k : Bytes) (j : ℕ) → s.hmap k ≡ some j → set_key s.hmap m (some s.fresh) k ≡ some j
      keeps k j l = elim (Bool-cases (same_id m k)) [
        | inl y ↦
            let e : m ≡ k = (same_id_iff m k).0 y in
            let both : none ≡ some j = sym free ∙ ap s.hmap e ∙ l in absurd (ground (arith, both))
        | inr n ↦ rw n l
      ]

      kept : (k : Bytes) (o : Option ℕ) → s.hmap k ≡ o → Named t k o
      kept k none e = tt
      kept k (some q) e =
          let (h0, there, called) = Named-at s alive k (some q) c e in
          let below : q < s.fresh = (Counts-at s alive q (some h0) c there).2 in
          (h0, update_ne s.heap s.fresh q (some new) (omega arith) ∙ there, called)

      counts : (j : ℕ) → Counts t (s.fresh ∷ alive) j (update s.heap s.fresh (some new) j)
      counts j = elim (Bool-cases (s.fresh == j)) [
        | inl y ↦
            let e : s.fresh ≡ j = (==_iff s.fresh j).0 y in
            rw (← e, update_self s.heap s.fresh (some new)) (own_name, own_count, omega arith)
        | inr n ↦ rw (update_ne s.heap s.fresh j (some new) (ground arith)) (
            other-Counts (s.fresh ∷ alive) t j (s.heap j) (ground arith) refl (omega arith)
              (λ hj l. keeps hj.m j l))
      ]

      named : (k : Bytes) → Named t k (set_key s.hmap m (some s.fresh) k)
      named k = elim (Bool-cases (same_id m k)) [
        | inl y ↦ rw y (new, update_self s.heap s.fresh (some new), (same_id_iff m k).0 y)
        | inr n ↦ rw n (kept k (s.hmap k) refl)
      ]
