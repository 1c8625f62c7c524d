-- ===== src/LockServer/Threads.antt =====
-- The calls of lock_server.cc, interleaved in any order: no lock has two owners.
use cse_yet_another_file_sys.Prelude.{
  ℕ, ◌≡◌, ◌≢◌, refl, ap, sym, ◌∙◌, subst, Bool, true, false, Option, none, some, arith, inl, inr,
  ◌⊎◌, Bool-cases, ◌==◌, update, update_same, done_injective, Outcome, done,
}
use cse_yet_another_file_sys.LockServer.{
  LockTable, Progress, lock_table_init, lock, unlock, acquire_enter, acquire_wake, release,
}
use cse_yet_another_file_sys.LockServer.Safety.{
  Stage, after, IsSafe, granted-IsSafe, asleep-IsSafe, released-IsSafe,
}

pub record System : Type 0 where
  pub table : LockTable
  pub stage : ℕ → ℕ → Stage

abbrev pub with_stage : System → ℕ → ℕ → Stage → ℕ → ℕ → Stage
with_stage s lid c p = update s.stage lid (update (s.stage lid) c p)

pub data Step (s : System) : System → Type 0 where
  enter :
      (lid c : ℕ) {p : Progress} {t : LockTable}
      → s.stage lid c ≡ Stage.idle
      → acquire_enter lid s.table ≡ done (p, t)
      → Step s (record { table = t; stage = with_stage s lid c (after p) })
  wake :
      (lid c : ℕ) {p : Progress} {t : LockTable}
      → s.stage lid c ≡ Stage.asleep
      → acquire_wake lid s.table ≡ done (p, t)
      → Step s (record { table = t; stage = with_stage s lid c (after p) })
  give_back :
      (lid c : ℕ) {t : LockTable}
      → s.stage lid c ≡ Stage.owner
      → release lid s.table ≡ done (tt, t)
      → Step s (record { table = t; stage = with_stage s lid c Stage.idle })

abbrev pub start : System
start = record { table = lock_table_init; stage = λ lid c. Stage.idle }

pub data Reach : System → Type 0 where
  begin : Reach start
  next : {s t : System} → Reach s → Step s t → Reach t

is_locked : (o : Option Bool) → (o ≡ some true) ⊎ (o ≢ some true)
is_locked none = inr (λ e. ground (arith, e))
is_locked (some true) = inl refl
is_locked (some false) = inr (λ e. ground (arith, e))

enter_waits :
    (lid : ℕ) (s : LockTable)
    → s.locked lid ≡ some true
    → acquire_enter lid s ≡ done (Progress.waits, s)
unfolding acquire_enter
enter_waits lid s e = rw (acquire_enter, e) refl

wake_waits :
    (lid : ℕ) (s : LockTable)
    → s.locked lid ≡ some true
    → acquire_wake lid s ≡ done (Progress.waits, s)
unfolding acquire_wake
wake_waits lid s e = rw (acquire_wake, e) refl

enter_granted :
    (lid : ℕ) (s : LockTable) (o : Option Bool)
    → s.locked lid ≡ o
    → o ≢ some true
    → acquire_enter lid s ≡ done (Progress.granted, lock lid s)
unfolding acquire_enter
enter_granted lid s none e h = rw (acquire_enter, e) refl
enter_granted lid s (some false) e h = rw (acquire_enter, e) refl
enter_granted lid s (some true) e h = absurd (h refl)

wake_granted :
    (lid : ℕ) (s : LockTable) (o : Option Bool)
    → s.locked lid ≡ o
    → o ≢ some true
    → acquire_wake lid s ≡ done (Progress.granted, lock lid s)
unfolding acquire_wake
wake_granted lid s none e h = rw (acquire_wake, e) refl
wake_granted lid s (some false) e h = rw (acquire_wake, e) refl
wake_granted lid s (some true) e h = absurd (h refl)

Safe : System → Type 0
Safe s = (lid : ℕ) → IsSafe (s.table.locked lid) (s.stage lid)

-- A call changes one lock and the stages of its clients.
at_lock :
    (s : System) (t : LockTable) (lid : ℕ) (stages : ℕ → Stage) (value : Option Bool)
    → t.locked ≡ update s.table.locked lid value
    → Safe s
    → IsSafe value stages
    → Safe (record { table = t; stage = update s.stage lid stages })
unfolding Safe
at_lock s t lid stages value e h here other = elim (Bool-cases (lid == other)) [
  | inl y ↦ rw (e, update, y) here
  | inr n ↦ rw (e, update, n) (h other)
]

moved :
    (s : System) (lid c : ℕ) (p : Progress) (t : LockTable)
    → Safe s
    → ((p ≡ Progress.waits) × (t ≡ s.table))
      ⊎ ((s.table.locked lid ≢ some true) × (p ≡ Progress.granted) × (t ≡ lock lid s.table))
    → Safe (record { table = t; stage = with_stage s lid c (after p) })
unfolding Safe lock
moved s lid c p t h (inl (waits, same)) =
    at_lock s t lid _ (s.table.locked lid)
      (ap (λ (x : LockTable). x.locked) same ∙ sym (update_same s.table.locked lid)) h
      (subst (λ q. IsSafe (s.table.locked lid) (update (s.stage lid) c (after q))) (sym waits)
        (asleep-IsSafe (s.table.locked lid) (s.stage lid) c (h lid)))
moved s lid c p t h (inr (free, granted, locks)) =
    at_lock s t lid _ (some true) (ap (λ (x : LockTable). x.locked) locks) h (
      subst (λ q. IsSafe (some true) (update (s.stage lid) c (after q))) (sym granted)
        (granted-IsSafe (s.table.locked lid) (s.stage lid) c free (h lid)))

result_of :
    (s : LockTable) (lid : ℕ) (p : Progress) (t : LockTable) (o : Outcome (Progress × LockTable))
    → (s.locked lid ≡ some true → o ≡ done (Progress.waits, s))
    → (s.locked lid ≢ some true → o ≡ done (Progress.granted, lock lid s))
    → o ≡ done (p, t)
    → ((p ≡ Progress.waits) × (t ≡ s))
      ⊎ ((s.locked lid ≢ some true) × (p ≡ Progress.granted) × (t ≡ lock lid s))
result_of s lid p t o wait grant e = elim (is_locked (s.locked lid)) [
  | inl y ↦
      let q = done_injective (sym e ∙ wait y) in
      inl (ap (λ (r : Progress × LockTable). r.0) q, ap (λ (r : Progress × LockTable). r.1) q)
  | inr n ↦
      let q = done_injective (sym e ∙ grant n) in
      inr (n, ap (λ (r : Progress × LockTable). r.0) q, ap (λ (r : Progress × LockTable). r.1) q)
]

released_table :
    (lid : ℕ) (s : LockTable) (b : Bool)
    → s.locked lid ≡ some b
    → release lid s ≡ done (tt, unlock lid s)
unfolding release
released_table lid s b e = rw (release, e) refl

Step-Safe : {s t : System} → Safe s → Step s t → Safe t
unfolding Safe unlock
Step-Safe {s} h (enter lid c {p} {t} h1 e) = moved s lid c p t h (
    result_of s.table lid p t (acquire_enter lid s.table) (enter_waits lid s.table)
      (enter_granted lid s.table (s.table.locked lid) refl) e)
Step-Safe {s} h (wake lid c {p} {t} h2 e) = moved s lid c p t h (
    result_of s.table lid p t (acquire_wake lid s.table) (wake_waits lid s.table)
      (wake_granted lid s.table (s.table.locked lid) refl) e)
Step-Safe {s} h (give_back lid c {t} own e) =
    let taken = (h lid).taken c own in
    let same =
      ap (λ (r : Unit × LockTable). r.1)
        (done_injective (sym e ∙ released_table lid s.table true taken)) in
    at_lock s t lid _ (some false) (ap (λ (x : LockTable). x.locked) same) h
      (released-IsSafe (s.table.locked lid) (s.stage lid) c own (h lid))

Reach-Safe : {s : System} → Reach s → Safe s
unfolding Safe
Reach-Safe begin =
    λ lid. record { taken = λ c e. ground (arith, e); single = λ c d e e'. ground (arith, e) }
Reach-Safe (next r step) = Step-Safe (Reach-Safe r) step

-- In every state that the calls can reach, whatever the order in which the clients' calls start, are woken (with a
-- signal or without) and release, two clients that were both granted a lock are the same.
pub one_owner :
    {s : System} (lid c d : ℕ)
    → Reach s
    → s.stage lid c ≡ Stage.owner
    → s.stage lid d ≡ Stage.owner
    → c ≡ d
unfolding Safe
one_owner lid c d r e e' = (Reach-Safe r lid).single c d e e'
