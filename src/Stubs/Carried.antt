-- ===== src/Stubs/Carried.antt =====
-- A call of rpc/rpc.h to a handler that rpc/rpc.h made is the call of the method.
use cse_yet_another_file_sys.Prelude.{
  bind_done, subst, done_injective, ℕ, ◌≡◌, refl, ap, sym, ◌∙◌, Bool, Bool-cases, inl, inr, true,
  false, [], ◌++◌, append_assoc, append-nil, Outcome, done, exited, fault, continue, Exec, pure,
  ◌>>=◌, if◌then◌else◌,
}
use cse_yet_another_file_sys.Bytes.{Bytes}
use cse_yet_another_file_sys.Marshall.{Unmarshall, reading}
use cse_yet_another_file_sys.Stubs.{
  Codec, Params, Args, put_args, get_args, Handler, fn, read_reply, call_m, call, is_negative,
}

-- What a type's operator wrote of a value, it reads.
abbrev pub Reads : {A : Type 0} → Codec A → A → Type 0
Reads {A} c a = (old : A) (rest : Bytes) → c.get old (reading (c.put a ++ rest)) ≡ (a, reading rest)

abbrev pub AllRead : (ps : Params) → Args ps → Type 0
AllRead Params.no_more xs = Unit
AllRead (Params.param A c ps) (a, xs) = Reads c a × AllRead ps xs

put_args-append :
    (ps : Params) (xs : Args ps) (m : Bytes) → put_args ps xs m ≡ m ++ put_args ps xs []
unfolding put_args
put_args-append Params.no_more xs m = sym (append-nil m)
put_args-append (Params.param A c ps) (a, xs) m =
    put_args-append ps xs (m ++ c.put a)
    ∙ append_assoc m (c.put a) (put_args ps xs [])
    ∙ ap (◌++◌ m) (sym (put_args-append ps xs (c.put a)))

-- The arguments are read as they were written.
pub get_args-put_args :
    (ps : Params) (xs : Args ps)
    → AllRead ps xs
    → get_args ps (reading (put_args ps xs [])) ≡ (xs, reading [])
unfolding get_args put_args
get_args-put_args Params.no_more xs h = refl
get_args-put_args (Params.param A c ps) (a, xs) h =
    let e : c.get c.initial (reading (put_args ps xs (c.put a)))
        ≡ (a, reading (put_args ps xs [])) =
      ap (λ b. c.get c.initial (reading b)) (put_args-append ps xs (c.put a))
      ∙ h.0 c.initial (put_args ps xs []) in
    ap (λ (p : A × Unmarshall). let (bs, w) = get_args ps p.1 in ((p.0, bs), w)) e
    ∙ ap (λ (q : Args ps × Unmarshall). ((a, q.0), q.1)) (get_args-put_args ps xs h.1)

-- A request is brought to its handler once, and the reply back.
abbrev pub carried : {S : Type 0} → Handler S → Bytes → Exec S (ℕ × Unmarshall)
carried handler req = do reply ← handler (reading req) []; pure (reply.0, reading reply.1)

module _ (okdone : Unmarshall → Bool) (complete : okdone (reading []) ≡ true) {S R : Type 0}
    (c : Codec R) (ps : Params) (meth : Args ps → R → Exec S (ℕ × R)) where
  -- The method is called with the arguments that were sent.
  pub fn-meth :
      (xs : Args ps)
      → AllRead ps xs
      → (s : S)
      → fn okdone c ps meth (reading (put_args ps xs [])) [] s
        ≡ (meth xs c.initial >>= λ b. pure (b.0, c.put b.1)) s
  unfolding fn
  fn-meth xs h s = rw (get_args-put_args ps xs h, complete) refl

  -- What the caller has in its variable after the call.
  abbrev left_in : R → ℕ × R → ℕ × R
  left_in r b = (b.0, if is_negative b.0 then r else b.1)

  read_reply_lem :
      (b : ℕ × R) (r : R) (s : S)
      → Reads c b.1
      → read_reply okdone c b.0 r (reading (c.put b.1)) s ≡ done (left_in r b, s)
  unfolding read_reply
  read_reply_lem b r s h =
      let e : c.get r (reading (c.put b.1)) ≡ (b.1, reading []) =
        ap (λ u. c.get r (reading u)) (sym (append-nil (c.put b.1))) ∙ h r [] in
      elim (Bool-cases (is_negative b.0)) [ inl y ↦ rw y refl | inr n ↦ rw (n, e, complete) refl ]

  abbrev answer : ℕ × R → Exec S (ℕ × Bytes)
  answer b = pure (b.0, c.put b.1)

  abbrev bring : ℕ × Bytes → Exec S (ℕ × Unmarshall)
  bring q = pure (q.0, reading q.1)

  abbrev finish : R → ℕ × R → Exec S (ℕ × R)
  finish r b = pure (left_in r b)

  -- How a call goes on after the method, by how the method ends.
  after_meth :
      (r : R) (o : Outcome ((ℕ × R) × S))
      → ((b : ℕ × R) (t : S) → o ≡ done (b, t) → Reads c b.1)
      → continue (continue (continue o answer) bring) (λ q. read_reply okdone c q.0 r q.1)
        ≡ continue o (finish r)
  after_meth r (done (b, t)) h = read_reply_lem b r t (h b t refl)
  after_meth r exited h = refl
  after_meth r fault h = refl

  module _ (call1 : ℕ → Bytes → Exec S (ℕ × Unmarshall)) (proc : ℕ) where
    -- A remote call is the call of the method: where the library brings the request of the procedure to the handler
    -- and the reply back, the stub ends as the method does, with its result and, unless the result is negative, with
    -- what the method left in its reply; else the caller's variable stays. The operators read what they wrote, of
    -- the arguments and of the replies that the method gives.
    pub call-meth :
        ((req : Bytes) (s : S) → call1 proc req s ≡ carried (fn okdone c ps meth) req s)
        → (xs : Args ps) → AllRead ps xs
        → (r : R) (s : S) → ((b : ℕ × R) (t : S) → meth xs c.initial s ≡ done (b, t) → Reads c b.1)
        → call okdone c call1 ps proc xs r s
          ≡ (meth xs c.initial >>= λ b. pure (b.0, if is_negative b.0 then r else b.1)) s
    unfolding call call_m
    call-meth handled xs h r s replies =
        let e : call1 proc (put_args ps xs []) s
            ≡ continue (continue (meth xs c.initial s) answer) bring =
          handled (put_args ps xs []) s ∙ ap (λ o. continue o bring) (fn-meth xs h s) in
        ap (λ o. continue o (λ q. read_reply okdone c q.0 r q.1)) e
        ∙ after_meth r (meth xs c.initial s) replies

    -- Where the method returns a result that is not negative, the stub returns the same.
    pub call-done :
        ((req : Bytes) (s : S) → call1 proc req s ≡ carried (fn okdone c ps meth) req s)
        → (xs : Args ps) → AllRead ps xs
        → (r : R) {s t : S} (b : ℕ × R) → meth xs c.initial s ≡ done (b, t)
        → Reads c b.1
        → is_negative b.0 ≡ false
        → call okdone c call1 ps proc xs r s ≡ done (b, t)
    call-done handled xs h r {s} {t} b e reads good =
        call-meth handled xs h r s (λ b' t' e'.
          subst (λ (x : ℕ × R). Reads c x.1) (ap (λ p. p.0) (done_injective (sym e ∙ e'))) reads)
        ∙ bind_done (meth xs c.initial) (λ b. pure (b.0, if is_negative b.0 then r else b.1)) e
        ∙ rw good refl
