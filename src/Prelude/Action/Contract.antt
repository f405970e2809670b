-- ===== src/Prelude/Action/Contract.antt =====
-- Contracts of calls on a state: from a state that satisfies the first predicate, a call ends in one
-- that satisfies the second together with its value, or, with an error, the third.
use realtime_delivery_micros.Prelude.{Bool, true, false, ◌≡◌, refl}
use realtime_delivery_micros.Prelude.Result.{Result, ok, err}
use realtime_delivery_micros.Prelude.Action.{
  Stateful, ◌>>=◌, pure, raise, require, ignore, handling, deferring,
}

abbrev pub Ends : {S E A : Type 0} → (A → S → Type 0) → (E → S → Type 0) → Result E A → S → Type 0
Ends Q R (ok a) s = Q a s
Ends Q R (err e) s = R e s

pub record Contract {S E A : Type 0} (P : S → Type 0) (m : Stateful S E A) (Q : A → S → Type 0)
    (R : E → S → Type 0) : Type 0 where
  pub holds : (s : S) → P s → Ends Q R (m s).0 (m s).1

-- What holds after the call either way.
pub ends_both :
    {S E A : Type 0} (I : S → Type 0) (r : Result E A) (s : S)
    → Ends (λ _ s. I s) (λ _ s. I s) r s
    → I s
ends_both I (ok a) s h = h
ends_both I (err e) s h = h

weaken_cases :
    {S E A : Type 0} (Q' Q : A → S → Type 0) (R' R : E → S → Type 0) (r : Result E A) (s : S)
    → ((a : A) (s : S) → Q' a s → Q a s)
    → ((e : E) (s : S) → R' e s → R e s)
    → Ends Q' R' r s
    → Ends Q R r s
weaken_cases Q' Q R' R (ok a) s post fail h = post a s h
weaken_cases Q' Q R' R (err e) s post fail h = fail e s h

cleanup_cases :
    {S E A B : Type 0} (M Q : A → S → Type 0) (N R : E → S → Type 0) (cleanup : Stateful S E B)
    (r : Result E A) (s : S)
    → Ends M N r s
    → ((a : A) (s : S) → M a s → Q a (cleanup s).1)
    → ((e : E) (s : S) → N e s → R e (cleanup s).1)
    → Ends Q R r (cleanup s).1
cleanup_cases M Q N R cleanup (ok a) s h good bad = good a s h
cleanup_cases M Q N R cleanup (err e) s h good bad = bad e s h

module _ {S E : Type 0} {R : E → S → Type 0} where
  bind_cases :
      {A B : Type 0} (M : A → S → Type 0) (Q : B → S → Type 0) (f : A → Stateful S E B)
      (r : Result E A) (s : S)
      → Ends M R r s
      → ((a : A) → Contract (M a) (f a) Q R)
      → let out : Result E B × S = elim r [ ok a ↦ f a s | err e ↦ (err e, s) ] in
        Ends Q R out.0 out.1
  bind_cases M Q f (ok a) s h k = (k a).holds s h
  bind_cases M Q f (err e) s h k = h

  handling_cases :
      {A B : Type 0} (M : A → S → Type 0) (N : E → S → Type 0) (Q : B → S → Type 0)
      (on_error : E → Stateful S E B) (on_ok : A → Stateful S E B) (r : Result E A) (s : S)
      → Ends M N r s
      → ((e : E) → Contract (N e) (on_error e) Q R)
      → ((a : A) → Contract (M a) (on_ok a) Q R)
      → let out : Result E B × S = elim r [ ok a ↦ on_ok a s | err e ↦ on_error e s ] in
        Ends Q R out.0 out.1
  handling_cases M N Q on_error on_ok (ok a) s h k n = (n a).holds s h
  handling_cases M N Q on_error on_ok (err e) s h k n = (k e).holds s h

module _ {S E : Type 0} {P : S → Type 0} {R : E → S → Type 0} where
  pub >>=-Contract :
      {A B : Type 0} {M : A → S → Type 0} {Q : B → S → Type 0} {m : Stateful S E A}
      {f : A → Stateful S E B}
      → Contract P m M R
      → ((a : A) → Contract (M a) (f a) Q R)
      → Contract P (m >>= f) Q R
  unfolding ◌>>=◌
  >>=-Contract {M = M} {Q = Q} {m = m} {f = f} h k = record {
    holds = λ s p. bind_cases M Q f (m s).0 (m s).1 (h.holds s p) k;
  }

  pub handling-Contract :
      {A B : Type 0} {M : A → S → Type 0} {N : E → S → Type 0} {Q : B → S → Type 0}
      {m : Stateful S E A} {on_error : E → Stateful S E B} {on_ok : A → Stateful S E B}
      → Contract P m M N
      → ((e : E) → Contract (N e) (on_error e) Q R)
      → ((a : A) → Contract (M a) (on_ok a) Q R)
      → Contract P (handling m on_error on_ok) Q R
  unfolding handling
  handling-Contract {M = M} {N = N} {Q = Q} {m = m} {on_error = on_error} {on_ok = on_ok} h k n =
      record {
        holds = λ s p. handling_cases M N Q on_error on_ok (m s).0 (m s).1 (h.holds s p) k n;
      }

  pub pure-Contract :
      {A : Type 0} {Q : A → S → Type 0} {a : A} → ((s : S) → P s → Q a s) → Contract P (pure a) Q R
  pure-Contract h = record { holds = h }

  pub raise-Contract :
      {A : Type 0} {Q : A → S → Type 0} {e : E}
      → ((s : S) → P s → R e s)
      → Contract P (raise {A = A} e) Q R
  raise-Contract h = record { holds = h }

  -- Past a check, its condition holds.
  pub require-Contract :
      (b : Bool) (e : E)
      → ((s : S) → P s → R e s)
      → Contract P (require b e) (λ _ s. P s × (b ≡ true)) R
  require-Contract true e h = record { holds = λ s p. (p, refl) }
  require-Contract false e h = record { holds = h }

  pub ignore-Contract :
      {A : Type 0} {I : S → Type 0} {m : Stateful S E A}
      → Contract P m (λ _ s. I s) (λ _ s. I s)
      → Contract P (ignore m) (λ _ s. I s) R
  unfolding ignore
  ignore-Contract {I = I} {m = m} h = record {
    holds = λ s p. ends_both I (m s).0 (m s).1 (h.holds s p);
  }

  pub weaken :
      {A : Type 0} {P' : S → Type 0} {Q Q' : A → S → Type 0} {R' : E → S → Type 0}
      {m : Stateful S E A}
      → Contract P' m Q' R'
      → ((s : S) → P s → P' s)
      → ((a : A) (s : S) → Q' a s → Q a s)
      → ((e : E) (s : S) → R' e s → R e s)
      → Contract P m Q R
  weaken {Q = Q} {Q' = Q'} {R' = R'} {m = m} h pre post fail = record {
    holds = λ s p. weaken_cases Q' Q R' R (m s).0 (m s).1 post fail (h.holds s (pre s p));
  }

  pub deferring-Contract :
      {A B : Type 0} {Q M : A → S → Type 0} {N : E → S → Type 0} {m : Stateful S E A}
      (cleanup : Stateful S E B)
      → Contract P m M N
      → ((a : A) (s : S) → M a s → Q a (cleanup s).1)
      → ((e : E) (s : S) → N e s → R e (cleanup s).1)
      → Contract P (deferring cleanup m) Q R
  unfolding deferring
  deferring-Contract {Q = Q} {M = M} {N = N} {m = m} cleanup h good bad = record {
    holds = λ s p. cleanup_cases M Q N R cleanup (m s).0 (m s).1 (h.holds s p) good bad;
  }

  -- A contract may be proved from what its first state satisfies.
  pub by_state :
      {A : Type 0} {Q : A → S → Type 0} {m : Stateful S E A}
      → ((s : S) → P s → Contract P m Q R)
      → Contract P m Q R
  by_state k = record { holds = λ s p. (k s p).holds s p }
