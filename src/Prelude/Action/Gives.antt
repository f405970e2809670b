-- ===== src/Prelude/Action/Gives.antt =====
-- Partial correctness of the calls on a state: under an invariant `I`, a call keeps it and
-- its value, if it gives one, satisfies `P`. One rule for each way of composing calls.
use realtime_delivery_micros.Prelude.{Bool, true, false}
use realtime_delivery_micros.Prelude.Result.{Result, ok, err}
use realtime_delivery_micros.Prelude.Action.{
  Stateful, ◌>>=◌, pure, raise, require, ignore, handling,
}

abbrev pub Holds : {E A : Type 0} → (A → Type 0) → Result E A → Type 0
Holds P (ok a) = P a
Holds P (err e) = Unit

abbrev pub Always : {A : Type 0} → A → Type 0
Always a = Unit

pub any : {E A : Type 0} (r : Result E A) → Holds Always r
any (ok a) = tt
any (err e) = tt

pub record Gives {S E : Type 0} (I : S → Type 0) {A : Type 0} (P : A → Type 0) (m : Stateful S E A)
    : Type 0 where
  pub gives : (db : S) → I db → I (m db).1 × Holds P (m db).0

module _ {S E : Type 0} {I : S → Type 0} where
  bind_cases :
      {A B : Type 0} (P : A → Type 0) (Q : B → Type 0) (f : A → Stateful S E B) (r : Result E A)
      (db : S)
      → I db × Holds P r
      → ((a : A) → P a → Gives I Q (f a))
      → let out : Result E B × S = elim r [ ok a ↦ f a db | err e ↦ (err e, db) ] in
        I out.1 × Holds Q out.0
  bind_cases P Q f (ok a) db h k = (k a h.1).gives db h.0
  bind_cases P Q f (err e) db h k = (h.0, tt)

  pub >>=-Gives :
      {A B : Type 0} {P : A → Type 0} {Q : B → Type 0} {m : Stateful S E A} {f : A → Stateful S E B}
      → Gives I P m
      → ((a : A) → P a → Gives I Q (f a))
      → Gives I Q (m >>= f)
  unfolding ◌>>=◌
  >>=-Gives {P = P} {Q = Q} {m = m} {f = f} h k = record {
    gives = λ db i. bind_cases P Q f (m db).0 (m db).1 (h.gives db i) k;
  }

  handling_cases :
      {A B : Type 0} (P : A → Type 0) (Q : B → Type 0) (on_error : E → Stateful S E B)
      (on_ok : A → Stateful S E B) (r : Result E A) (db : S)
      → I db × Holds P r
      → ((e : E) → Gives I Q (on_error e))
      → ((a : A) → P a → Gives I Q (on_ok a))
      → let out : Result E B × S = elim r [ ok a ↦ on_ok a db | err e ↦ on_error e db ] in
        I out.1 × Holds Q out.0
  handling_cases P Q on_error on_ok (ok a) db h k n = (n a h.1).gives db h.0
  handling_cases P Q on_error on_ok (err e) db h k n = (k e).gives db h.0

  pub handling-Gives :
      {A B : Type 0} {P : A → Type 0} {Q : B → Type 0} {m : Stateful S E A}
      {on_error : E → Stateful S E B} {on_ok : A → Stateful S E B}
      → Gives I P m
      → ((e : E) → Gives I Q (on_error e))
      → ((a : A) → P a → Gives I Q (on_ok a))
      → Gives I Q (handling m on_error on_ok)
  unfolding handling
  handling-Gives {P = P} {Q = Q} {m = m} {on_error = on_error} {on_ok = on_ok} h k n = record {
    gives = λ db i. handling_cases P Q on_error on_ok (m db).0 (m db).1 (h.gives db i) k n;
  }

  -- A call whose own value does not matter, before another.
  pub then-Gives :
      {A B : Type 0} {Q : B → Type 0} {m : Stateful S E A} {f : A → Stateful S E B}
      → Gives I Always m
      → ((a : A) → Gives I Q (f a))
      → Gives I Q (m >>= f)
  then-Gives h hk = >>=-Gives h (λ a _. hk a)

  pub ignore-Gives :
      {A : Type 0} {P : A → Type 0} {m : Stateful S E A} → Gives I P m → Gives I Always (ignore m)
  unfolding ignore
  ignore-Gives h = record { gives = λ db i. ((h.gives db i).0, tt) }

  pub raise-Gives : {A : Type 0} {P : A → Type 0} (e : E) → Gives {E = E} I P (raise {A = A} e)
  raise-Gives e = record { gives = λ db i. (i, tt) }

  pub pure-Gives : {A : Type 0} {P : A → Type 0} {a : A} → P a → Gives {E = E} I P (pure a)
  pure-Gives h = record { gives = λ db i. (i, h) }

  pub require-Gives : (b : Bool) (e : E) → Gives I Always (require b e)
  require-Gives true e = record { gives = λ db i. (i, tt) }
  require-Gives false e = record { gives = λ db i. (i, tt) }
