-- ===== src/Prelude/Action/Runs.antt =====
-- Runs of composed statements: the next one, behind a statement whose outcome is known.
use realtime_delivery_micros.Prelude.{◌≡◌, ap}
use realtime_delivery_micros.Prelude.Result.{Result, ok, err}
use realtime_delivery_micros.Prelude.Action.{Stateful, ◌>>=◌, handling}

module _ {S E : Type 0} where
  pub bind_ok :
      {A B : Type 0} (m : Stateful S E A) (f : A → Stateful S E B) (db : S) {a : A} {after : S}
      → m db ≡ (ok a, after)
      → (m >>= f) db ≡ f a after
  unfolding ◌>>=◌
  bind_ok {A = A} {B = B} m f db h =
      ap
        (λ (out : Result E A × S).
          let next : Result E B × S = elim out.0 [ ok a ↦ f a out.1 | err e ↦ (err e, out.1) ] in
          next)
        h

  pub handling_ok :
      {A B : Type 0} (m : Stateful S E A) (on_error : E → Stateful S E B)
      (on_ok : A → Stateful S E B) (db : S) {a : A} {after : S}
      → m db ≡ (ok a, after)
      → handling m on_error on_ok db ≡ on_ok a after
  unfolding handling
  handling_ok {A = A} {B = B} m on_error on_ok db h =
      ap
        (λ (out : Result E A × S).
          let next : Result E B × S = elim out.0 [
            | ok a ↦ on_ok a out.1
            | err e ↦ on_error e out.1
          ] in
          next)
        h

  pub bind_err :
      {A B : Type 0} (m : Stateful S E A) (f : A → Stateful S E B) (db : S) {e : E} {after : S}
      → m db ≡ (err e, after)
      → (m >>= f) db ≡ (err e, after)
  unfolding ◌>>=◌
  bind_err {A = A} {B = B} m f db h =
      ap
        (λ (out : Result E A × S).
          let next : Result E B × S = elim out.0 [ ok a ↦ f a out.1 | err d ↦ (err d, out.1) ] in
          next)
        h

  pub handling_err :
      {A B : Type 0} (m : Stateful S E A) (on_error : E → Stateful S E B)
      (on_ok : A → Stateful S E B) (db : S) {e : E} {after : S}
      → m db ≡ (err e, after)
      → handling m on_error on_ok db ≡ on_error e after
  unfolding handling
  handling_err {A = A} {B = B} m on_error on_ok db h =
      ap
        (λ (out : Result E A × S).
          let next : Result E B × S = elim out.0 [
            | ok a ↦ on_ok a out.1
            | err d ↦ on_error d out.1
          ] in
          next)
        h
