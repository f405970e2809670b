-- ===== src/Prelude/Action.antt =====
-- Calls on a state that the caller shares with others: a result, and the state after the call. What
-- was changed before an error stays changed.
pub mod Gives
pub mod Runs
pub mod Contract
use realtime_delivery_micros.Prelude.{Bool, true, false}
use realtime_delivery_micros.Prelude.Result.{Result, ok, err}

abbrev pub Stateful : Type 0 → Type 0 → Type 0 → Type 0
Stateful S E A = S → Result E A × S

infixl 5 ◌>>=◌ ◌>>◌
unfoldable pub ◌>>=◌ : {S E A B : Type 0} → Stateful S E A → (A → Stateful S E B) → Stateful S E B
◌>>=◌ m f s = let (r, s') = m s in elim r [ ok a ↦ f a s' | err e ↦ (err e, s') ]

abbrev pub ◌>>◌ : {S E A B : Type 0} → Stateful S E A → Stateful S E B → Stateful S E B
m >> k = m >>= λ _. k

abbrev pub pure : {S E A : Type 0} → A → Stateful S E A
pure a s = (ok a, s)

abbrev pub raise : {S E A : Type 0} → E → Stateful S E A
raise e s = (err e, s)

-- `if !good { return nil, e }`
abbrev pub require : {S E : Type 0} → Bool → E → Stateful S E (Unit {0})
require true e s = (ok tt, s)
require false e s = (err e, s)

-- `_ = call`: the error is dropped, what was written stays.
unfoldable pub ignore : {S E A : Type 0} → Stateful S E A → Stateful S E (Unit {0})
ignore m s = let (_, s') = m s in (ok tt, s')

-- `if err := call; err != nil { on_error }`
unfoldable pub handling :
    {S E A B : Type 0}
    → Stateful S E A
    → (E → Stateful S E B)
    → (A → Stateful S E B)
    → Stateful S E B
handling m on_error on_ok s =
    let (r, s') = m s in elim r [ ok a ↦ on_ok a s' | err e ↦ on_error e s' ]

-- `defer cleanup`: the cleanup runs after the call, whatever came of it, and its error is dropped.
unfoldable pub deferring : {S E A B : Type 0} → Stateful S E B → Stateful S E A → Stateful S E A
deferring cleanup m s = let (r, s') = m s in (r, (cleanup s').1)
