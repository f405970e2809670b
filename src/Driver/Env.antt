-- ===== src/Driver/Env.antt =====
-- What a call of the driver service meets around it: the clock, failures of the database, the lock and
-- the broker, and what other processes do to the store in between. Every call on the store has a site.
use realtime_delivery_micros.Prelude.{ℕ, Bool, Option, none, some}
use realtime_delivery_micros.Prelude.Result.{ok, err}
use realtime_delivery_micros.Driver.Profile.{Driver, DriverError}
use realtime_delivery_micros.Driver.Store.{Store, ServiceError, by_driver, Action}

pub data Site : Type 0 where
  at_acquire at_release at_find at_driver_save at_find_assignment at_assignment_save : Site
  at_second_find at_count at_rollback at_publish at_second_publish : Site

pub record Env : Type 0 where
  pub down : Site → Bool
  pub others : Site → Store → Store
  pub now : Site → ℕ

-- A call on the store: first the other processes, then the call, which may fail.
unfoldable pub perform : {A : Type 0} → Env → Site → (Bool → Action A) → Action A
perform env site call s = call (env.down site) (env.others site s)

-- No other process touches the store during the call.
abbrev pub alone : Env → Env
alone env = record env { others = λ _ s. s }

-- `if x == nil { return e }`
abbrev pub present : {A : Type 0} → Option A → ServiceError → Action A
present none e s = (err e, s)
present (some a) e s = (ok a, s)

-- `if err := driver.Method(...); err != nil { return err }`
abbrev pub checked : Driver × Option DriverError → Action Driver
checked (d, none) s = (ok d, s)
checked (d, some e) s = (err (by_driver e), s)
