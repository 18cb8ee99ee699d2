-- ===== src/Racepack/Handler.antt =====
-- `CreatePickup` (modules/racepack/handler.go), with its idempotency key. The parameter `render` is the
-- JSON text of a pickup.
use ivyticketing.Base.{ℕ, String}
use ivyticketing.Store.Tx.{Result, ok, err}
use ivyticketing.Racepack.Rows.{PickupRecord, Desk}
use ivyticketing.Racepack.Pickup.{PickupInput, execute_pickup}
use ivyticketing.Racepack.Idempotency.{Reply, Keyed, keyed_reply}

abbrev pub rendered : {A : Type 0} → (A → String) → Result A × Desk → Result String × Desk
rendered render (ok a, d) = (ok (render a), d)
rendered render (err e, d) = (err e, d)

abbrev pub pickup_key : String → String → Keyed
pickup_key key hash = record { key = key; scope = "racepack.execute_pickup"; request_hash = hash }

unfoldable pub create_pickup :
    (String → String)
    → (String → String)
    → (PickupRecord → String)
    → ℕ
    → ℕ
    → String
    → String
    → PickupInput
    → Desk
    → Reply × Desk
unfolding keyed_reply execute_pickup
create_pickup stored normal render id now key hash p =
    keyed_reply stored
      (record { key = key; scope = "racepack.execute_pickup"; request_hash = hash }) 201
      (λ d. rendered render (execute_pickup normal id now p d))
