-- ===== src/Ros/BatteryPub/Readings.antt =====
-- What is published over many calls of the battery publisher.
use micro_ros_controller_fir.Prelude.{
  ℕ, ◌≡◌, refl, ap, not, ◌&&◌, Option, none, some, List, [], ◌∷◌, Bool-cases, inl, inr,
  if◌then◌else◌,
}
use micro_ros_controller_fir.Common.Types.{BatteryState}
use micro_ros_controller_fir.Ros.Telemetry.{failed}
use micro_ros_controller_fir.Ros.BatteryPub.{
  PowerMonitor, BatteryMsg, battery_msg_of, battery_pub_publish,
}

abbrev and_then : {A : Type 0} → Option A → List A → List A
and_then none l = l
and_then (some a) l = a ∷ l

module _ {F Dev : Type 0} (power : PowerMonitor F Dev) (unknown : ℕ) where
  open power use {power_monitor_read, valid}

  -- The messages of one call after another, each with what lies on its stack.
  unfoldable pub published : List (BatteryState F) → Dev → BatteryMsg F → List (BatteryMsg F)
  published [] dev msg = []
  published (stack ∷ stacks) dev msg =
      let (sent, msg', dev') = battery_pub_publish power unknown stack dev msg in
      and_then sent (published stacks dev' msg')

  -- The readings of the same calls that succeed and are marked valid.
  unfoldable pub readings : List (BatteryState F) → Dev → List (BatteryState F)
  readings [] dev = []
  readings (stack ∷ stacks) dev =
      let (dev', rc, bat) = power_monitor_read dev stack in
      if not (failed rc) && valid bat then bat ∷ readings stacks dev' else readings stacks dev'

  abbrev messages : List (BatteryState F) → List (BatteryMsg F)
  messages [] = []
  messages (bat ∷ bats) = battery_msg_of power unknown bat ∷ messages bats

  -- Over any number of calls one message is published for each reading that succeeds and is marked valid,
  -- in order, with its voltage and its current, and none for any other.
  published-readings :
      (stacks : List (BatteryState F)) (dev : Dev) (msg : BatteryMsg F)
      → published stacks dev msg ≡ messages (readings stacks dev)
  unfolding published readings battery_pub_publish
  published-readings [] dev msg = refl
  published-readings (stack ∷ stacks) dev msg =
      let (dev', rc, bat) = power_monitor_read dev stack in
      let rest = published-readings stacks dev' msg in
      let rest' = published-readings stacks dev' (battery_msg_of power unknown bat) in
      elim (Bool-cases (failed rc)) [
        | inl e ↦ rw e rest
        | inr e ↦ elim (Bool-cases (valid bat)) [
          | inl v ↦ rw (e, v) (ap (λ l. battery_msg_of power unknown bat ∷ l) rest')
          | inr v ↦ rw (e, v) rest
        ]
      ]
