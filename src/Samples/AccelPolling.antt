-- ===== src/Samples/AccelPolling.antt =====
-- The polling sample (apps/accel_polling/src/main.c). The sensor's driver is a parameter, with the state
-- of a device passed along. Numbers are printed as they are; the text around them is left out.
pub mod Stream
pub mod Rounds
mod Prepared
mod Tests
use micro_ros_controller_fir.Prelude.{
  ℕ, zero, suc, Bool, true, false, not, ◌&&◌, ◌||◌, Option, none, some, List, [], ◌∷◌, ◌++◌,
  if◌then◌else◌,
}
use micro_ros_controller_fir.Prelude.Int.{ℤ, pos}
use micro_ros_controller_fir.Common.Types.{Vector}
use micro_ros_controller_fir.Samples.Kernel.{is_negative, is_error}

-- `struct sensor_value`
pub record SensorValue : Type 0 where
  pub val1 : ℤ
  pub val2 : ℤ

-- `enum sensor_channel`, as far as the array `channels` holds it.
pub data Channel : Type 0 where
  accel_x accel_y accel_z : Channel

abbrev pub channels : List Channel
channels = accel_x ∷ accel_y ∷ accel_z ∷ []

-- The element of the array `accel` for a channel.
abbrev pub get : {A : Type 0} → Channel → Vector A → A
get accel_x v = v.x
get accel_y v = v.y
get accel_z v = v.z

abbrev pub put : {A : Type 0} → Channel → A → Vector A → Vector A
put accel_x a v = record v { x = a }
put accel_y a v = record v { y = a }
put accel_z a v = record v { z = a }

-- What is printed about a device.
pub data Line (Name : Type 0) : Type 0 where
  not_ready frequency_failed : Name → Line Name
  fetch_failed : Name → (rc : ℤ) → Line Name
  get_failed : Name → Channel → (rc : ℤ) → Line Name
  sample : Name → Vector SensorValue → Line Name

-- The driver's calls; the attribute is the sampling frequency. A call that writes to a variable takes
-- what the variable holds.
pub record Driver (Dev Name : Type 0) : Type 0 where
  pub name : Dev → Name
  pub device_is_ready : Dev → Bool
  pub sensor_attr_get : Dev → SensorValue → ℤ × SensorValue × Dev
  pub sensor_attr_set : Dev → SensorValue → ℤ × Dev
  pub sensor_sample_fetch : Dev → ℤ × Dev
  pub sensor_channel_get : Dev → Channel → SensorValue → ℤ × SensorValue × Dev

-- The devices after one that has been served.
abbrev pub and_rest : {Dev : Type 0} → Dev → Option (List Dev) → Option (List Dev)
and_rest d none = none
and_rest d (some ds) = some (d ∷ ds)

-- `odr.val1 == 0 && odr.val2 == 0`
abbrev pub is_zero : SensorValue → Bool
is_zero odr = not (is_error odr.val1) && not (is_error odr.val2)

module _ {Dev Name : Type 0} (driver : Driver Dev Name) where
  open driver use {
    name, device_is_ready, sensor_attr_get, sensor_attr_set, sensor_sample_fetch,
    sensor_channel_get,
  }

  -- `stack` is what `odr` holds at first.
  unfoldable pub set_sampling_freq : (stack : SensorValue) → Dev → ℤ × List (Line Name) × Dev
  set_sampling_freq stack dev =
      let (ret, odr, dev₁) = sensor_attr_get dev stack in
      if is_error ret || is_zero odr
      then (let (ret', dev₂) = sensor_attr_set dev₁ (record { val1 = pos 100; val2 = pos 0 }) in
          (pos 0, (if is_error ret' then frequency_failed (name dev) ∷ [] else []), dev₂))
      else (pos 0, [], dev₁)

  -- The loop over the channels; the error, if any, is the channel and its result.
  unfoldable pub read_channels :
      List Channel → Vector SensorValue → Dev → Option (Channel × ℤ) × Vector SensorValue × Dev
  read_channels [] accel dev = (none, accel, dev)
  read_channels (c ∷ cs) accel dev =
      let (ret, v, dev₁) = sensor_channel_get dev c (get c accel) in
      let rest = read_channels cs (put c v accel) dev₁ in
      if is_negative ret then (some (c, ret), put c v accel, dev₁) else rest

  abbrev pub channels_told :
      Name → Option (Channel × ℤ) × Vector SensorValue × Dev → ℤ × List (Line Name) × Dev
  channels_told n (some (c, ret), accel, dev) = (ret, get_failed n c ret ∷ [], dev)
  channels_told n (none, accel, dev) = (pos 0, sample n accel ∷ [], dev)

  -- `stack` is what `accel` holds at first.
  unfoldable pub print_accels : (stack : Vector SensorValue) → Dev → ℤ × List (Line Name) × Dev
  unfolding read_channels
  print_accels stack dev =
      let (ret, dev₁) = sensor_sample_fetch dev in
      if is_negative ret
      then (ret, fetch_failed (name dev) ret ∷ [], dev₁)
      else channels_told (name dev) (read_channels channels stack dev₁)

  -- The first loop of `main`; without a device at the end `main` has returned.
  unfoldable pub prepare : (stack : SensorValue) → List Dev → List (Line Name) × Option (List Dev)
  unfolding set_sampling_freq
  prepare stack [] = ([], some [])
  prepare stack (d ∷ ds) =
      let (rc, lines, d') = set_sampling_freq stack d in
      let (more, rest) = prepare stack ds in
      if not (device_is_ready d)
      then (not_ready (name d) ∷ [], none)
      else (lines ++ more, and_rest d' rest)

  -- The inner loop of the endless one.
  unfoldable pub round :
      (stack : Vector SensorValue) → List Dev → List (Line Name) × Option (List Dev)
  unfolding print_accels
  round stack [] = ([], some [])
  round stack (d ∷ ds) =
      let (ret, lines, d') = print_accels stack d in
      let (more, rest) = round stack ds in
      if is_negative ret then (lines, none) else (lines ++ more, and_rest d' rest)

  abbrev pub after_round :
      List (Line Name) × Option (List Dev)
      → (List Dev → List (Line Name) × Option (List Dev))
      → List (Line Name) × Option (List Dev)
  after_round (lines, none) next = (lines, none)
  after_round (lines, some ds) next = let (more, rest) = next ds in (lines ++ more, rest)

  -- So many turns of the endless loop, between which the program sleeps.
  unfoldable pub rounds :
      ℕ → (stack : Vector SensorValue) → List Dev → List (Line Name) × Option (List Dev)
  rounds zero stack ds = ([], some ds)
  rounds (suc n) stack ds = after_round (round stack ds) (rounds n stack)

  -- `main`, up to so many turns.
  unfoldable pub main_rounds :
      ℕ
      → (odr : SensorValue) → (stack : Vector SensorValue) → List Dev
      → List (Line Name) × Option (List Dev)
  unfolding prepare
  main_rounds n odr stack ds = after_round (prepare odr ds) (rounds n stack)
