-- ===== src/Samples/AccelPolling/Prepared.antt =====
-- What `main` of the polling sample does from the start on.
use micro_ros_controller_fir.Prelude.{
  ℕ, ◌≡◌, ◌≢◌, refl, ap, ◌∙◌, ◌⊎◌, inl, inr, Bool-cases, Option, none, some, true, false, List, [],
  ◌∷◌, ◌++◌, arith, ◌||◌,
}
use micro_ros_controller_fir.Prelude.Int.{ℤ, pos}
use mathlib.Core.List.{append_assoc}
use micro_ros_controller_fir.Common.Types.{Vector}
use micro_ros_controller_fir.Samples.Kernel.{is_error}
use micro_ros_controller_fir.Samples.AccelPolling.{
  SensorValue, Line, not_ready, frequency_failed, Driver, is_zero, set_sampling_freq, prepare,
  rounds, main_rounds,
}
use micro_ros_controller_fir.Samples.AccelPolling.Rounds.{
  KeepsName, Outcome, each_once, times, rounds-Outcome,
}

-- The driver's attribute calls leave the device's name as it is.
pub record KeepsAttributeName {Dev Name : Type 0} (driver : Driver Dev Name) : Type 0 where
  pub name_get :
      (d : Dev) (s : SensorValue) → driver.name (driver.sensor_attr_get d s).2 ≡ driver.name d
  pub name_set :
      (d : Dev) (v : SensorValue) → driver.name (driver.sensor_attr_set d v).1 ≡ driver.name d

-- The frequency that `main` sets.
abbrev hundred : SensorValue
hundred = record { val1 = pos 100; val2 = pos 0 }

abbrev zero_frequency : SensorValue
zero_frequency = record { val1 = pos 0; val2 = pos 0 }

is_error-false : (rc : ℤ) → is_error rc ≡ false → rc ≡ pos 0
is_error-false rc h = ground arith

is_error-true : (rc : ℤ) → is_error rc ≡ true → rc ≢ pos 0
is_error-true rc h e = ground arith

is_zero-true : (v : SensorValue) → is_zero v ≡ true → v ≡ zero_frequency
is_zero-true v h = ground arith

is_zero-false : (v : SensorValue) → is_zero v ≡ false → v ≢ zero_frequency
is_zero-false v h e = ground arith

unusable-of :
    (rc : ℤ) (v : SensorValue)
    → (is_error rc || is_zero v) ≡ true
    → (rc ≢ pos 0) ⊎ (v ≡ zero_frequency)
unusable-of rc v h = elim (Bool-cases (is_error rc)) [
  | inl e ↦ inl (is_error-true rc e)
  | inr e ↦ inr (is_zero-true v (ground arith))
]

module _ {Dev Name : Type 0} (driver : Driver Dev Name) where
  open driver use {name, device_is_ready, sensor_attr_get, sensor_attr_set}

  -- The driver fails to give a frequency, or gives zero.
  pub record NoFrequency (odr : SensorValue) (d d₁ : Dev) : Type 0 where
    pub rc : ℤ
    pub value : SensorValue
    pub read : sensor_attr_get d odr ≡ (rc, value, d₁)
    pub unusable : (rc ≢ pos 0) ⊎ (value ≡ zero_frequency)

  -- How a device is configured, with what is printed and the device after it: the driver gives a
  -- frequency other than zero, and nothing is set; or it gives none, and one of 100 is set, with a
  -- warning if the driver refuses it. `odr` is what the variable for the frequency holds at first.
  pub data Configured (odr : SensorValue) (d : Dev) : List (Line Name) → Dev → Type 0 where
    has_frequency :
        (value : SensorValue) (d' : Dev)
        → sensor_attr_get d odr ≡ (pos 0, value, d')
        → value ≢ zero_frequency
        → Configured odr d [] d'
    frequency_set :
        (d₁ d' : Dev)
        → NoFrequency odr d d₁
        → sensor_attr_set d₁ hundred ≡ (pos 0, d')
        → Configured odr d [] d'
    refused :
        (rc : ℤ) (d₁ d' : Dev)
        → NoFrequency odr d d₁
        → sensor_attr_set d₁ hundred ≡ (rc, d')
        → rc ≢ pos 0
        → Configured odr d (frequency_failed (name d) ∷ []) d'

  abbrev pub AreReady : List Dev → Type 0
  AreReady [] = Unit {0}
  AreReady (d ∷ ds) = (device_is_ready d ≡ true) × AreReady ds

  -- The first device of a list that is not ready.
  record FirstUnready (ds : List Dev) : Type 0 where
    earlier : List Dev
    later : List Dev
    device : Dev
    split : ds ≡ earlier ++ device ∷ later
    ready : AreReady earlier
    not_so : device_is_ready device ≡ false

  first_unready : (ds : List Dev) → AreReady ds ⊎ FirstUnready ds
  first_unready [] = inl tt
  first_unready (d ∷ ds) = elim (Bool-cases (device_is_ready d)) [
    | inr e ↦
        inr (record { earlier = []; later = ds; device = d; split = refl; ready = tt; not_so = e })
    | inl h ↦ elim (first_unready ds) [
      | inl r ↦ inl (h, r)
      | inr u ↦ inr (record {
        earlier = d ∷ u.earlier;
        later = u.later;
        device = u.device;
        split = ap (λ l. d ∷ l) u.split;
        ready = (h, u.ready);
        not_so = u.not_so;
      })
    ]
  ]

  module _ (odr : SensorValue) where
    -- The warnings about the frequency, and the devices after it.
    abbrev pub warnings : List Dev → List (Line Name)
    warnings [] = []
    warnings (d ∷ ds) = (set_sampling_freq driver odr d).1 ++ warnings ds

    abbrev pub configured : List Dev → List Dev
    configured [] = []
    configured (d ∷ ds) = (set_sampling_freq driver odr d).2 ∷ configured ds

    abbrev pub AreConfigured : List Dev → Type 0
    AreConfigured [] = Unit {0}
    AreConfigured (d ∷ ds) =
        Configured odr d (set_sampling_freq driver odr d).1 (set_sampling_freq driver odr d).2
        × AreConfigured ds

    prepare_ready :
        (ds : List Dev) → AreReady ds → prepare driver odr ds ≡ (warnings ds, some (configured ds))
    unfolding prepare
    prepare_ready [] h = refl
    prepare_ready (d ∷ ds) (h, hs) = rw (h, prepare_ready ds hs) refl

    prepare_stops :
        (earlier later : List Dev) (d : Dev)
        → AreReady earlier
        → device_is_ready d ≡ false
        → prepare driver odr (earlier ++ d ∷ later)
          ≡ (warnings earlier ++ not_ready (name d) ∷ [], none)
    unfolding prepare
    prepare_stops [] later d h e = rw e refl
    prepare_stops (d₀ ∷ earlier) later d (h, hs) e =
        rw
          (
            h,
            prepare_stops earlier later d hs e,
            append_assoc (set_sampling_freq driver odr d₀).1 (warnings earlier)
                (not_ready (name d) ∷ []),
          )
          refl

    device-Configured :
        (d : Dev)
        → Configured odr d (set_sampling_freq driver odr d).1 (set_sampling_freq driver odr d).2
    unfolding set_sampling_freq
    device-Configured d =
        let (ret, v, d₁) = sensor_attr_get d odr in
        elim (Bool-cases (is_error ret || is_zero v)) [
          | inr good ↦ rw good (
              has_frequency v d₁ (ap (λ r. (r, v, d₁)) (is_error-false ret (ground arith)))
                (is_zero-false v (ground arith)))
          | inl bad ↦
              let no_frequency : NoFrequency odr d d₁ = record {
                rc = ret;
                value = v;
                read = refl;
                unusable = unusable-of ret v bad;
              } in
              elim (Bool-cases (is_error (sensor_attr_set d₁ hundred).0)) [
                | inl e ↦ rw (bad, e) (refused _ d₁ _ no_frequency refl (is_error-true _ e))
                | inr e ↦
                    rw (bad, e)
                      (frequency_set d₁ _ no_frequency
                        (ap (λ r. (r, (sensor_attr_set d₁ hundred).1)) (is_error-false _ e)))
              ]
        ]

    all-Configured : (ds : List Dev) → AreConfigured ds
    all-Configured [] = tt
    all-Configured (d ∷ ds) = (device-Configured d, all-Configured ds)

    module _ (laws : KeepsAttributeName driver) where
      open laws use {name_get, name_set}

      configured-name : (d : Dev) → name (set_sampling_freq driver odr d).2 ≡ name d
      unfolding set_sampling_freq
      configured-name d =
          let (ret, v, d₁) = sensor_attr_get d odr in
          elim (Bool-cases (is_error ret || is_zero v)) [
            | inr good ↦ rw good (name_get d odr)
            | inl bad ↦ rw bad (name_set d₁ hundred ∙ name_get d odr)
          ]

      configured-names : (ds : List Dev) → each_once driver (configured ds) ≡ each_once driver ds
      configured-names [] = refl
      configured-names (d ∷ ds) = rw (configured-name d, configured-names ds) refl

      -- The two ways in which `main` can go on: a sensor is not ready, or all are configured.
      pub data Course (n : ℕ) : List Dev → List (Line Name) × Option (List Dev) → Type 0 where
        unready :
            (earlier later : List Dev) (d : Dev)
            → AreReady earlier
            → device_is_ready d ≡ false
            → Course n (earlier ++ d ∷ later) (warnings earlier ++ not_ready (name d) ∷ [], none)
        sampling :
            (ds : List Dev) (lines : List (Line Name)) (rest : Option (List Dev))
            → AreReady ds
            → AreConfigured ds
            → Outcome driver
                (times driver n (each_once driver ds))
                (each_once driver ds)
                (lines, rest)
            → Course n ds (warnings ds ++ lines, rest)

      module _ (keeps : KeepsName driver) where
        ready-Course :
            (n : ℕ) (stack : Vector SensorValue) (ds : List Dev)
            → AreReady ds
            → Course n ds (main_rounds driver n odr stack ds)
        unfolding main_rounds
        ready-Course n stack ds r =
            let out = rounds driver n stack (configured ds) in
            let o = rounds-Outcome driver keeps n stack (configured ds) in
            rw (prepare_ready ds r)
              (sampling ds out.0 out.1 r (all-Configured ds) (rw⁻¹ (configured-names ds) o))

        stopped-Course :
            (n : ℕ) (stack : Vector SensorValue) (earlier later : List Dev) (d : Dev)
            → AreReady earlier
            → device_is_ready d ≡ false
            → Course n
                (earlier ++ d ∷ later)
                (main_rounds driver n odr stack (earlier ++ d ∷ later))
        unfolding main_rounds
        stopped-Course n stack earlier later d r e =
            rw (prepare_stops earlier later d r e) (unready earlier later d r e)

        -- If the driver's calls do not rename a device: with any number of turns of its endless loop
        -- `main` either prints the warnings of the sensors before the first one that is not ready and then
        -- that this one is not, and returns; or all are ready, for each of them the driver gives a sampling
        -- frequency other than zero and nothing is set, or it gives none and a frequency of 100 is set, with
        -- a warning exactly if the driver refuses it, and after the warnings each turn prints one sample of
        -- every sensor, in the order of the sensors, and the loop goes on, or else the output is those
        -- samples up to a sensor whose reading fails, then one error and nothing more, and `main` returns.
        pub main_rounds-Course :
            (n : ℕ) (stack : Vector SensorValue) (ds : List Dev)
            → Course n ds (main_rounds driver n odr stack ds)
        main_rounds-Course n stack ds = elim (first_unready ds) [
          | inl r ↦ ready-Course n stack ds r
          | inr u ↦ rw u.split (stopped-Course n stack u.earlier u.later u.device u.ready u.not_so)
        ]
