-- ===== src/Samples/AccelPolling/Rounds.antt =====
-- What the endless loop of the polling sample prints.
use mathlib.Core.List.{append_assoc}
use micro_ros_controller_fir.Prelude.{
  ℕ, zero, suc, ◌≡◌, refl, ap, sym, ◌∙◌, ◌⊎◌, inl, inr, true, false, Option, none, some, List, [],
  ◌∷◌, ◌++◌, Bool-cases, if◌then◌else◌,
}
use micro_ros_controller_fir.Prelude.Int.{ℤ}
use micro_ros_controller_fir.Common.Types.{Vector}
use micro_ros_controller_fir.Samples.Kernel.{is_negative}
use micro_ros_controller_fir.Samples.AccelPolling.{
  SensorValue, Channel, channels, get, put, Line, sample, Driver, read_channels, print_accels,
  round, rounds, and_rest, after_round, channels_told,
}

-- The driver's calls leave the device's name as it is.
pub record KeepsName {Dev Name : Type 0} (driver : Driver Dev Name) : Type 0 where
  pub by_fetch : (d : Dev) → driver.name (driver.sensor_sample_fetch d).1 ≡ driver.name d
  pub by_get :
      (d : Dev) (c : Channel) (v : SensorValue)
      → driver.name (driver.sensor_channel_get d c v).2 ≡ driver.name d

-- For each line the device whose sample it gives, if it gives one.
abbrev pub sampled : {Name : Type 0} → Line Name → Option Name
sampled (sample n v) = some n
sampled l = none

abbrev pub all_sampled : {Name : Type 0} → List (Line Name) → List (Option Name)
all_sampled [] = []
all_sampled (l ∷ ls) = sampled l ∷ all_sampled ls

all_sampled-append :
    {Name : Type 0} (l m : List (Line Name)) → all_sampled (l ++ m) ≡ all_sampled l ++ all_sampled m
all_sampled-append [] m = refl
all_sampled-append (x ∷ l) m = ap (λ r. sampled x ∷ r) (all_sampled-append l m)

-- A list stops short of another one: it ends with an error in the place of an element.
pub record StopsShort {A : Type 0} (expected got : List (Option A)) : Type 0 where
  pub before : List (Option A)
  pub missing : Option A
  pub after : List (Option A)
  pub got_lem : got ≡ before ++ (none ∷ [])
  pub expected_lem : expected ≡ before ++ (missing ∷ after)

module _ {A : Type 0} where
  StopsShort-append : (e f g : List (Option A)) → StopsShort e g → StopsShort (e ++ f) g
  StopsShort-append e f g s = record {
    before = s.before;
    missing = s.missing;
    after = s.after ++ f;
    got_lem = s.got_lem;
    expected_lem = rw (s.expected_lem, append_assoc s.before (s.missing ∷ s.after) f) refl;
  }

  StopsShort-later : (e f g : List (Option A)) → StopsShort f g → StopsShort (e ++ f) (e ++ g)
  StopsShort-later e f g s = record {
    before = e ++ s.before;
    missing = s.missing;
    after = s.after;
    got_lem = rw (s.got_lem, append_assoc e s.before (none ∷ [])) refl;
    expected_lem = rw (s.expected_lem, append_assoc e s.before (s.missing ∷ s.after)) refl;
  }

module _ {Dev Name : Type 0} (driver : Driver Dev Name) where
  open driver use {name, sensor_sample_fetch, sensor_channel_get}

  -- One sample of each device, in order.
  abbrev pub each_once : List Dev → List (Option Name)
  each_once [] = []
  each_once (d ∷ ds) = some (name d) ∷ each_once ds

  -- So many times over.
  abbrev pub times : ℕ → List (Option Name) → List (Option Name)
  times zero l = []
  times (suc n) l = l ++ times n l

  -- Either the loop goes on, all was printed and the devices have kept their names, or it is over and
  -- the output stops short with an error.
  abbrev pub Outcome :
      (expected names : List (Option Name)) → List (Line Name) × Option (List Dev) → Type 0
  Outcome expected names (lines, some ds) = (all_sampled lines ≡ expected) × (each_once ds ≡ names)
  Outcome expected names (lines, none) = StopsShort expected (all_sampled lines)

  -- One device is served after another.
  Outcome-and_rest :
      (p q : List (Option Name)) (n : Name) (d : Dev) (l m : List (Line Name))
      (rest : Option (List Dev))
      → all_sampled l ≡ some n ∷ []
      → name d ≡ n
      → Outcome p q (m, rest)
      → Outcome (some n ∷ p) (some n ∷ q) (l ++ m, and_rest d rest)
  Outcome-and_rest p q n d l m none h k s =
      rw (all_sampled-append l m, h) (StopsShort-later (some n ∷ []) p (all_sampled m) s)
  Outcome-and_rest p q n d l m (some ds) h k (a, b) =
      (rw (all_sampled-append l m, h, a) refl, rw (k, b) refl)

  -- One turn of the loop after another.
  Outcome-after_round :
      (p r q : List (Option Name)) (out : List (Line Name) × Option (List Dev))
      (next : List Dev → List (Line Name) × Option (List Dev))
      → Outcome p q out
      → ((ds : List Dev) → each_once ds ≡ q → Outcome r q (next ds))
      → Outcome (p ++ r) q (after_round driver out next)
  Outcome-after_round p r q (l, none) next s h = StopsShort-append p r (all_sampled l) s
  Outcome-after_round p r q (l, some ds) next (a, b) h = joined (next ds) (h ds b)
    where
      joined :
          (out : List (Line Name) × Option (List Dev))
          → Outcome r q out
          → Outcome (p ++ r) q (l ++ out.0, out.1)
      joined (m, none) s = rw (all_sampled-append l m, a) (StopsShort-later p r (all_sampled m) s)
      joined (m, some ds') (c, d) = (rw (all_sampled-append l m, a, c) refl, d)

  -- A device is served: one line, which gives a sample unless the result is negative.
  abbrev Told : Dev → ℤ × List (Line Name) × Dev → Type 0
  Told d (ret, lines, d') =
      ((is_negative ret ≡ true) × (all_sampled lines ≡ none ∷ []))
      ⊎ ((is_negative ret ≡ false) × (all_sampled lines ≡ some (name d) ∷ []) × (name d' ≡ name d))

  module _ (laws : KeepsName driver) where
    open laws use {by_fetch, by_get}

    read_channels-outcome :
        (cs : List Channel) (v : Vector SensorValue) (d : Dev)
        → let (e, v', d') = read_channels driver cs v d in
          ((c : Channel) × (rc : ℤ) × (e ≡ some (c, rc)) × (is_negative rc ≡ true))
          ⊎ ((e ≡ none) × (name d' ≡ name d))
    unfolding read_channels
    read_channels-outcome [] v d = inr (refl, refl)
    read_channels-outcome (c ∷ cs) v d =
        let (ret, x, d₁) = sensor_channel_get d c (get c v) in
        elim (Bool-cases (is_negative ret)) [
          | inl e ↦ rw e (inl (c, ret, refl, e))
          | inr e ↦ rw e (elim (read_channels-outcome cs (put c x v) d₁) [
            | inl h ↦ inl h
            | inr (a, b) ↦ inr (a, b ∙ by_get d c (get c v))
          ])
        ]

    channels_told-Told :
        (d d₁ : Dev) (v : Vector SensorValue)
        → name d₁ ≡ name d
        → Told d (channels_told driver (name d) (read_channels driver channels v d₁))
    channels_told-Told d d₁ v k =
        told (read_channels driver channels v d₁) (read_channels-outcome channels v d₁)
      where
        told :
            (out : Option (Channel × ℤ) × Vector SensorValue × Dev)
            → ((c : Channel) × (rc : ℤ) × (out.0 ≡ some (c, rc)) × (is_negative rc ≡ true))
              ⊎ ((out.0 ≡ none) × (name out.2 ≡ name d₁))
            → Told d (channels_told driver (name d) out)
        told (e, w, d') (inl (c, rc, a, b)) = rw a (inl (b, refl))
        told (e, w, d') (inr (a, b)) = rw a (inr (refl, refl, b ∙ k))

    print_accels-Told :
        (stack : Vector SensorValue) (d : Dev) → Told d (print_accels driver stack d)
    unfolding print_accels
    print_accels-Told stack d = elim (Bool-cases (is_negative (sensor_sample_fetch d).0)) [
      | inl e ↦ rw e (inl (e, refl))
      | inr e ↦ rw e (channels_told-Told d (sensor_sample_fetch d).1 stack (by_fetch d))
    ]

    -- What follows once a device has been served.
    served-Outcome :
        (d : Dev) (p : List (Option Name)) (out : ℤ × List (Line Name) × Dev)
        (rest : List (Line Name) × Option (List Dev))
        → Told d out
        → Outcome p p rest
        → let (ret, lines, d') = out in
          Outcome
            (some (name d) ∷ p)
            (some (name d) ∷ p)
            (if is_negative ret then (lines, none) else (lines ++ rest.0, and_rest d' rest.1))
    served-Outcome d p (ret, lines, d') rest (inl (e, h)) o = rw e (record {
      before = [];
      missing = some (name d);
      after = p;
      got_lem = h;
      expected_lem = refl;
    })
    served-Outcome d p (ret, lines, d') (more, rest) (inr (e, h, k)) o =
        rw e (Outcome-and_rest p p (name d) d' lines more rest h k o)

    round-Outcome :
        (stack : Vector SensorValue) (ds : List Dev)
        → Outcome (each_once ds) (each_once ds) (round driver stack ds)
    unfolding round
    round-Outcome stack [] = (refl, refl)
    round-Outcome stack (d ∷ ds) =
        served-Outcome d (each_once ds) (print_accels driver stack d) (round driver stack ds)
          (print_accels-Told stack d) (round-Outcome stack ds)

    -- If the driver's calls do not rename the device: in any number of turns each prints one sample of
    -- every sensor, in the order of the sensors, and the loop goes on; or else the output is the samples
    -- up to a sensor whose reading fails, then one error and nothing more, and `main` returns.
    pub rounds-Outcome :
        (n : ℕ) (stack : Vector SensorValue) (ds : List Dev)
        → Outcome (times n (each_once ds)) (each_once ds) (rounds driver n stack ds)
    unfolding rounds
    rounds-Outcome zero stack ds = (refl, refl)
    rounds-Outcome (suc n) stack ds =
        Outcome-after_round (each_once ds) (times n (each_once ds)) (each_once ds)
          (round driver stack ds) (rounds driver n stack) (round-Outcome stack ds)
          (λ ds' e. rw (sym e) (rounds-Outcome n stack ds'))
