-- ===== src/Samples/AccelPolling/Tests.antt =====
-- Two sensors, and a stream.
use micro_ros_controller_fir.Prelude.{
  ℕ, suc, ◌≡◌, refl, true, false, none, some, List, [], ◌∷◌, ltb, if◌then◌else◌,
}
use micro_ros_controller_fir.Prelude.Int.{pos, negsuc}
use micro_ros_controller_fir.Common.Types.{Vector}
use micro_ros_controller_fir.Samples.AccelPolling.{
  SensorValue, Driver, main_rounds, rounds, read_channels, print_accels, round,
}
use micro_ros_controller_fir.Samples.AccelPolling.Rounds.{KeepsName, all_sampled}
use micro_ros_controller_fir.Samples.AccelPolling.Prepared.{
  KeepsAttributeName, Course, main_rounds-Course,
}
use micro_ros_controller_fir.Samples.AccelPolling.Stream.{
  Frame, Completion, Held, stream_loop, print_accels_stream, first_failure, returned, held_after,
  stream_lem,
}

-- A sensor whose reading fails once it has been fetched a number of times.
pub record Sensor : Type 0 where
  pub number : ℕ
  pub fetches : ℕ
  pub limit : ℕ
  pub frequency : SensorValue

abbrev zero_frequency : SensorValue
zero_frequency = record { val1 = pos 0; val2 = pos 0 }

abbrev one_hundred : SensorValue
one_hundred = record { val1 = pos 100; val2 = pos 0 }

abbrev wearing : Driver Sensor ℕ
wearing = record {
  name = λ d. d.number;
  device_is_ready = λ d. true;
  sensor_attr_get = λ d v. (pos 0, d.frequency, d);
  sensor_attr_set = λ d v. (pos 0, record d { frequency = v });
  sensor_sample_fetch = λ d.
      (if ltb d.fetches d.limit then pos 0 else negsuc 4, record d { fetches = suc d.fetches });
  sensor_channel_get = λ d c v. (pos 0, one_hundred, d);
}

wearing-KeepsName : KeepsName wearing
wearing-KeepsName = record { by_fetch = λ d. refl; by_get = λ d c v. refl }

abbrev sensors : List Sensor
sensors =
    record { number = 0; fetches = 0; limit = 9; frequency = zero_frequency }
    ∷ record { number = 1; fetches = 0; limit = 1; frequency = one_hundred }
    ∷ []

abbrev nothing : Vector SensorValue
nothing = record { x = one_hundred; y = one_hundred; z = one_hundred }

-- The second sensor fails in the second round.
wearing_out :
    all_sampled (rounds wearing 3 nothing sensors).0 ≡ some 0 ∷ some 1 ∷ some 0 ∷ none ∷ []
unfolding rounds round print_accels read_channels
wearing_out = refl

wearing-KeepsAttributeName : KeepsAttributeName wearing
wearing-KeepsAttributeName = record { name_get = λ d s. refl; name_set = λ d v. refl }

main_rounds-Course_example :
    Course wearing zero_frequency wearing-KeepsAttributeName 3 sensors
      (main_rounds wearing 3 zero_frequency nothing sensors)
main_rounds-Course_example =
    main_rounds-Course wearing zero_frequency wearing-KeepsAttributeName wearing-KeepsName 3 nothing
      sensors

abbrev level : Frame
level = record {
  x = pos 0;
  y = pos 0;
  z = pos 9;
  shift = pos 4;
  base_timestamp_ns = 1000;
  timestamp_delta = 5;
}

abbrev completion : Completion
completion = record {
  result = pos 0;
  buffer_rc = pos 0;
  decoder_rc = pos 0;
  count_rc = pos 0;
  tap = false;
  frames = level ∷ level ∷ [];
}

abbrev completions : List Completion
completions =
    completion ∷ completion ∷ record completion { decoder_rc = negsuc 0 } ∷ completion ∷ []

abbrev none_held : Held
none_held = record { cqes = 0; buffers = 0 }

-- The buffer of the completion whose decoder is missing is not released.
one_left : (print_accels_stream completions none_held).2 ≡ record { cqes = 0; buffers = 1 }
unfolding print_accels_stream stream_loop
one_left = refl

stream_lem_example :
    let (rc, lines, h') = print_accels_stream completions none_held in
    (rc ≡ returned (first_failure completions))
    × (h' ≡ held_after none_held (first_failure completions))
stream_lem_example = stream_lem completions none_held
