-- ===== src/Samples/AccelPolling/Stream.antt =====
-- The stream of the polling sample (`print_accels_stream` of apps/accel_polling/src/main.c, built with
-- CONFIG_SENSOR_ASYNC_API). The RTIO context and the decoder are parameters: what their calls return for
-- one completion. What is held of the context is counted.
use micro_ros_controller_fir.Prelude.{
  ℕ, ◌+◌, ◌-◌, ◌%◌, ◌^◌, ◌≡◌, refl, Bool, true, false, Option, none, some, List, [], ◌∷◌, ◌++◌,
  arith, Bool-cases, inl, inr, if◌then◌else◌,
}
use micro_ros_controller_fir.Prelude.Int.{ℤ}
use micro_ros_controller_fir.Samples.Kernel.{is_error}

-- `struct sensor_three_axis_data`, with one reading.
pub record Frame : Type 0 where
  pub x : ℤ
  pub y : ℤ
  pub z : ℤ
  pub shift : ℤ
  pub base_timestamp_ns : ℕ
  pub timestamp_delta : ℕ

-- One completion: the results of the calls, and the frames that the decoder gives, as many as it counts.
pub record Completion : Type 0 where
  pub result : ℤ
  pub buffer_rc : ℤ
  pub decoder_rc : ℤ
  pub count_rc : ℤ
  pub tap : Bool
  pub frames : List Frame

pub data StreamLine : Type 0 where
  sensor_stream tap_line : StreamLine
  async_read_failed get_buffer_failed get_decoder_failed : (rc : ℤ) → StreamLine
  accel_data : (x y z shift : ℤ) → (ns : ℕ) → StreamLine

-- Completions and buffers that were taken from the context and not given back.
pub record Held : Type 0 where
  pub cqes : ℕ
  pub buffers : ℕ

-- The loop over the frames; the time is a `uint64_t`.
abbrev pub frame_lines : List Frame → List StreamLine
frame_lines [] = []
frame_lines (f ∷ fs) =
    accel_data f.x f.y f.z f.shift ((f.base_timestamp_ns + f.timestamp_delta) % 2 ^ 64)
    ∷ frame_lines fs

abbrev pub tap_lines : Bool → List StreamLine
tap_lines true = tap_line ∷ []
tap_lines false = []

-- The endless loop over the completions that come in: what it returns, unless it waits for another one.
unfoldable pub stream_loop : List Completion → Held → Option ℤ × List StreamLine × Held
stream_loop [] h = (none, [], h)
stream_loop (c ∷ cs) h =
    let consumed = record h { cqes = h.cqes + 1 } in
    let decoding = record consumed { cqes = consumed.cqes - 1; buffers = consumed.buffers + 1 } in
    let (rc, lines, h') = stream_loop cs (record decoding { buffers = decoding.buffers - 1 }) in
    if is_error c.result
    then (some c.result, async_read_failed c.result ∷ [], consumed)
    else if is_error c.buffer_rc
    then (some c.buffer_rc, get_buffer_failed c.buffer_rc ∷ [], consumed)
    else if is_error c.decoder_rc
    then (some c.decoder_rc, get_decoder_failed c.decoder_rc ∷ [], decoding)
    else if is_error c.count_rc
    then (some c.count_rc, get_decoder_failed c.count_rc ∷ [], decoding)
    else (rc, tap_lines c.tap ++ (frame_lines c.frames ++ lines), h')

-- The stream of the one sensor is started first.
unfoldable pub print_accels_stream : List Completion → Held → Option ℤ × List StreamLine × Held
print_accels_stream cs h = let (rc, lines, h') = stream_loop cs h in (rc, sensor_stream ∷ lines, h')

-- Where a completion fails, if it does.
pub data Failure : Type 0 where
  fine : Failure
  before_buffer with_buffer : (rc : ℤ) → Failure

abbrev pub failure_of : Completion → Failure
failure_of c =
    if is_error c.result
    then before_buffer c.result
    else if is_error c.buffer_rc
    then before_buffer c.buffer_rc
    else if is_error c.decoder_rc
    then with_buffer c.decoder_rc
    else if is_error c.count_rc
    then with_buffer c.count_rc
    else fine

abbrev pub first_unless : Failure → Failure → Failure
first_unless fine rest = rest
first_unless f rest = f

-- The first failure of all.
abbrev pub first_failure : List Completion → Failure
first_failure [] = fine
first_failure (c ∷ cs) = first_unless (failure_of c) (first_failure cs)

-- What the function returns, and what it holds then.
abbrev pub returned : Failure → Option ℤ
returned fine = none
returned (before_buffer rc) = some rc
returned (with_buffer rc) = some rc

abbrev pub held_after : Held → Failure → Held
held_after h fine = h
held_after h (before_buffer rc) = record h { cqes = h.cqes + 1 }
held_after h (with_buffer rc) = record h { buffers = h.buffers + 1 }

given_back : (n : ℕ) → n + 1 - 1 ≡ n
given_back n = omega arith

loop_lem :
    (cs : List Completion) (h : Held)
    → let (rc, lines, h') = stream_loop cs h in
      (rc ≡ returned (first_failure cs)) × (h' ≡ held_after h (first_failure cs))
unfolding stream_loop
loop_lem [] h = (refl, refl)
loop_lem (c ∷ cs) h =
    let (code, held) = loop_lem cs h in
    rw (given_back h.cqes, given_back h.buffers)
      elim (Bool-cases (is_error c.result)) [
        | inl e ↦ rw e (refl, refl)
        | inr e ↦ rw e elim (Bool-cases (is_error c.buffer_rc)) [
          | inl e₁ ↦ rw e₁ (refl, refl)
          | inr e₁ ↦ rw e₁ elim (Bool-cases (is_error c.decoder_rc)) [
            | inl e₂ ↦ rw e₂ (refl, refl)
            | inr e₂ ↦ rw e₂ elim (Bool-cases (is_error c.count_rc)) [
              | inl e₃ ↦ rw e₃ (refl, refl)
              | inr e₃ ↦ rw e₃ (code, held)
            ]
          ]
        ]
      ]

-- The stream returns the code of the first call that fails, whatever number of completions came before,
-- and waits for another completion as long as none fails. All that was taken from the context has been
-- given back, but for the completion if its result or the call for its buffer fails, and for the
-- buffer if the decoder fails.
pub stream_lem :
    (cs : List Completion) (h : Held)
    → let (rc, lines, h') = print_accels_stream cs h in
      (rc ≡ returned (first_failure cs)) × (h' ≡ held_after h (first_failure cs))
unfolding print_accels_stream
stream_lem cs h = loop_lem cs h
