-- ===== src/Common/Types.antt =====
-- The structures of apps/rover_controller/src/common/robot_types.h and
-- apps/rover_controller/src/hal/sensor_types.h, over the type `F` of `float` and `D` of `double`.
use micro_ros_controller_fir.Prelude.{ℕ, Bool, Option, none, some}
use micro_ros_controller_fir.Prelude.Int.{ℤ}

-- The errors that the code returns, as negative numbers.
pub data Errno : Type 0 where
  eperm eio enodev einval : Errno

-- An `int` result: 0, or a negative errno.
pub data Rc : Type 0 where
  success : Rc
  failure : Errno → Rc

-- A getter with an output pointer: NULL is refused, and a variable is overwritten by what is stored.
abbrev pub get_out : {A : Type 0} → Option A → A → Rc × Option A
get_out none stored = (failure einval, none)
get_out (some out) stored = (success, some stored)

-- The variable after such a call, which leaves it alone if nothing is written.
abbrev pub written : {A : Type 0} → A → Rc × Option A → A
written old (rc, none) = old
written old (rc, some new) = new

-- An array of ROVER_NUM_MOTORS elements, indexed by `enum rover_motor_id`.
pub record Motors (A : Type 0) : Type 0 where
  pub front_left : A
  pub front_right : A
  pub rear_left : A
  pub rear_right : A

-- A loop over the motors that treats each element alone.
abbrev pub for_motors : {A B : Type 0} → (A → B) → Motors A → Motors B
for_motors f a = record {
  front_left = f a.front_left;
  front_right = f a.front_right;
  rear_left = f a.rear_left;
  rear_right = f a.rear_right;
}

abbrev pub for_motors₂ : {A B C : Type 0} → (A → B → C) → Motors A → Motors B → Motors C
for_motors₂ f a b = record {
  front_left = f a.front_left b.front_left;
  front_right = f a.front_right b.front_right;
  rear_left = f a.rear_left b.rear_left;
  rear_right = f a.rear_right b.rear_right;
}

-- All four elements satisfy a predicate.
abbrev pub AllMotors {ℓ} : {A : Type 0} → (A → Type ℓ) → Motors A → Type ℓ
AllMotors P a = P a.front_left × P a.front_right × P a.rear_left × P a.rear_right

pub record RobotCommand (F : Type 0) : Type 0 where
  pub linear_x : F
  pub angular_z : F
  pub timestamp_ms : ℤ
  pub valid : Bool

pub record MotorFeedback (F : Type 0) : Type 0 where
  pub position_rad : F
  pub velocity_rad_s : F
  pub current_a : F
  pub fault_flags : ℕ
  pub valid : Bool

pub record WheelState (F : Type 0) : Type 0 where
  pub position_rad : Motors F
  pub velocity_rad_s : Motors F
  pub timestamp_ms : ℤ
  pub valid : Bool

pub record RobotPose (F : Type 0) : Type 0 where
  pub x : F
  pub y : F
  pub theta : F

pub record RobotTwist (F : Type 0) : Type 0 where
  pub linear_x : F
  pub angular_z : F

pub record OdometryState (F : Type 0) : Type 0 where
  pub pose : RobotPose F
  pub twist : RobotTwist F
  pub timestamp_ms : ℤ
  pub valid : Bool

pub record DiagnosticFlags : Type 0 where
  pub imu_ok : Bool
  pub gnss_ok : Bool
  pub battery_ok : Bool
  pub motors_ok : Bool
  pub agent_connected : Bool
  pub estop_active : Bool
  pub cmd_timeout : Bool
  pub undervoltage : Bool
  pub overcurrent : Bool

-- `float v[3]`
pub record Vector (F : Type 0) : Type 0 where
  pub x : F
  pub y : F
  pub z : F

pub record ImuSample (F : Type 0) : Type 0 where
  pub accel : Vector F
  pub gyro : Vector F
  pub mag : Vector F
  pub timestamp_ms : ℤ

pub record GnssFix (D : Type 0) : Type 0 where
  pub latitude : D
  pub longitude : D
  pub altitude : D
  pub quality : ℕ  -- uint8_t
  pub num_satellites : ℕ  -- uint8_t
  pub timestamp_ms : ℤ

pub record BatteryState (F : Type 0) : Type 0 where
  pub voltage_v : F
  pub current_a : F
  pub power_w : F
  pub soc : F
  pub status_flags : ℕ  -- uint32_t
  pub timestamp_ms : ℤ
