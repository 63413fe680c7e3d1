-- ===== src/Ros/Telemetry.antt =====
-- The publishers of the rover's own state (apps/rover_controller/src/ros/publishers: heartbeat_pub.c,
-- odom_pub.c, wheel_states_pub.c, diagnostics_pub.c). Each keeps a static message, of which only the
-- fields that the code writes are held here; a publication returns the message that `rcl_publish` is
-- given, if any, and the static message after it. Local structures that the code does not initialise
-- are arguments, `stack`.
pub mod Heartbeat
pub mod Ready
pub mod Wheels
mod Tests
use micro_ros_controller_fir.Prelude.{
  ℕ, suc, ◌-◌, ◌%◌, ◌^◌, Bool, true, false, not, ◌||◌, Option, none, some, List, [], ◌∷◌,
  if◌then◌else◌,
}
use micro_ros_controller_fir.Prelude.Int.{ℤ, pos, negsuc}
use micro_ros_controller_fir.Common.Real.{Convert}
use micro_ros_controller_fir.Common.Types.{
  Errno, eio, Rc, success, failure, written, WheelState, OdometryState, DiagnosticFlags,
}
use micro_ros_controller_fir.App.Odometry.{odometry_get}
use micro_ros_controller_fir.App.Diagnostics.{diagnostics_update, diagnostics_get}
use micro_ros_controller_fir.App.ControlLoop.{control_loop_get_wheel_state}

-- `rc != 0`
abbrev pub failed : Rc → Bool
failed success = false
failed (failure e) = true

-- The common part of the `_pub_init` functions: the result of `rclc_publisher_init_default`.
unfoldable pub publisher_init : Bool → Rc
publisher_init created = if not created then failure eio else success

unfoldable pub diagnostics_pub_init : Bool → Rc
unfolding publisher_init
diagnostics_pub_init created = publisher_init created

-- An `int64_t` as a `uint32_t`, the type of `msg.data`.
abbrev pub to_uint32 : ℤ → ℕ
to_uint32 (pos n) = n % 2 ^ 32
to_uint32 (negsuc n) = 2 ^ 32 - 1 - n % 2 ^ 32

-- The result and the data of the message, at the time `now`.
unfoldable pub heartbeat_pub_init : ℤ → Bool → ℕ → Rc × ℕ
unfolding publisher_init
heartbeat_pub_init now created msg_data =
    if failed (publisher_init created)
    then (publisher_init created, msg_data)
    else (success, to_uint32 now)

-- The data that is published, which also stays in the message.
unfoldable pub heartbeat_pub_publish : ℤ → ℕ
heartbeat_pub_publish now = to_uint32 now

pub record OdomMsg (D : Type 0) : Type 0 where
  pub position_x : D
  pub position_y : D
  pub position_z : D
  pub linear_x : D
  pub angular_z : D

module _ {F D : Type 0} (cv : Convert F D) where
  open cv use {widen, double}

  abbrev pub odom_msg_of : OdometryState F → OdomMsg D
  odom_msg_of odom = record {
    position_x = widen odom.pose.x;
    position_y = widen odom.pose.y;
    position_z = double 0 1;
    linear_x = widen odom.twist.linear_x;
    angular_z = widen odom.twist.angular_z;
  }

  unfoldable pub odom_pub_publish :
      (stack odom_state : OdometryState F) → OdomMsg D → Option (OdomMsg D) × OdomMsg D
  odom_pub_publish stack odom_state msg =
      let got = odometry_get (some stack) odom_state in
      let odom = written stack got in
      if failed got.0 || not odom.valid
      then (none, msg)
      else (some (odom_msg_of odom), odom_msg_of odom)

-- `joint_names`
pub data JointName : Type 0 where
  front_left_wheel front_right_wheel rear_left_wheel rear_right_wheel : JointName

abbrev pub joint_names : List JointName
joint_names = front_left_wheel ∷ front_right_wheel ∷ rear_left_wheel ∷ rear_right_wheel ∷ []

-- The arrays of the `sensor_msgs/JointState`.
pub record JointState (D : Type 0) : Type 0 where
  pub name : List JointName
  pub position : List D
  pub velocity : List D

unfoldable pub wheel_states_pub_init : {D : Type 0} → Bool → JointState D → Rc × JointState D
unfolding publisher_init
wheel_states_pub_init created msg =
    if failed (publisher_init created)
    then (publisher_init created, msg)
    else (success, record msg { name = joint_names })

unfoldable pub wheel_states_pub_publish :
    {F D : Type 0}
    → (stack latest_wheel_state : WheelState F) → JointState D
    → Option (JointState D) × JointState D
wheel_states_pub_publish stack latest_wheel_state msg =
    let got = control_loop_get_wheel_state (some stack) latest_wheel_state in
    let wheels = written stack got in
    if failed got.0 || not wheels.valid then (none, msg) else (some msg, msg)

-- The message is empty in the code; the result tells whether it is published, and is also the flags
-- after the update.
unfoldable pub diagnostics_pub_publish :
    (stack : DiagnosticFlags) → ℕ → DiagnosticFlags → Bool × DiagnosticFlags
diagnostics_pub_publish stack fault_word diag_flags =
    let updated = diagnostics_update fault_word diag_flags in
    (not (failed (diagnostics_get (some stack) updated).0), updated)
