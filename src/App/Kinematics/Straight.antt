-- ===== src/App/Kinematics/Straight.antt =====
-- The two directions of the kinematics for a robot that drives straight on, in rounded arithmetic.
use micro_ros_controller_fir.Prelude.{◌≡◌, refl, some, true, arith}
use micro_ros_controller_fir.Common.Real.{Float, IsZero, KeepsZero}
use micro_ros_controller_fir.Common.Clamp.{Within, clamp-of_Within}
use micro_ros_controller_fir.Common.Types.{success, Motors, AllMotors, RobotCommand, RobotTwist}
use micro_ros_controller_fir.Common.Params.{wheel_radius_m, track_width_m, max_wheel_velocity_rad_s}
use micro_ros_controller_fir.App.Kinematics.{
  turn_speed, unclamped_wheels, kinematics_compute_wheel_velocities, kinematics_compute_twist,
}

-- Strictly between -1000 and 1000, so no NaN.
abbrev pub IsModerate : {F : Type 0} → Float F → F → Type 0
IsModerate fl x =
    (fl.lt (fl.neg (fl.decimal 1000 0)) x ≡ true) × (fl.lt x (fl.decimal 1000 0) ≡ true)

-- Operations that IEEE 754 does not round, for values that are far from an overflow: adding a zero to
-- another value, the two signs undone, a half of a double, and a difference of equal values.
pub record KeepsValue {F : Type 0} (fl : Float F) : Type 0 where
  pub add_zero :
      (x y : F) → IsModerate fl x → fl.ne x (fl.decimal 0 0) ≡ true → IsZero fl y → fl.add x y ≡ x
  pub sub_zero :
      (x y : F) → IsModerate fl x → fl.ne x (fl.decimal 0 0) ≡ true → IsZero fl y → fl.sub x y ≡ x
  pub plus_undone :
      (x : F) → IsModerate fl x → fl.div (fl.mul (fl.decimal 1 0) x) (fl.decimal 1 0) ≡ x
  pub minus_undone :
      (x : F)
      → IsModerate fl x
      → fl.div (fl.mul (fl.neg (fl.decimal 1 0)) x) (fl.neg (fl.decimal 1 0)) ≡ x
  pub half_double : (x : F) → IsModerate fl x → fl.div (fl.add x x) (fl.decimal 2 0) ≡ x
  pub sub_self : (x : F) → IsModerate fl x → IsZero fl (fl.sub x x)

module _ {F : Type 0} (fl : Float F) (zeros : KeepsZero fl) (values : KeepsValue fl) where
  open fl use {add, sub, mul, div, decimal}
  open zeros use {zero-mul, zero-div}
  open values use {add_zero, sub_zero, plus_undone, minus_undone, half_double, sub_self}

  turn-IsZero : (x : F) → IsZero fl x → IsZero fl (turn_speed fl x)
  unfolding turn_speed
  turn-IsZero x h = zero-div _ 2 0 (omega arith) (zero-mul x 30 2 (omega arith) h)

  -- With the laws of IEEE 754 for zeros and for operations that it does not round: for a command that
  -- is not zero and does not turn, if its velocity, the wheel velocity for it and what that comes to on
  -- the ground are between -1000 and 1000, and no wheel exceeds the maximal velocity, the twist computed
  -- from its wheel velocities does not turn, and its linear velocity is the one commanded but for the
  -- rounding of one division by the wheel radius and one multiplication with it.
  pub straight-twist :
      (cmd : RobotCommand F) (w₀ : Motors F) (t₀ : RobotTwist F)
      → let speed = div cmd.linear_x (wheel_radius_m fl) in
        let ground_speed = mul speed (wheel_radius_m fl) in
        IsModerate fl cmd.linear_x
        → fl.ne cmd.linear_x (decimal 0 0) ≡ true
        → IsZero fl cmd.angular_z
        → IsModerate fl speed
        → IsModerate fl ground_speed
        → AllMotors (Within fl (max_wheel_velocity_rad_s fl)) (unclamped_wheels fl cmd)
        → (omega : F) × IsZero fl omega
          × (kinematics_compute_twist fl
                (kinematics_compute_wheel_velocities fl (some cmd) (some w₀)).1
                (some t₀)
              ≡ (success, some (record { linear_x = ground_speed; angular_z = omega })))
  unfolding kinematics_compute_twist kinematics_compute_wheel_velocities unclamped_wheels
  straight-twist cmd w₀ t₀ m n z ms mg h =
      let t = turn-IsZero cmd.angular_z z in
      let ground_speed = mul (div cmd.linear_x (wheel_radius_m fl)) (wheel_radius_m fl) in
      (
        div (sub ground_speed ground_speed) (track_width_m fl),
        zero-div _ 30 2 (omega arith) (sub_self ground_speed mg),
        rw
            (
              clamp-of_Within fl (max_wheel_velocity_rad_s fl) _ h.0,
              clamp-of_Within fl (max_wheel_velocity_rad_s fl) _ h.1,
              sub_zero cmd.linear_x (turn_speed fl cmd.angular_z) m n t,
              add_zero cmd.linear_x (turn_speed fl cmd.angular_z) m n t,
              plus_undone (div cmd.linear_x (wheel_radius_m fl)) ms,
              minus_undone (div cmd.linear_x (wheel_radius_m fl)) ms,
              half_double ground_speed mg,
            )
            refl,
      )
