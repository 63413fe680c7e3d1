-- ===== src/Ros/Telemetry/Ready.antt =====
-- When the odometry and the wheel states are published, and what is in them.
use micro_ros_controller_fir.Prelude.{◌≡◌, refl, none, some, List, if◌then◌else◌, arith}
use micro_ros_controller_fir.Common.Real.{Float, Convert}
use micro_ros_controller_fir.Common.Types.{OdometryState}
use micro_ros_controller_fir.Common.Params.{zero_f}
use micro_ros_controller_fir.App.Odometry.{odometry_init, odometry_get}
use micro_ros_controller_fir.App.Odometry.Pose.{
  Call, calls, last_pose, last_stamp, calls-pose, calls-IsStill,
}
use micro_ros_controller_fir.Ros.Telemetry.{OdomMsg, odom_msg_of, odom_pub_publish}

module _ {F D : Type 0} (fl : Float F) (cv : Convert F D) where
  odom_if_valid :
      (stack o : OdometryState F) (msg : OdomMsg D)
      → (odom_pub_publish cv stack o msg).0 ≡ (if o.valid then some (odom_msg_of cv o) else none)
  unfolding odom_pub_publish odometry_get
  odom_if_valid stack o msg = ground arith

  -- After any history of the odometry since its initialisation, a message is published exactly if the
  -- last wheel state was valid, and it has the position of the last reset and a twist of zero.
  pub odom_published :
      (cs : List (Call F)) (stack : OdometryState F) (msg : OdomMsg D)
      → let pose = last_pose fl (odometry_init fl).pose cs in
        (odom_pub_publish cv stack (calls fl (odometry_init fl) cs) msg).0 ≡ (
          if (last_stamp fl (odometry_init fl).timestamp_ms (odometry_init fl).valid cs).1
          then some (record {
            position_x = cv.widen pose.x;
            position_y = cv.widen pose.y;
            position_z = cv.double 0 1;
            linear_x = cv.widen (zero_f fl);
            angular_z = cv.widen (zero_f fl);
          })
          else none)
  unfolding odometry_init
  odom_published cs stack msg =
      let (pose, stamp, valid) = calls-pose fl (odometry_init fl) cs in
      let still = calls-IsStill fl (odometry_init fl) cs refl in
      rw (odom_if_valid, pose, valid, still) refl
