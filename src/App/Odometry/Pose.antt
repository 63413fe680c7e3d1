-- ===== src/App/Odometry/Pose.antt =====
-- What the odometry reports after a history of calls.
use micro_ros_controller_fir.Prelude.{◌≡◌, refl, Bool, Option, none, some, List, [], ◌∷◌}
use micro_ros_controller_fir.Prelude.Int.{ℤ}
use micro_ros_controller_fir.Common.Real.{Float}
use micro_ros_controller_fir.Common.Types.{WheelState, RobotPose, RobotTwist, OdometryState}
use micro_ros_controller_fir.Common.Params.{zero_f}
use micro_ros_controller_fir.App.Odometry.{odometry_reset, odometry_update}

pub data Call (F : Type 0) : Type 0 where
  reset : F → F → F → Call F
  update : Option (WheelState F) → Call F

module _ {F : Type 0} (fl : Float F) where
  pub calls : OdometryState F → List (Call F) → OdometryState F
  calls o [] = o
  calls o (reset x y theta ∷ cs) = calls (odometry_reset x y theta o) cs
  calls o (update w ∷ cs) = calls (odometry_update fl w o).1 cs

  -- The pose that the last reset gave, and the wheel state that the last update gave.
  abbrev pub last_pose : RobotPose F → List (Call F) → RobotPose F
  last_pose p [] = p
  last_pose p (reset x y theta ∷ cs) = last_pose (record { x = x; y = y; theta = theta }) cs
  last_pose p (update w ∷ cs) = last_pose p cs

  abbrev pub last_stamp : ℤ → Bool → List (Call F) → ℤ × Bool
  last_stamp t v [] = (t, v)
  last_stamp t v (reset x y theta ∷ cs) = last_stamp t v cs
  last_stamp t v (update none ∷ cs) = last_stamp t v cs
  last_stamp t v (update (some w) ∷ cs) = last_stamp w.timestamp_ms w.valid cs

  -- After any history of calls the odometry holds the pose of the last reset, whatever the wheels did
  -- since, and the stamp and validity of the last wheel state.
  pub calls-pose :
      (o : OdometryState F) (cs : List (Call F))
      → ((calls o cs).pose ≡ last_pose o.pose cs)
        × ((calls o cs).timestamp_ms ≡ (last_stamp o.timestamp_ms o.valid cs).0)
        × ((calls o cs).valid ≡ (last_stamp o.timestamp_ms o.valid cs).1)
  unfolding calls odometry_reset odometry_update
  calls-pose o [] = (refl, refl, refl)
  calls-pose o (reset x y theta ∷ cs) = calls-pose (odometry_reset x y theta o) cs
  calls-pose o (update none ∷ cs) = calls-pose o cs
  calls-pose o (update (some w) ∷ cs) = calls-pose (odometry_update fl (some w) o).1 cs

  -- A twist of zeros.
  abbrev pub IsStill : RobotTwist F → Type 0
  IsStill t = t ≡ record { linear_x = zero_f fl; angular_z = zero_f fl }

  pub calls-IsStill :
      (o : OdometryState F) (cs : List (Call F)) → IsStill o.twist → IsStill (calls o cs).twist
  unfolding calls odometry_reset odometry_update
  calls-IsStill o [] h = h
  calls-IsStill o (reset x y theta ∷ cs) h = calls-IsStill (odometry_reset x y theta o) cs h
  calls-IsStill o (update none ∷ cs) h = calls-IsStill o cs h
  calls-IsStill o (update (some w) ∷ cs) h = calls-IsStill (odometry_update fl (some w) o).1 cs refl
