-- ===== src/Rover/Interleaved/Callback.antt =====
-- The velocity callback (`cmd_vel_callback` of apps/rover_controller/src/ros/subscribers/cmd_vel_sub.c)
-- one access at a time.
use micro_ros_controller_fir.Prelude.{some, if◌then◌else◌}
use micro_ros_controller_fir.Prelude.Int.{ℤ}
use micro_ros_controller_fir.Common.Real.{Float, Convert}
use micro_ros_controller_fir.Safety.Monitor.{safety_monitor_motion_permitted}
use micro_ros_controller_fir.App.Command.{robot_command_set}
use micro_ros_controller_fir.App.StateMachine.{active, state_machine_get, state_machine_transition}
use micro_ros_controller_fir.Ros.CmdVel.{Twist, is_idle, command_of}
use micro_ros_controller_fir.Rover.State.{Rover}

pub data CallbackPc : Type 0 where
  waiting : CallbackPc  -- robot_command_set
  stored : CallbackPc  -- state_machine_get
  was_idle : CallbackPc  -- safety_monitor_motion_permitted
  permitted : CallbackPc  -- state_machine_transition

-- `twist` and `now` are what the first access of a callback takes.
unfoldable pub callback_move :
    {F D Dev : Type 0}
    → Float F
    → Convert F D
    → ℤ
    → Twist D
    → CallbackPc
    → Rover F Dev
    → Rover F Dev × CallbackPc
unfolding command_of state_machine_get
callback_move fl cv now twist waiting r = (
  record r { cmd_target = (robot_command_set fl now (some (command_of cv twist)) r.cmd_target).1 },
  stored,
)
callback_move fl cv now twist stored r =
    (r, if is_idle (state_machine_get r.current_state) then was_idle else waiting)
callback_move fl cv now twist was_idle r =
    (r, if safety_monitor_motion_permitted r.fault_word then permitted else waiting)
callback_move fl cv now twist permitted r =
    let (rc, state, word) = state_machine_transition r.current_state r.fault_word active in
    (record r { current_state = state; fault_word = word }, waiting)
