-- ===== src/Ros/Node.antt =====
-- The micro-ROS node (apps/rover_controller/src/ros/node.c, node.h). The ROS client library and the
-- transport are parameters.
mod Connection
mod Tests
use Prim.Native.String.{String}
use micro_ros_controller_fir.Prelude.{ℕ, zero, suc, ◌*◌, Bool, true, false, not, if◌then◌else◌}
use micro_ros_controller_fir.Common.Types.{eio, Rc, success, failure}

-- The calls that `node.c` makes, on the transport's parameters and the library's four structures. The
-- Boolean tells whether a call returns RCL_RET_OK; a structure may change even if it does not.
pub record ClientLibrary (Params Allocator Support Handle Executor : Type 0) : Type 0 where
  -- `snprintf` into the two fields of `default_params`, which cuts the text to the field's size.
  pub print_ip : String → Params → Params
  pub print_port : String → Params → Params
  pub rcl_get_default_allocator : Allocator
  pub rclc_support_init : Allocator → Support → Bool × Support
  pub rclc_node_init_default : String → String → Support → Handle → Bool × Handle
  pub rclc_executor_init : Support → ℕ → Allocator → Executor → Bool × Executor
  -- The timeout is in nanoseconds.
  pub rclc_executor_spin_some : ℕ → Executor → Bool × Executor

-- The static variables, the transport's parameters, and whether the custom transport is set.
pub record Node (Params Allocator Support Handle Executor : Type 0) : Type 0 where
  pub default_params : Params
  pub transport_set : Bool
  pub allocator : Allocator
  pub support : Support
  pub node : Handle
  pub executor : Executor
  pub agent_connected : Bool

abbrev pub executor_handles : ℕ
executor_handles = 8

abbrev pub spin_timeout_ms : ℕ
spin_timeout_ms = 10

-- `RCL_MS_TO_NS`
abbrev pub ms_to_ns : ℕ → ℕ
ms_to_ns ms = ms * 1_000_000

module _ {Params Allocator Support Handle Executor : Type 0}
    (lib : ClientLibrary Params Allocator Support Handle Executor) where
  open lib use {
    print_ip, print_port, rcl_get_default_allocator, rclc_support_init, rclc_node_init_default,
    rclc_executor_init, rclc_executor_spin_some,
  }

  -- The three calls that can fail, each with what follows it.
  unfoldable pub init_executor :
      Node Params Allocator Support Handle Executor
      → Rc × Node Params Allocator Support Handle Executor
  init_executor n =
      let (ok, executor) = rclc_executor_init n.support executor_handles n.allocator n.executor in
      let n' = record n { executor = executor } in
      if not ok then (failure eio, n') else (success, record n' { agent_connected = false })

  unfoldable pub init_node :
      Node Params Allocator Support Handle Executor
      → Rc × Node Params Allocator Support Handle Executor
  unfolding init_executor
  init_node n =
      let (ok, handle) = rclc_node_init_default "rover_controller" "" n.support n.node in
      let n' = record n { node = handle } in
      let rest = init_executor n' in if not ok then (failure eio, n') else rest

  unfoldable pub ros_node_init :
      Node Params Allocator Support Handle Executor
      → Rc × Node Params Allocator Support Handle Executor
  unfolding init_node
  ros_node_init n =
      let a = rcl_get_default_allocator in
      let (ok, support) = rclc_support_init a n.support in
      let n' = record n {
        default_params = print_port "8888" (print_ip "10.42.0.1" n.default_params);
        transport_set = true;
        allocator = a;
        support = support;
      } in
      let rest = init_node n' in if not ok then (failure eio, n') else rest

  unfoldable pub ros_node_start : Rc
  ros_node_start = success

  unfoldable pub ros_node_get_executor : Node Params Allocator Support Handle Executor → Executor
  ros_node_get_executor n = n.executor

  unfoldable pub ros_node_get_handle : Node Params Allocator Support Handle Executor → Handle
  ros_node_get_handle n = n.node

  unfoldable pub ros_node_get_allocator : Node Params Allocator Support Handle Executor → Allocator
  ros_node_get_allocator n = n.allocator

  unfoldable pub ros_node_agent_connected : Node Params Allocator Support Handle Executor → Bool
  ros_node_agent_connected n = n.agent_connected

  -- One turn of the executor thread.
  unfoldable pub ros_node_turn :
      Node Params Allocator Support Handle Executor → Node Params Allocator Support Handle Executor
  ros_node_turn n =
      let (ok, executor) = rclc_executor_spin_some (ms_to_ns spin_timeout_ms) n.executor in
      record n { executor = executor; agent_connected = ok }

  -- The endless loop of `ros_node_thread_entry`, for so many turns.
  unfoldable pub ros_node_thread :
      ℕ
      → Node Params Allocator Support Handle Executor
      → Node Params Allocator Support Handle Executor
  ros_node_thread zero n = n
  ros_node_thread (suc turns) n = ros_node_thread turns (ros_node_turn n)
