-- ===== src/Ros/Node/Connection.antt =====
-- What the node tells of the agent.
use micro_ros_controller_fir.Prelude.{
  ℕ, zero, suc, ◌≡◌, refl, ◌∙◌, Bool, false, List, [], ◌∷◌, arith,
}
use micro_ros_controller_fir.Common.Types.{success}
use micro_ros_controller_fir.Ros.Node.{
  ClientLibrary, Node, executor_handles, spin_timeout_ms, ms_to_ns, ros_node_init, init_node,
  init_executor, ros_node_get_handle, ros_node_get_allocator, ros_node_agent_connected,
  ros_node_turn, ros_node_thread,
}

module _ {Params Allocator Support Handle Executor : Type 0}
    (lib : ClientLibrary Params Allocator Support Handle Executor) where
  -- The results of so many spins of an executor, the first one first.
  abbrev pub spins : ℕ → Executor → List Bool
  spins zero e = []
  spins (suc turns) e =
      let (ok, e') = lib.rclc_executor_spin_some (ms_to_ns spin_timeout_ms) e in ok ∷ spins turns e'

  -- The last element, or what there was before the list.
  abbrev pub last_of : Bool → List Bool → Bool
  last_of b [] = b
  last_of b (c ∷ cs) = last_of c cs

  module _ (n : Node Params Allocator Support Handle Executor) where
    -- What the three calls return, each on what those before it left.
    abbrev pub supported : Bool × Support
    supported = lib.rclc_support_init lib.rcl_get_default_allocator n.support

    abbrev pub named : Bool × Handle
    named = lib.rclc_node_init_default "rover_controller" "" supported.1 n.node

    abbrev pub executing : Bool × Executor
    executing =
        lib.rclc_executor_init supported.1 executor_handles lib.rcl_get_default_allocator n.executor

    init_lem :
        (ros_node_init lib n).0 ≡ success
        → let n' = (ros_node_init lib n).1 in
          (n'.node ≡ named.1)
          × (n'.executor ≡ executing.1)
          × (n'.allocator ≡ lib.rcl_get_default_allocator)
          × (n'.agent_connected ≡ false)
    unfolding ros_node_init init_node init_executor
    init_lem h = ground arith

  thread_lem :
      (turns : ℕ) (n : Node Params Allocator Support Handle Executor)
      → let n' = ros_node_thread lib turns n in
        (n'.node ≡ n.node)
        × (n'.allocator ≡ n.allocator)
        × (n'.agent_connected ≡ last_of n.agent_connected (spins turns n.executor))
  unfolding ros_node_thread ros_node_turn
  thread_lem zero n = (refl, refl, refl)
  thread_lem (suc turns) n = thread_lem turns (ros_node_turn lib n)

  -- If `ros_node_init` returns 0, then after any number of turns of the executor thread the other modules
  -- get the node handle that `rclc_node_init_default` made from the initialised support and the default
  -- allocator, and `ros_node_agent_connected` tells whether the last spin of the executor that
  -- `rclc_executor_init` made for 8 handles succeeded, or that the agent is not connected where there was
  -- no turn yet.
  pub agent_connected_lem :
      (n : Node Params Allocator Support Handle Executor) (turns : ℕ)
      → (ros_node_init lib n).0 ≡ success
      → let n' = ros_node_thread lib turns (ros_node_init lib n).1 in
        (ros_node_get_handle lib n' ≡ (named n).1)
        × (ros_node_get_allocator lib n' ≡ lib.rcl_get_default_allocator)
        × (ros_node_agent_connected lib n' ≡ last_of false (spins turns (executing n).1))
  unfolding ros_node_get_handle ros_node_get_allocator ros_node_agent_connected
  agent_connected_lem n turns h =
      let (node, executor, allocator, connected) = init_lem n h in
      let (node', allocator', connected') = thread_lem turns (ros_node_init lib n).1 in
      (node' ∙ node, allocator' ∙ allocator, connected' ∙ rw (connected, executor) refl)
