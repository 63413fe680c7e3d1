-- ===== src/Ros/Node/Tests.antt =====
-- A concrete client library.
use micro_ros_controller_fir.Prelude.{ℕ, suc, ◌≡◌, refl, true, false, ltb}
use micro_ros_controller_fir.Common.Types.{success}
use micro_ros_controller_fir.Ros.Node.{
  ClientLibrary, Node, ros_node_init, init_node, init_executor, ros_node_get_handle,
  ros_node_get_allocator, ros_node_agent_connected, ros_node_thread,
}
use micro_ros_controller_fir.Ros.Node.Connection.{
  agent_connected_lem, spins, last_of, named, executing,
}

-- Structures that count, with an executor whose first two spins succeed.
abbrev counting : ClientLibrary ℕ ℕ ℕ ℕ ℕ
counting = record {
  print_ip = λ text p. suc p;
  print_port = λ text p. suc p;
  rcl_get_default_allocator = 7;
  rclc_support_init = λ a s. (true, suc s);
  rclc_node_init_default = λ name namespace s h. (true, suc h);
  rclc_executor_init = λ s handles a e. (true, 0);
  rclc_executor_spin_some = λ ns e. (ltb e 2, suc e);
}

abbrev cleared : Node ℕ ℕ ℕ ℕ ℕ
cleared = record {
  default_params = 0;
  transport_set = false;
  allocator = 0;
  support = 0;
  node = 0;
  executor = 0;
  agent_connected = false;
}

cleared_starts : (ros_node_init counting cleared).0 ≡ success
unfolding ros_node_init init_node init_executor
cleared_starts = refl

-- The third spin fails.
agent_connected_lem_example :
    let n' = ros_node_thread counting 3 (ros_node_init counting cleared).1 in
    (ros_node_get_handle counting n' ≡ (named counting cleared).1)
    × (ros_node_get_allocator counting n' ≡ 7)
    × (ros_node_agent_connected counting n'
        ≡ last_of counting false (spins counting 3 (executing counting cleared).1))
agent_connected_lem_example = agent_connected_lem counting cleared 3 cleared_starts
