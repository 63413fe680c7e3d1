-- ===== src/Main.antt =====
-- The entry point (apps/rover_controller/src/main.c): the initialisation of the layers, and the thread
-- that drains the sensor queues into the publishers.
pub mod Drain
pub mod Burst
pub mod Startup
pub mod Turn
pub mod Preempted
pub mod Sources
pub mod Delivered
pub mod Loop
mod Tests
use micro_ros_controller_fir.Prelude.{
  ℕ, zero, suc, Bool, true, false, not, Option, none, some, List, [], ◌∷◌, ◌++◌, if◌then◌else◌,
}
use micro_ros_controller_fir.Prelude.Int.{ℤ, negsuc}
use micro_ros_controller_fir.Common.Real.{Float, Convert}
use micro_ros_controller_fir.Common.Types.{Errno, Rc, success, failure, ImuSample, GnssFix}
use micro_ros_controller_fir.Hal.Queue.{MsgQueue}
use micro_ros_controller_fir.Hal.Imu.{imu_msgq_count}
use micro_ros_controller_fir.Hal.Gnss.{gnss_msgq_count}
use micro_ros_controller_fir.Ros.ImuPub.{ImuMsg, imu_pub_publish}
use micro_ros_controller_fir.Ros.GnssPub.{Constants, NavSatFix, gnss_pub_publish}

-- The calls of `initialize_layers`, in order.
pub data Layer : Type 0 where
  gnss imu ros_node imu_pub gnss_pub : Layer

-- One call and its check: what follows is called only if it returns 0.
abbrev pub then_init : (Layer → Rc) → Layer → Rc × List Layer → Rc × List Layer
then_init result layer rest = elim (result layer) [
  | success ↦ (rest.0, layer ∷ rest.1)
  | failure e ↦ (failure e, layer ∷ [])
]

-- `result` is what each call returns; the list holds the calls that are made.
unfoldable pub initialize_layers : (Layer → Rc) → Rc × List Layer
initialize_layers result = then_init result gnss (
    then_init result imu (
      then_init result ros_node
        (then_init result imu_pub (then_init result gnss_pub (success, [])))))

-- Whether `main` starts the threads, or returns -1 before that.
unfoldable pub main_starts : (Layer → Rc) → Bool
unfolding initialize_layers
main_starts result = elim (initialize_layers result).0 [ success ↦ true | failure e ↦ false ]

-- The calls of `main`: those of `initialize_layers`, `ros_node_start`, the `k_thread_create` of the
-- publishing thread, and `k_sleep`.
pub data MainCall : Type 0 where
  init : Layer → MainCall
  start_executor create_publisher : MainCall
  sleep_ms : ℕ → MainCall

unfoldable pub start_threads : List MainCall
start_threads = start_executor ∷ create_publisher ∷ []

-- The endless loop, for so many turns.
unfoldable pub sleep_forever : ℕ → List MainCall
sleep_forever zero = []
sleep_forever (suc turns) = sleep_ms 1000 ∷ sleep_forever turns

abbrev pub inits : List Layer → List MainCall
inits [] = []
inits (layer ∷ layers) = init layer ∷ inits layers

-- What `main` returns, if it does, and its calls, with so many turns of its endless loop.
unfoldable pub main_calls : (Layer → Rc) → ℕ → Option ℤ × List MainCall
unfolding main_starts
main_calls result turns =
    let calls = inits (initialize_layers result).1 in
    if main_starts result
    then (none, calls ++ start_threads ++ sleep_ms 100 ∷ sleep_forever turns)
    else (some (negsuc 0), calls)

-- The loops `while (k_msgq_get(...) == 0)`, over any queue and publisher, on fuel; `none` means that
-- the fuel ran out. The result is what was published, the publisher's message and the queue.
module _ {A M : Type 0} {count : ℕ} (msgq : MsgQueue A count) (publish : A → M → M) where
  open msgq use {Queue, k_msgq_get}

  abbrev pub publish_first : M → Option (List M × M × Queue) → Option (List M × M × Queue)
  publish_first m none = none
  publish_first m (some (ms, last, q)) = some (m ∷ ms, last, q)

  unfoldable pub drain : ℕ → Queue → M → Option (List M × M × Queue)
  drain zero q msg = none
  drain (suc fuel) q msg = elim (k_msgq_get q) [
    | none ↦ some ([], msg, q)
    | some (a, q') ↦ publish_first (publish a msg) (drain fuel q' (publish a msg))
  ]

module _ {F D : Type 0} (fl : Float F) (cv : Convert F D) (c : Constants)
    (imu_msgq : MsgQueue (ImuSample F) imu_msgq_count)
    (gnss_msgq : MsgQueue (GnssFix D) gnss_msgq_count) where
  -- The static messages of the two publishers, and the two queues.
  pub record Pipeline : Type 0 where
    pub imu_msg : ImuMsg D
    pub imu_queue : imu_msgq.Queue
    pub gnss_msg : NavSatFix D
    pub gnss_queue : gnss_msgq.Queue

  unfoldable pub drain_imu : ℕ → Bool → Pipeline → Option (List (ImuMsg D) × Pipeline)
  drain_imu fuel false p = some ([], p)
  drain_imu fuel true p = elim (drain imu_msgq (imu_pub_publish fl cv) fuel p.imu_queue p.imu_msg) [
    | none ↦ none
    | some (sent, msg, q) ↦ some (sent, record p { imu_msg = msg; imu_queue = q })
  ]

  unfoldable pub drain_gnss : ℕ → Bool → Pipeline → Option (List (NavSatFix D) × Pipeline)
  drain_gnss fuel false p = some ([], p)
  drain_gnss fuel true p =
      elim (drain gnss_msgq (gnss_pub_publish c) fuel p.gnss_queue p.gnss_msg) [
        | none ↦ none
        | some (sent, msg, q) ↦ some (sent, record p { gnss_msg = msg; gnss_queue = q })
      ]

  -- One turn of the publishing thread: `polled` tells whether `k_poll` returned 0, and the other two
  -- which of its events report data.
  unfoldable pub microros_publish_turn :
      ℕ
      → (polled imu_ready gnss_ready : Bool) → Pipeline
      → Option (List (ImuMsg D) × List (NavSatFix D) × Pipeline)
  unfolding drain_imu drain_gnss
  microros_publish_turn fuel false imu_ready gnss_ready p = some ([], [], p)
  microros_publish_turn fuel true imu_ready gnss_ready p = elim (drain_imu fuel imu_ready p) [
    | none ↦ none
    | some (imu_sent, p') ↦ elim (drain_gnss fuel gnss_ready p') [
      | none ↦ none
      | some (gnss_sent, p'') ↦ some (imu_sent, gnss_sent, p'')
    ]
  ]
