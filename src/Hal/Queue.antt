-- ===== src/Hal/Queue.antt =====
-- The kernel's message queue `k_msgq`, which is Zephyr's: its operations without waiting, with what its
-- documentation says of them. `contents` lists the messages in it, oldest first.
use micro_ros_controller_fir.Prelude.{
  ℕ, ◌≤◌, ◌<◌, ◌≡◌, Bool, true, false, Option, none, some, List, [], ◌∷◌, ◌++◌, length,
}

pub record MsgQueue (A : Type 0) (count : ℕ) : Type 1 where
  pub Queue : Type 0
  pub empty : Queue
  pub k_msgq_put : Queue → A → Bool × Queue
  pub k_msgq_get : Queue → Option (A × Queue)
  pub contents : Queue → List A
  pub empty_lem : contents empty ≡ []
  -- With room, a message is put behind the others; without, it is refused and the queue is unchanged.
  pub put_room :
      (q : Queue) (a : A)
      → length (contents q) < count
      → ((k_msgq_put q a).0 ≡ true) × (contents (k_msgq_put q a).1 ≡ contents q ++ (a ∷ []))
  pub put_full : (q : Queue) (a : A) → count ≤ length (contents q) → k_msgq_put q a ≡ (false, q)
  -- The oldest message is got, if there is one.
  pub get_none : (q : Queue) → contents q ≡ [] → k_msgq_get q ≡ none
  pub get_some :
      (q : Queue) (a : A) (rest : List A)
      → contents q ≡ a ∷ rest
      → (q' : Queue) × (k_msgq_get q ≡ some (a, q')) × (contents q' ≡ rest)
