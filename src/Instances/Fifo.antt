-- ===== src/Instances/Fifo.antt =====
-- A message queue as a list.
use micro_ros_controller_fir.Prelude.{
  ℕ, ◌≤◌, ◌<◌, ◌≡◌, refl, Bool, true, false, Option, none, some, List, [], ◌∷◌, ◌++◌, arith, length,
  ltb, if◌then◌else◌,
}
use micro_ros_controller_fir.Hal.Queue.{MsgQueue}

module _ {A : Type 0} (count : ℕ) where
  abbrev pub put : List A → A → Bool × List A
  put q a = if ltb (length q) count then (true, q ++ a ∷ []) else (false, q)

  abbrev pub get : List A → Option (A × List A)
  get [] = none
  get (a ∷ rest) = some (a, rest)

  pub fifo_put_room :
      (q : List A) (a : A) → length q < count → ((put q a).0 ≡ true) × ((put q a).1 ≡ q ++ a ∷ [])
  fifo_put_room q a h = ground arith

  pub fifo_put_full : (q : List A) (a : A) → count ≤ length q → put q a ≡ (false, q)
  fifo_put_full q a h = ground arith

  pub fifo_get-none : (q : List A) → q ≡ [] → get q ≡ none
  fifo_get-none q h = rw h

  pub fifo_get-some :
      (q : List A) (a : A) (rest : List A)
      → q ≡ a ∷ rest
      → (q' : List A) × (get q ≡ some (a, q')) × (q' ≡ rest)
  fifo_get-some q a rest h = (rest, rw h, refl)

abbrev pub fifo : (A : Type 0) (count : ℕ) → MsgQueue A count
fifo A count = record {
  Queue = List A;
  empty = [];
  k_msgq_put = put count;
  k_msgq_get = get count;
  contents = λ q. q;
  empty_lem = refl;
  put_room = fifo_put_room count;
  put_full = fifo_put_full count;
  get_none = fifo_get-none count;
  get_some = fifo_get-some count;
}
