-- ===== src/Main/Drain.antt =====
-- What the publishing thread does with the queues.
use micro_ros_controller_fir.Prelude.{
  ℕ, zero, suc, ◌+◌, ◌-◌, ◌≤◌, ◌<◌, ◌≡◌, refl, ap, ◌∙◌, Option, some, List, [], ◌∷◌, ◌++◌, arith,
  length, length-append, take, take-all, take-cons, take-nil,
}
use mathlib.Core.List.{append-nil, append_assoc}
use native.Mathlib.Decide.{dec_lt}
use micro_ros_controller_fir.Hal.Queue.{MsgQueue}
use micro_ros_controller_fir.Main.{drain}

module _ {A M : Type 0} (publish : A → M → M) where
  -- What is published for a list of messages, and the publisher's message after it.
  abbrev pub published : M → List A → List M
  published m [] = []
  published m (a ∷ rest) = publish a m ∷ published (publish a m) rest

  abbrev pub last_message : M → List A → M
  last_message m [] = m
  last_message m (a ∷ rest) = last_message (publish a m) rest

-- What two batches in a row publish.
pub published-append :
    {A M : Type 0} (publish : A → M → M) (m : M) (xs ys : List A)
    → published publish m (xs ++ ys)
      ≡ published publish m xs ++ published publish (last_message publish m xs) ys
published-append publish m [] ys = refl
published-append publish m (a ∷ xs) ys =
    ap (λ ms. publish a m ∷ ms) (published-append publish (publish a m) xs ys)

module _ {A M : Type 0} {count : ℕ} (msgq : MsgQueue A count) (publish : A → M → M) where
  open msgq use {
    Queue, empty, k_msgq_put, k_msgq_get, contents, get_none, get_some, put_room, put_full,
  }

  -- What draining a queue that holds the given messages returns.
  pub record Drained (m : M) (batch : List A) (out : Option (List M × M × Queue)) : Type 0 where
    pub rest : Queue
    pub result : out ≡ some (published publish m batch, last_message publish m batch, rest)
    pub nothing_left : contents rest ≡ []

  -- With more fuel than there are messages, draining a queue publishes each message in it once, oldest
  -- first, and empties it.
  pub drain-Drained :
      (batch : List A) (fuel : ℕ) (q : Queue) (m : M)
      → contents q ≡ batch
      → length batch < fuel
      → Drained m batch (drain msgq publish fuel q m)
  unfolding drain
  drain-Drained batch zero q m h l = elim l [ ]
  drain-Drained [] (suc fuel) q m h l = record {
    rest = q;
    result = rw (get_none q h, drain);
    nothing_left = h;
  }
  drain-Drained (a ∷ batch) (suc fuel) q m h l =
      let (q', got, left) = get_some q a batch h in
      let d = drain-Drained batch fuel q' (publish a m) left (omega arith) in
      record { rest = d.rest; result = rw (got, drain, d.result); nothing_left = d.nothing_left }

module _ {A : Type 0} {count : ℕ} (msgq : MsgQueue A count) where
  open msgq use {Queue, k_msgq_put, contents, put_room, put_full}

  -- Messages are put into a queue one after another, without waiting.
  abbrev pub arrivals : Queue → List A → Queue
  arrivals q [] = q
  arrivals q (a ∷ batch) = arrivals (k_msgq_put q a).1 batch

  -- What has room in a queue.
  abbrev pub room : Queue → ℕ
  room q = count - length (contents q)

  put_kept :
      (q : Queue) (a : A) (batch : List A)
      → length (contents q) < count
      → contents (k_msgq_put q a).1 ++ take (room (k_msgq_put q a).1) batch
        ≡ contents q ++ take (room q) (a ∷ batch)
  put_kept q a batch h =
      let e : count - length (contents q ++ a ∷ []) ≡ room q - 1 =
        omega (arith, length-append (contents q) (a ∷ [])) in
      rw (take-cons (room q) a batch (omega arith), (put_room q a h).1, append_assoc, e)

  put_dropped :
      (q : Queue) (a : A) (batch : List A)
      → count ≤ length (contents q)
      → contents (k_msgq_put q a).1 ++ take (room (k_msgq_put q a).1) batch
        ≡ contents q ++ take (room q) (a ∷ batch)
  put_dropped q a batch h =
      let e : room q ≡ 0 = omega arith in rw (ap (λ p. p.1) (put_full q a h), e)

  -- Of the messages that arrive those are kept for which there is room, which are the first ones.
  pub contents-arrivals :
      (batch : List A) (q : Queue) → contents (arrivals q batch) ≡ contents q ++ take (room q) batch
  contents-arrivals [] q = rw (take-nil A (room q), append-nil (contents q))
  contents-arrivals (a ∷ batch) q =
      contents-arrivals batch (k_msgq_put q a).1 ∙ elim (dec_lt (length (contents q)) count) [
        | yes h ↦ put_kept q a batch h
        | no h ↦ put_dropped q a batch (omega arith)
      ]

-- A queue that has room for all that arrives keeps it.
pub arrivals_fit :
    {A : Type 0} {count : ℕ} (msgq : MsgQueue A count) (q : msgq.Queue) (batch : List A)
    → length (msgq.contents q) + length batch ≤ count
    → msgq.contents (arrivals msgq q batch) ≡ msgq.contents q ++ batch
arrivals_fit msgq q batch h =
    rw (contents-arrivals msgq batch q, take-all (room msgq q) batch (omega (arith, h))) refl
