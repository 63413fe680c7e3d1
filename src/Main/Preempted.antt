-- ===== src/Main/Preempted.antt =====
-- The publishing thread interrupted while it drains a queue.
use micro_ros_controller_fir.Prelude.{
  ℕ, ◌<◌, ◌≤◌, ◌≡◌, refl, ap, sym, Option, none, some, List, [], ◌∷◌, ◌++◌, arith, length,
  length-append,
}
use mathlib.Core.List.{append-nil, append_assoc}
use micro_ros_controller_fir.Hal.Queue.{MsgQueue}
use micro_ros_controller_fir.Main.Drain.{published, last_message}

-- The messages that arrive.
abbrev pub arrived : {A : Type 0} → List (Option A) → List A
arrived [] = []
arrived (none ∷ bs) = arrived bs
arrived (some a ∷ bs) = a ∷ arrived bs

module _ {A M : Type 0} {count : ℕ} (msgq : MsgQueue A count) (publish : A → M → M) where
  open msgq use {Queue, k_msgq_put, k_msgq_get, contents, get_none, get_some, put_room}

  -- The handler puts its message, if there is one.
  abbrev pub interrupted : Queue → Option A → Queue
  interrupted q none = q
  interrupted q (some a) = (k_msgq_put q a).1

  -- The test of the loop `while (k_msgq_get(...) == 0)` and its body, once for each element, after what
  -- arrives before it; where the queue is empty the thread polls and comes back.
  unfoldable pub gets : List (Option A) → Queue → M → List M × M × Queue
  gets [] q m = ([], m, q)
  gets (b ∷ bs) q m = elim (k_msgq_get (interrupted q b)) [
    | none ↦ gets bs (interrupted q b) m
    | some (a, q') ↦ let (ms, last, q'') = gets bs q' (publish a m) in (publish a m ∷ ms, last, q'')
  ]

  -- What was taken from the queue, and what is left in it.
  pub record Taken (all : List A) (m : M) (out : List M × M × Queue) : Type 0 where
    pub taken : List A
    pub sent : out.0 ≡ published publish m taken
    pub last : out.1 ≡ last_message publish m taken
    pub conserved : taken ++ contents out.2 ≡ all

  interrupted-contents :
      (q : Queue) (b : Option A) (bs : List (Option A))
      → length (contents q) < count
      → (contents (interrupted q b) ++ arrived bs ≡ contents q ++ arrived (b ∷ bs))
        × (length (contents (interrupted q b)) ≤ count)
  interrupted-contents q none bs h = (refl, omega arith)
  interrupted-contents q (some a) bs h =
      let (put, e) = put_room q a h in
      (
        rw (e, append_assoc (contents q) (a ∷ []) (arrived bs)) refl,
        rw e (omega (arith, length-append (contents q) (a ∷ []))),
      )

  -- One get, and what follows.
  get-Taken :
      (b : Option A) (bs : List (Option A)) (q : Queue) (m : M) (l : List A)
      → contents (interrupted q b) ≡ l
      → length l ≤ count
      → 0 < count
      → ((q' : Queue) (m' : M) (l' : List A)
          → contents q' ≡ l'
          → length l' < count
          → Taken (l' ++ arrived bs) m' (gets bs q' m'))
      → Taken (l ++ arrived bs) m (gets (b ∷ bs) q m)
  unfolding gets
  get-Taken b bs q m [] e k c ih =
      rw (get_none (interrupted q b) e, gets) (ih (interrupted q b) m [] e c)
  get-Taken b bs q m (a ∷ l) e k c ih =
      let (q', got, rest) = get_some (interrupted q b) a l e in
      let t = ih q' (publish a m) l rest (omega arith) in
      rw (got, gets)
        (record {
          taken = a ∷ t.taken;
          sent = ap (λ ms. publish a m ∷ ms) t.sent;
          last = t.last;
          conserved = ap (λ r. a ∷ r) t.conserved;
        })

  -- If at most one message arrives between two gets of the publishing thread and the queue is not full at
  -- first, none is lost: the messages that are published and then those left in the queue are those that
  -- it held at first and then those that arrived, each once and in order.
  pub gets-Taken :
      (bs : List (Option A)) (q : Queue) (m : M)
      → length (contents q) < count
      → Taken (contents q ++ arrived bs) m (gets bs q m)
  unfolding gets
  gets-Taken [] q m h = record {
    taken = [];
    sent = refl;
    last = refl;
    conserved = sym (append-nil (contents q));
  }
  gets-Taken (b ∷ bs) q m h =
      let (e, k) = interrupted-contents q b bs h in
      rw⁻¹ e (
        get-Taken b bs q m (contents (interrupted q b)) refl k (omega arith)
          (λ q' m' l' e' k'. rw⁻¹ e' (gets-Taken bs q' m' (rw e' k'))))
