-- ===== src/Rover/Locks/System.antt =====
-- Threads that take and give back locks, in any order of their calls. A thread that asks for a lock
-- that is held, by another or by itself, waits: its turn in a schedule changes nothing.
use micro_ros_controller_fir.Prelude.{
  ℕ, zero, suc, ◌+◌, ◌≡◌, Bool, true, false, not, ◌||◌, Option, none, some, List, [], ◌∷◌, length,
  ◌==◌, if◌then◌else◌,
}
use micro_ros_controller_fir.Rover.Locks.{Lock, LockCall, lock, unlock, Job, jobs_locks}
use micro_ros_controller_fir.Rover.Locks.Ladder.{rung}

-- The locks that a thread holds, the latest first, and its further calls.
pub record Thread : Type 0 where
  pub held : List Lock
  pub todo : List LockCall

-- Locks are told apart by their places in the order.
abbrev pub holds : Lock → List Lock → Bool
holds l [] = false
holds l (h ∷ held) = rung h == rung l || holds l held

abbrev pub is_held : Lock → List Thread → Bool
is_held l [] = false
is_held l (t ∷ ts) = holds l t.held || is_held l ts

abbrev pub give_back : Lock → List Lock → List Lock
give_back l [] = []
give_back l (h ∷ held) = let rest = give_back l held in if rung h == rung l then held else h ∷ rest

-- The next call can return.
abbrev pub can_call : List Thread → List LockCall → Bool
can_call ts [] = false
can_call ts (lock l ∷ cs) = not (is_held l ts)
can_call ts (unlock l ∷ cs) = true

abbrev pub called : List Lock → List LockCall → Thread
called held [] = record { held = held; todo = [] }
called held (lock l ∷ cs) = record { held = l ∷ held; todo = cs }
called held (unlock l ∷ cs) = record { held = give_back l held; todo = cs }

abbrev pub call : Thread → Thread
call t = called t.held t.todo

abbrev pub get_elem? : List Thread → ℕ → Option Thread
get_elem? [] i = none
get_elem? (t ∷ ts) zero = some t
get_elem? (t ∷ ts) (suc i) = get_elem? ts i

-- The thread with a number makes its next call, if that can return; `all` are the threads.
abbrev pub turn_in : List Thread → List Thread → ℕ → List Thread
turn_in all [] i = []
turn_in all (t ∷ ts) zero = (if can_call all t.todo then call t else t) ∷ ts
turn_in all (t ∷ ts) (suc i) = t ∷ turn_in all ts i

unfoldable pub step : List Thread → ℕ → List Thread
step ts i = turn_in ts ts i

-- The threads after a schedule, which names the thread that is next.
unfoldable pub after : List Thread → List ℕ → List Thread
unfolding step
after ts [] = ts
after ts (i ∷ is) = after (step ts i) is

-- Threads with jobs, before the first of them.
unfoldable pub start : List (List Job) → List Thread
start [] = []
start (js ∷ jss) = record { held = []; todo = jobs_locks js } ∷ start jss

-- The calls that are left.
abbrev pub remaining : List Thread → ℕ
remaining [] = 0
remaining (t ∷ ts) = length t.todo + remaining ts

-- Every thread is at the end of its jobs and holds no lock.
abbrev pub AllDone : List Thread → Type 0
AllDone [] = Unit {0}
AllDone (t ∷ ts) = (t.held ≡ []) × (t.todo ≡ []) × AllDone ts
