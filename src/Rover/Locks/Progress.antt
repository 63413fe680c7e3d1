-- ===== src/Rover/Locks/Progress.antt =====
-- No order of the threads' calls leads to a deadlock.
use micro_ros_controller_fir.Prelude.{
  ℕ, zero, suc, ◌+◌, ◌<◌, ◌≤◌, ◌≡◌, refl, sym, ap, ◌⊎◌, inl, inr, true, some, List, [], ◌∷◌, length,
  arith, Bool-cases,
}
use mathlib.Core.Path.{subst}
use micro_ros_controller_fir.Rover.Locks.{
  Lock, cmd_mutex, wheel_state_mutex, monitor_lock, state_lock, odom_lock, diag_lock, fault_lock,
  LockCall, lock, unlock, Job,
}
use micro_ros_controller_fir.Rover.Locks.Ladder.{rung, all_below, climbs, jobs-climb}
use micro_ros_controller_fir.Rover.Locks.System.{
  Thread, holds, is_held, can_call, called, get_elem?, turn_in, step, after, start, remaining,
  AllDone,
}

-- Every thread goes on as the functions do.
abbrev pub AllClimb : List Thread → Type 0
AllClimb [] = Unit {0}
AllClimb (t ∷ ts) = (climbs t.held t.todo ≡ true) × AllClimb ts

start-AllClimb : (jss : List (List Job)) → AllClimb (start jss)
unfolding start
start-AllClimb [] = tt
start-AllClimb (js ∷ jss) = (jobs-climb js, start-AllClimb jss)

called-climbs :
    (held : List Lock) (cs : List LockCall)
    → climbs held cs ≡ true
    → let t = called held cs in climbs t.held t.todo ≡ true
unfolding climbs
called-climbs [] [] h = h
called-climbs (x ∷ held) [] h = h
called-climbs [] (lock l ∷ cs) h = h
called-climbs (x ∷ held) (lock l ∷ cs) h = ground arith
called-climbs [] (unlock l ∷ cs) h = cc
called-climbs (x ∷ held) (unlock l ∷ cs) h = ground arith

turn_in-AllClimb : (all ts : List Thread) (i : ℕ) → AllClimb ts → AllClimb (turn_in all ts i)
turn_in-AllClimb all [] i h = tt
turn_in-AllClimb all (t ∷ ts) zero (h, hs) = elim (Bool-cases (can_call all t.todo)) [
  | inl e ↦ simp e (called-climbs t.held t.todo h, hs)
  | inr e ↦ simp e (h, hs)
]
turn_in-AllClimb all (t ∷ ts) (suc i) (h, hs) = (h, turn_in-AllClimb all ts i hs)

after-AllClimb : (ts : List Thread) (is : List ℕ) → AllClimb ts → AllClimb (after ts is)
unfolding after step
after-AllClimb ts [] h = h
after-AllClimb ts (i ∷ is) h = after-AllClimb (turn_in ts ts i) is (turn_in-AllClimb ts ts i h)

-- A thread of a list.
record Found (ts : List Thread) (P : Thread → Type 0) : Type 0 where
  number : ℕ
  thread : Thread
  found : get_elem? ts number ≡ some thread
  holds_of : P thread

found_later : (t : Thread) (ts : List Thread) (P : Thread → Type 0) → Found ts P → Found (t ∷ ts) P
found_later t ts P f = record {
  number = suc f.number;
  thread = f.thread;
  found = f.found;
  holds_of = f.holds_of;
}

some_injective : (x t : Thread) → some x ≡ some t → x ≡ t
some_injective x t e = cc

found-climbs :
    (ts : List Thread) (i : ℕ) (t : Thread)
    → AllClimb ts
    → get_elem? ts i ≡ some t
    → climbs t.held t.todo ≡ true
found-climbs [] i t h e = cc
found-climbs (x ∷ ts) zero t (h, hs) e =
    subst (λ (u : Thread). climbs u.held u.todo ≡ true) (some_injective x t e) h
found-climbs (x ∷ ts) (suc i) t (h, hs) e = found-climbs ts i t hs e

-- A lock that is held is held by a thread.
holder : (l : Lock) (ts : List Thread) → is_held l ts ≡ true → Found ts (λ t. holds l t.held ≡ true)
holder l [] h = absurd (cc)
holder l (t ∷ ts) h = elim (Bool-cases (holds l t.held)) [
  | inl e ↦ record { number = 0; thread = t; found = refl; holds_of = e }
  | inr e ↦ found_later t ts _ (holder l ts (ground arith))
]

-- A lock that is held stands below one that may be taken.
holds-below :
    (l : Lock) (held : List Lock) (n : ℕ)
    → all_below held n ≡ true
    → holds l held ≡ true
    → rung l < n
holds-below l [] n h k = absurd (cc)
holds-below l (x ∷ held) n h k = ground (arith, holds-below l held n)

rung-le : (l : Lock) → rung l ≤ 6
rung-le cmd_mutex = omega arith
rung-le wheel_state_mutex = omega arith
rung-le monitor_lock = omega arith
rung-le state_lock = omega arith
rung-le odom_lock = omega arith
rung-le diag_lock = omega arith
rung-le fault_lock = omega arith

abbrev Ready : List Thread → Type 0
Ready ts = Found ts (λ t. can_call ts t.todo ≡ true)

-- What a thread that holds a lock does next: it can go on, or it asks for a lock further up.
next_call :
    (ts : List Thread) (l : Lock) (held : List Lock) (cs : List LockCall)
    → climbs held cs ≡ true
    → holds l held ≡ true
    → (can_call ts cs ≡ true) ⊎ ((l' : Lock) × (rung l < rung l') × (is_held l' ts ≡ true))
unfolding climbs
next_call ts l [] cs h k = absurd (cc)
next_call ts l (x ∷ held) [] h k = absurd (cc)
next_call ts l (x ∷ held) (unlock l' ∷ cs) h k = inl refl
next_call ts l (x ∷ held) (lock l' ∷ cs) h k = elim (Bool-cases (is_held l' ts)) [
  | inl e ↦ inr (l', holds-below l (x ∷ held) (rung l') (ground arith) k, e)
  | inr e ↦ inl (rw e refl)
]

-- Where a lock is held some thread can go on.
held-Ready :
    (n : ℕ) (ts : List Thread) (l : Lock)
    → 6 < rung l + n
    → AllClimb ts
    → is_held l ts ≡ true
    → Ready ts
held-Ready zero ts l b h k = absurd (omega (arith, rung-le l))
held-Ready (suc n) ts l b h k =
    let f = holder l ts k in
    let t = f.thread in
    elim (next_call ts l t.held t.todo (found-climbs ts f.number t h f.found) f.holds_of) [
      | inl r ↦ record { number = f.number; thread = t; found = f.found; holds_of = r }
      | inr (l', up, k') ↦ held-Ready n ts l' (omega arith) h k'
    ]

-- A thread is done, can go on, or waits for a lock that is held.
thread_now :
    (ts : List Thread) (held : List Lock) (cs : List LockCall)
    → climbs held cs ≡ true
    → ((held ≡ []) × (cs ≡ [])) ⊎ ((can_call ts cs ≡ true) ⊎ ((l : Lock) × (is_held l ts ≡ true)))
unfolding climbs
thread_now ts [] [] h = inl (refl, refl)
thread_now ts (x ∷ held) [] h = absurd (cc)
thread_now ts held (unlock l ∷ cs) h = inr (inl refl)
thread_now ts held (lock l ∷ cs) h = elim (Bool-cases (is_held l ts)) [
  | inl e ↦ inr (inr (l, e))
  | inr e ↦ inr (inl (rw e refl))
]

look :
    (all ts : List Thread)
    → AllClimb ts
    → AllDone ts
      ⊎ (Found ts (λ t. can_call all t.todo ≡ true) ⊎ ((l : Lock) × (is_held l all ≡ true)))
look all [] h = inl tt
look all (t ∷ ts) (h, hs) = elim (thread_now all t.held t.todo h) [
  | inr (inl r) ↦ inr (inl (record { number = 0; thread = t; found = refl; holds_of = r }))
  | inr (inr w) ↦ inr (inr w)
  | inl (e, e') ↦ elim (look all ts hs) [
    | inl d ↦ inl (e, e', d)
    | inr (inl f) ↦ inr (inl (found_later t ts _ f))
    | inr (inr w) ↦ inr (inr w)
  ]
]

-- Some thread can go on, or all are done.
progress : (ts : List Thread) → AllClimb ts → Ready ts ⊎ AllDone ts
progress ts h = elim (look ts ts h) [
  | inl d ↦ inr d
  | inr (inl r) ↦ inl r
  | inr (inr (l, e)) ↦ inl (held-Ready 7 ts l (omega arith) h e)
]

called-remaining :
    (all : List Thread) (held : List Lock) (cs : List LockCall)
    → can_call all cs ≡ true
    → length (called held cs).todo + 1 ≡ length cs
called-remaining all held [] h = absurd (cc)
called-remaining all held (lock l ∷ cs) h = omega arith
called-remaining all held (unlock l ∷ cs) h = omega arith

-- A call that can return is one less.
turn_in-remaining :
    (all ts : List Thread) (i : ℕ) (t : Thread)
    → get_elem? ts i ≡ some t
    → can_call all t.todo ≡ true
    → remaining (turn_in all ts i) + 1 ≡ remaining ts
turn_in-remaining all [] i t e h = absurd (cc)
turn_in-remaining all (x ∷ ts) zero t e h =
    let h' : can_call all x.todo ≡ true =
      subst (λ (u : Thread). can_call all u.todo ≡ true) (sym (some_injective x t e)) h in
    simp h' (omega (arith, called-remaining all x.held x.todo h'))
turn_in-remaining all (x ∷ ts) (suc i) t e h = omega (arith, turn_in-remaining all ts i t e h)

AllDone-remaining : (ts : List Thread) → AllDone ts → remaining ts ≡ 0
AllDone-remaining [] d = refl
AllDone-remaining (t ∷ ts) (e, e', d) = simp (e', AllDone-remaining ts d)

can_end :
    (n : ℕ) (ts : List Thread)
    → AllClimb ts
    → remaining ts ≡ n
    → (is : List ℕ) × (length is ≡ n) × AllDone (after ts is)
unfolding after step
can_end zero ts h e = elim (progress ts h) [
  | inl r ↦ absurd (omega (arith, turn_in-remaining ts ts r.number r.thread r.found r.holds_of))
  | inr d ↦ ([], refl, d)
]
can_end (suc n) ts h e = elim (progress ts h) [
  | inl r ↦
      let (is, len, done) =
        can_end n (turn_in ts ts r.number) (turn_in-AllClimb ts ts r.number h)
          (omega (arith, turn_in-remaining ts ts r.number r.thread r.found r.holds_of)) in
      (r.number ∷ is, ap suc len, done)
  | inr d ↦ absurd (omega (arith, AllDone-remaining ts d))
]

-- For any number of threads, each with any jobs, after any order of their calls, with whatever results
-- of the tests on the way: no thread is stuck. The threads can go on, in an order of exactly as many
-- calls as are left, so that none waits, until each has done all its jobs, and no lock is held then.
pub jobs_can_end :
    (jss : List (List Job)) (is : List ℕ)
    → (js : List ℕ) × (length js ≡ remaining (after (start jss) is))
      × AllDone (after (after (start jss) is) js)
jobs_can_end jss is =
    can_end (remaining (after (start jss) is)) (after (start jss) is)
      (after-AllClimb (start jss) is (start-AllClimb jss)) refl
