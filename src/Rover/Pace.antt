-- ===== src/Rover/Pace.antt =====
-- How often the two endless loops check in with the watchdog: the thread of app/control_loop.c makes a
-- turn and sleeps for CONTROL_LOOP_PERIOD_MS, the thread of safety/safety_monitor.c makes a turn, which
-- feeds the watchdog, and sleeps for SAFETY_MONITOR_PERIOD_MS. `k_sleep` sleeps at least that long.
use micro_ros_controller_fir.Prelude.{
  ℕ, suc, zero, refl, ◌+◌, ◌-◌, ◌*◌, ◌≤◌, ◌<◌, ◌≡◌, Bool, true, false, ◌||◌, if◌then◌else◌, List,
  [], ◌∷◌, length, arith,
}
use micro_ros_controller_fir.Common.Real.{Float, Convert}
use micro_ros_controller_fir.Common.Params.{safety_monitor_period_ms}
use micro_ros_controller_fir.App.ControlLoop.{MotorDrive, control_loop_period_ms}
use micro_ros_controller_fir.Rover.State.{Rover}
use micro_ros_controller_fir.Rover.Threads.{Event, safety, control}
use micro_ros_controller_fir.Rover.Feeding.{controlled, feedings, feedings-controlled}

pub data Thread : Type 0 where
  control_loop safety_monitor : Thread

-- The time that a thread sleeps after each of its turns.
abbrev pub period_ms : Thread → ℕ
period_ms control_loop = control_loop_period_ms
period_ms safety_monitor = safety_monitor_period_ms

abbrev pub is_turn : {F D : Type 0} → Thread → Event F D → Bool
is_turn control_loop (control now_zero now stack_wheels stack_feedback) = true
is_turn safety_monitor (safety now) = true
is_turn t e = false

-- Each event with the milliseconds that have passed since the one before it.
abbrev pub Timed : Type 0 → Type 0 → Type 0
Timed F D = List (ℕ × Event F D)

abbrev pub untimed : {F D : Type 0} → Timed F D → List (Event F D)
untimed [] = []
untimed ((d, e) ∷ es) = e ∷ untimed es

-- The time since the last turn of a thread, `a` before the event.
abbrev pub since : {F D : Type 0} → Thread → ℕ → ℕ → Event F D → ℕ
since t a d e = if is_turn t e then 0 else a + d

-- A thread's next turn never comes later than `limit` after the last one.
abbrev pub Within : {F D : Type 0} → Thread → ℕ → ℕ → Timed F D → Type 0
Within t limit a [] = Unit {0}
Within t limit a ((d, e) ∷ es) = (a + d ≤ limit) × Within t limit (since t a d e) es

-- A thread's next turn never comes earlier than `gap` after the last one.
abbrev pub Apart : {F D : Type 0} → Thread → ℕ → ℕ → Timed F D → Type 0
Apart t gap a [] = Unit {0}
Apart t gap a ((d, e) ∷ es) = (is_turn t e ≡ true → gap ≤ a + d) × Apart t gap (since t a d e) es

-- No two rounds in a row find the watchdog not to be feedable; the Boolean tells of the round before.
abbrev pub NoTwoMissed : Bool → List Bool → Type 0
NoTwoMissed fed [] = Unit {0}
NoTwoMissed fed (b ∷ bs) = (fed || b ≡ true) × NoTwoMissed b bs

-- How many rounds feed the watchdog.
abbrev pub fed_rounds : List Bool → ℕ
fed_rounds [] = 0
fed_rounds (true ∷ bs) = suc (fed_rounds bs)
fed_rounds (false ∷ bs) = fed_rounds bs

-- Without a turn of the control loop since the last round, its last turn lies back as far as that round;
-- if that round was missed, `gap` further.
abbrev IsBack : ℕ → Bool → Bool → ℕ → ℕ → Type 0
IsBack gap true fed a b = Unit {0}
IsBack gap false true a b = b ≤ a
IsBack gap false false a b = b + gap ≤ a

IsBack-later :
    (gap : ℕ) (c fed : Bool) (a b d : ℕ) → IsBack gap c fed a b → IsBack gap c fed (a + d) (b + d)
IsBack-later gap true fed a b d h = tt
IsBack-later gap false true a b d h = omega arith
IsBack-later gap false false a b d h = omega arith

round_fed :
    (gap limit : ℕ) (c fed : Bool) (a b d : ℕ)
    → limit < gap + gap
    → IsBack gap c fed a b
    → a + d ≤ limit
    → gap ≤ b + d
    → (fed || c ≡ true) × IsBack gap false c (a + d) 0
round_fed gap limit true true a b d short h w p = (refl, omega arith)
round_fed gap limit true false a b d short h w p = (refl, omega arith)
round_fed gap limit false true a b d short h w p = (refl, omega arith)
round_fed gap limit false false a b d short h w p = absurd (omega arith)

controlled-NoTwoMissed :
    {F D : Type 0} (gap limit : ℕ) (c fed : Bool) (a b : ℕ) (es : Timed F D)
    → limit < gap + gap
    → IsBack gap c fed a b
    → Within control_loop limit a es
    → Apart safety_monitor gap b es
    → NoTwoMissed fed (controlled c (untimed es))
controlled-NoTwoMissed gap limit c fed a b [] short h w p = tt
controlled-NoTwoMissed gap limit c fed a b ((d, safety now) ∷ es) short h (w, ws) (p, ps) =
    let (ok, h') = round_fed gap limit c fed a b d short h w (p refl) in
    (ok, controlled-NoTwoMissed gap limit false c (a + d) 0 es short h' ws ps)
controlled-NoTwoMissed gap limit c fed a b ((d, control z n sw sf) ∷ es) short h (w, ws) (p, ps) =
    controlled-NoTwoMissed gap limit true fed 0 (b + d) es short tt ws ps
controlled-NoTwoMissed gap limit c fed a b ((d, e) ∷ es) short h (w, ws) (p, ps) =
    controlled-NoTwoMissed gap limit c fed (a + d) (b + d) es short (IsBack-later gap c fed a b d h)
      ws ps

fed_rounds-length : (bs : List Bool) → fed_rounds bs ≤ length bs
fed_rounds-length [] = omega arith
fed_rounds-length (true ∷ bs) = omega (arith, fed_rounds-length bs)
fed_rounds-length (false ∷ bs) = omega (arith, fed_rounds-length bs)

-- What a check-in that is already there is worth.
abbrev credit : Bool → ℕ → ℕ
credit true gap = gap
credit false gap = 0

-- `f` rounds of `n` are fed, and the last turn of the safety monitor lies `b` back.
abbrev IsShare : (gap limit : ℕ) → Bool → (a b f n : ℕ) → Type 0
IsShare gap limit c a b f n = f * gap ≤ (n * limit - b) + a + credit c gap

IsShare-round :
    (gap limit : ℕ) (c : Bool) (a b d : ℕ) (bs : List Bool)
    → b + d ≤ limit
    → IsShare gap limit false (a + d) 0 (fed_rounds bs) (length bs)
    → IsShare gap limit c a b (fed_rounds (c ∷ bs)) (suc (length bs))
IsShare-round gap limit true a b d bs w h = omega (arith, h, w)
IsShare-round gap limit false a b d bs w h = omega (arith, h, w)

IsShare-turn :
    (gap limit : ℕ) (c : Bool) (a b d f n : ℕ)
    → f ≤ n
    → gap ≤ a + d
    → b + d ≤ limit
    → IsShare gap limit true 0 (b + d) f n
    → IsShare gap limit c a b f n
IsShare-turn gap limit c a b d zero zero le p w h = omega arith
IsShare-turn gap limit c a b d (suc f) zero le p w h = absurd (omega (arith, le))
IsShare-turn gap limit true a b d f (suc n) le p w h = omega (arith, h, w, p)
IsShare-turn gap limit false a b d f (suc n) le p w h = omega (arith, h, w, p)

IsShare-later :
    (gap limit : ℕ) (c : Bool) (a b d f n : ℕ)
    → f ≤ n
    → b + d ≤ limit
    → IsShare gap limit c (a + d) (b + d) f n
    → IsShare gap limit c a b f n
IsShare-later gap limit c a b d zero zero le w h = omega arith
IsShare-later gap limit c a b d (suc f) zero le w h = absurd (omega (arith, le))
IsShare-later gap limit true a b d f (suc n) le w h = omega (arith, h, w)
IsShare-later gap limit false a b d f (suc n) le w h = omega (arith, h, w)

controlled-IsShare :
    {F D : Type 0} (gap limit : ℕ) (c : Bool) (a b : ℕ) (es : Timed F D)
    → Apart control_loop gap a es
    → Within safety_monitor limit b es
    → let bs = controlled c (untimed es) in IsShare gap limit c a b (fed_rounds bs) (length bs)
controlled-IsShare gap limit c a b [] p w = omega arith
controlled-IsShare gap limit c a b ((d, safety now) ∷ es) (p, ps) (w, ws) =
    IsShare-round gap limit c a b d (controlled false (untimed es)) w
      (controlled-IsShare gap limit false (a + d) 0 es ps ws)
controlled-IsShare gap limit c a b ((d, control z n sw sf) ∷ es) (p, ps) (w, ws) =
    IsShare-turn gap limit c a b d _ _ (fed_rounds-length (controlled true (untimed es))) (p refl) w
      (controlled-IsShare gap limit true 0 (b + d) es ps ws)
controlled-IsShare gap limit c a b ((d, e) ∷ es) (p, ps) (w, ws) =
    IsShare-later gap limit c a b d _ _ (fed_rounds-length (controlled c (untimed es))) w
      (controlled-IsShare gap limit c (a + d) (b + d) es ps ws)

module _ {F D Dev : Type 0} (fl : Float F) (cv : Convert F D) (drive : MotorDrive F Dev) where
  -- If the turns of the safety monitor are at least its sleep apart, and the next turn of the control loop
  -- never comes later than `limit` after the last one, which is less than two of these sleeps: then in
  -- every run no two rounds in a row find the watchdog not to be feedable. The last turn of the control
  -- loop before the run lies `a` back, that of the safety monitor `b`; if the control loop is not checked
  -- in, its turn is not the later one.
  pub two_rounds-fed :
      (r : Rover F Dev) (s c : Bool) (limit a b : ℕ) (es : Timed F D)
      → r.checkins ≡ s ∷ c ∷ []
      → (c ≡ false → b ≤ a)
      → limit < period_ms safety_monitor + period_ms safety_monitor
      → Within control_loop limit a es
      → Apart safety_monitor (period_ms safety_monitor) b es
      → NoTwoMissed true (feedings fl cv drive r (untimed es))
  two_rounds-fed r s c limit a b es h later short w p =
      rw (feedings-controlled fl cv drive r s c (untimed es) h) (
        controlled-NoTwoMissed (period_ms safety_monitor) limit c true a b es short (starts c later)
          w p)
    where
      starts : (c : Bool) → (c ≡ false → b ≤ a) → IsBack (period_ms safety_monitor) c true a b
      starts true later = tt
      starts false later = later refl

  -- If the control loop is not checked in, its last turn lies `a` back, its turns are at least `gap` apart,
  -- and the next turn of the safety monitor never comes later than `limit` after the last one, which lies
  -- `b` back: then in every run, of `n` rounds so many find the watchdog to be feedable that `gap` times
  -- their number is at most `n * limit + a`.
  pub fed_rounds-bound :
      (r : Rover F Dev) (s : Bool) (gap limit a b : ℕ) (es : Timed F D)
      → r.checkins ≡ s ∷ false ∷ []
      → Apart control_loop gap a es
      → Within safety_monitor limit b es
      → let fed = feedings fl cv drive r (untimed es) in
        fed_rounds fed * gap ≤ length fed * limit + a
  fed_rounds-bound r s gap limit a b es h p w =
      let share = controlled-IsShare gap limit false a b es p w in
      rw (feedings-controlled fl cv drive r s false (untimed es) h) (omega (arith, share))
