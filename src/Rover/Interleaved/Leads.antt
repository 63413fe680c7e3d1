-- ===== src/Rover/Interleaved/Leads.antt =====
-- What the actions of a system lead to, and the accesses of an uninterrupted thread as its actions.
use micro_ros_controller_fir.Prelude.{
  ℕ, zero, suc, ◌≡◌, refl, sym, ap, ◌∙◌, Option, none, some, List, [], ◌∷◌, ◌++◌, ◌⊎◌, inl, inr,
}
use micro_ros_controller_fir.Common.Real.{Float, Convert}
use micro_ros_controller_fir.App.ControlLoop.{MotorDrive}
use micro_ros_controller_fir.Rover.State.{Rover}
use micro_ros_controller_fir.Rover.Interleaved.Control.{
  MotorId, Inputs, ControlPc, resting, fetched, allowed, refused, sending, reading, notifying,
  recording, integrating, checking_in, control_move,
}
use micro_ros_controller_fir.Rover.Interleaved.Callback.{CallbackPc, waiting}
use micro_ros_controller_fir.Rover.Interleaved.Monitor.{MonitorPc, asleep}
use micro_ros_controller_fir.Rover.Interleaved.System.{System, Action, control_loop, advance, after}
use micro_ros_controller_fir.Rover.Interleaved.Alone.{Trace, collect, until_resting, alone}

-- The same action a number of times.
abbrev pub repeat : {A : Type 0} → ℕ → A → List A
repeat zero a = []
repeat (suc n) a = a ∷ repeat n a

-- No thread is in the middle of its accesses.
abbrev pub at_rest : {F Dev : Type 0} → Rover F Dev → System F Dev
at_rest r = record { rover = r; control = resting; callback = waiting; monitor = asleep }

abbrev pub note : {A : Type 0} → Option A → List A → List A
note none l = l
note (some a) l = a ∷ l

module _ {F D Dev : Type 0} (fl : Float F) (cv : Convert F D) (drive : MotorDrive F Dev) where
  -- What is sent to the motors, in order.
  unfoldable pub sent : System F Dev → List (Action F D) → List (MotorId × F)
  sent s [] = []
  sent s (a ∷ acts) = note (advance fl cv drive a s).0 (sent (advance fl cv drive a s).1 acts)

  note-append : {A : Type 0} (o : Option A) (xs ys : List A) → note o (xs ++ ys) ≡ note o xs ++ ys
  note-append none xs ys = refl
  note-append (some a) xs ys = refl

  pub after-append :
      (s : System F Dev) (acts acts' : List (Action F D))
      → after fl cv drive s (acts ++ acts') ≡ after fl cv drive (after fl cv drive s acts) acts'
  unfolding after
  after-append s [] acts' = refl
  after-append s (a ∷ acts) acts' = after-append (advance fl cv drive a s).1 acts acts'

  pub sent-append :
      (s : System F Dev) (acts acts' : List (Action F D))
      → sent s (acts ++ acts') ≡ sent s acts ++ sent (after fl cv drive s acts) acts'
  unfolding sent after
  sent-append s [] acts' = refl
  sent-append s (a ∷ acts) acts' =
      rw
        (
          sent-append (advance fl cv drive a s).1 acts acts',
          note-append (advance fl cv drive a s).0 (sent (advance fl cv drive a s).1 acts)
              (sent (after fl cv drive (advance fl cv drive a s).1 acts) acts'),
        )
        refl

  -- From one system the actions lead to another and send these velocities.
  abbrev pub Leads : System F Dev → List (Action F D) → System F Dev → List (MotorId × F) → Type 0
  Leads s acts s' out = (after fl cv drive s acts ≡ s') × (sent s acts ≡ out)

  -- Whether a turn is over or goes on.
  until_resting-cases :
      (more : ControlPc F → Rover F Dev → Trace F Dev) (pc : ControlPc F) (r : Rover F Dev)
      → (until_resting more pc r ≡ more pc r)
        ⊎ ((pc ≡ resting) × (until_resting more pc r ≡ some ([], r)))
  until_resting-cases more resting r = inr (refl, refl)
  until_resting-cases more (fetched cmd) r = inl refl
  until_resting-cases more (allowed cmd) r = inl refl
  until_resting-cases more (refused cmd) r = inl refl
  until_resting-cases more (sending i w) r = inl refl
  until_resting-cases more (reading i w f) r = inl refl
  until_resting-cases more (notifying w f) r = inl refl
  until_resting-cases more (recording w f) r = inl refl
  until_resting-cases more integrating r = inl refl
  until_resting-cases more checking_in r = inl refl

  collect-some :
      (o : Option (MotorId × F)) (t : Trace F Dev) (out : List (MotorId × F)) (r' : Rover F Dev)
      → collect o t ≡ some (out, r')
      → (rest : List (MotorId × F)) × (t ≡ some (rest, r')) × (note o rest ≡ out)
  collect-some none t out r' h = (out, h, refl)
  collect-some (some x) none out r' h = absurd (cc)
  collect-some (some x) (some (rest, r)) out r' h = (rest, cc, cc)

  end_of :
      (r r' : Rover F Dev) (rest : List (MotorId × F))
      → ◌≡◌ {A = Trace F Dev} (some ([], r)) (some (rest, r'))
      → (◌≡◌ {A = List (MotorId × F)} [] rest) × (r ≡ r')
  end_of r r' rest h = (cc, cc)

  -- The accesses of a turn that is not interrupted, as actions of the system.
  pub alone-Leads :
      (inputs : Inputs F) (k : ℕ) (pc : ControlPc F) (r r' : Rover F Dev) (out : List (MotorId × F))
      (cb : CallbackPc) (m : MonitorPc F)
      → alone fl drive inputs k pc r ≡ some (out, r')
      → (n : ℕ) × Leads
          (record { rover = r; control = pc; callback = cb; monitor = m })
          (repeat n (control_loop inputs))
          (record { rover = r'; control = resting; callback = cb; monitor = m })
          out
  unfolding alone after advance sent
  alone-Leads inputs zero pc r r' out cb m h = absurd (cc)
  alone-Leads inputs (suc k) pc r r' out cb m h =
      let (o, r₁, pc₁) = control_move fl drive inputs pc r in
      let (rest, t, e) = collect-some o _ out r' h in
      elim (until_resting-cases (alone fl drive inputs k) pc₁ r₁) [
        | inl more ↦
            let (n, (a, b)) = alone-Leads inputs k pc₁ r₁ r' rest cb m (sym more ∙ t) in
            (suc n, (a, ap (note o) b ∙ e))
        | inr (ended, over) ↦
            let same = end_of r₁ r' rest (sym over ∙ t) in
            (
              1,
              (
                λ i. record { rover = same.1 i; control = ended i; callback = cb; monitor = m },
                ap (note o) same.0 ∙ e,
              ),
            )
      ]
