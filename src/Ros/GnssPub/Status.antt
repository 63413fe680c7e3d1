-- ===== src/Ros/GnssPub/Status.antt =====
-- The status that a fix is published with.
use micro_ros_controller_fir.Prelude.{
  ℕ, ◌%◌, ◌<◌, ◌≡◌, sym, ◌∙◌, ◌≢◌, ◌⊎◌, inl, inr, arith, true, false, Bool-cases, ◌==◌, ◌||◌, [],
  ◌∷◌, ◌++◌, length, if◌then◌else◌,
}
use mathlib.Core.List.{append-nil}
use micro_ros_controller_fir.Prelude.Int.{ℤ}
use micro_ros_controller_fir.Common.Real.{Convert}
use micro_ros_controller_fir.Common.Types.{GnssFix}
use micro_ros_controller_fir.Hal.Queue.{MsgQueue}
use micro_ros_controller_fir.Hal.Gnss.{gnss_msgq_count, GnssData, gnss_fix_of, gnss_data_cb}
use micro_ros_controller_fir.Ros.Stamp.{stamp_of}
use micro_ros_controller_fir.Ros.GnssPub.{Constants, NavSatFix, status_of, gnss_pub_publish}

-- The fix qualities that the code tells apart are different numbers of one byte.
pub record IsDistinct (c : Constants) : Type 0 where
  pub invalid_dgnss : c.quality_invalid ≢ c.quality_dgnss
  pub invalid_rtk : c.quality_invalid ≢ c.quality_rtk
  pub invalid_float_rtk : c.quality_invalid ≢ c.quality_float_rtk
  pub dgnss_rtk : c.quality_dgnss ≢ c.quality_rtk
  pub dgnss_float_rtk : c.quality_dgnss ≢ c.quality_float_rtk

-- How each quality is to be reported.
pub data Reported (c : Constants) (q : ℕ) (s : ℤ) : Type 0 where
  no_fix : q ≡ c.quality_invalid → s ≡ c.status_no_fix → Reported c q s
  sbas_fix : q ≡ c.quality_dgnss → s ≡ c.status_sbas_fix → Reported c q s
  gbas_fix :
      (q ≡ c.quality_rtk) ⊎ (q ≡ c.quality_float_rtk) → s ≡ c.status_gbas_fix → Reported c q s
  plain_fix :
      q ≢ c.quality_invalid
      → q ≢ c.quality_dgnss
      → q ≢ c.quality_rtk
      → q ≢ c.quality_float_rtk
      → s ≡ c.status_fix
      → Reported c q s

-- Every quality is published with a status that the table gives for it.
pub status-Reported : (c : Constants) (q : ℕ) → Reported c q (status_of c q)
unfolding status_of
status-Reported c q = elim (Bool-cases (q == c.quality_invalid)) [
  | inl a ↦ no_fix (ground arith) (rw a)
  | inr a ↦ elim (Bool-cases (q == c.quality_dgnss)) [
    | inl b ↦ sbas_fix (ground arith) (rw (a, b))
    | inr b ↦ elim (Bool-cases (q == c.quality_rtk || q == c.quality_float_rtk)) [
      | inl e ↦ gbas_fix (ground arith) (rw (a, b, e))
      | inr e ↦ plain_fix (ground arith) (ground arith) (ground arith) (ground arith) (rw (a, b, e))
    ]
  ]
]

module _ {F D : Type 0} (cv : Convert F D) (c : Constants)
    (msgq : MsgQueue (GnssFix D) gnss_msgq_count) where
  open msgq use {Queue, contents}

  -- A report with a fix is put behind the other messages; one without leaves the queue as it is.
  callback-contents :
      (now : ℤ) (report : GnssData) (q : Queue)
      → length (contents q) < gnss_msgq_count
      → contents (gnss_data_cb cv msgq now report q)
        ≡ contents q ++ (if report.no_fix then [] else gnss_fix_of cv now report ∷ [])
  unfolding gnss_data_cb
  callback-contents now report q room = elim (Bool-cases report.no_fix) [
    | inl e ↦ simp e (sym (append-nil (contents q)))
    | inr e ↦ simp e ((msgq.put_room q (gnss_fix_of cv now report) room).1)
  ]

  fix-published :
      (now : ℤ) (report : GnssData) (msg : NavSatFix D) (s : ℤ)
      → IsDistinct c
      → report.no_fix ≡ false
      → Reported c (report.fix_quality % 256) s
      → gnss_pub_publish c (gnss_fix_of cv now report) msg ≡ record msg {
        stamp = stamp_of now;
        latitude = cv.div_double (cv.of_int report.latitude) (cv.double 1_000_000_000 0);
        longitude = cv.div_double (cv.of_int report.longitude) (cv.double 1_000_000_000 0);
        altitude = cv.div_double (cv.of_int report.altitude) (cv.double 1000 0);
        status = s;
        service = c.service_gps;
      }
  unfolding gnss_pub_publish gnss_fix_of status_of
  fix-published now report msg s d h (no_fix e k) = simp h (ground arith)
  fix-published now report msg s d h (sbas_fix e k) = simp h (ground arith)
  fix-published now report msg s d h (gbas_fix e k) = simp h (ground arith)
  fix-published now report msg s d h (plain_fix a b e g k) = simp h (ground arith)

  -- Where the qualities are distinct and the queue has room: a report from the receiver that has no fix
  -- leaves the messages in the queue as they are; one that has a fix is put behind them, and what is
  -- published of it has the status that the table gives for its quality, its position in degrees and
  -- metres, and the time of the report.
  pub publish-report :
      (now : ℤ) (report : GnssData) (q : Queue) (msg : NavSatFix D) (s : ℤ)
      → IsDistinct c
      → length (contents q) < gnss_msgq_count
      → Reported c (report.fix_quality % 256) s
      → ((report.no_fix ≡ true) × (contents (gnss_data_cb cv msgq now report q) ≡ contents q))
        ⊎ ((report.no_fix ≡ false)
            × ((fix : GnssFix D) × (contents (gnss_data_cb cv msgq now report q)
                  ≡ contents q ++ fix ∷ [])
                × (gnss_pub_publish c fix msg ≡ record msg {
                  stamp = stamp_of now;
                  latitude = cv.div_double (cv.of_int report.latitude) (cv.double 1_000_000_000 0);
                  longitude =
                      cv.div_double (cv.of_int report.longitude) (cv.double 1_000_000_000 0);
                  altitude = cv.div_double (cv.of_int report.altitude) (cv.double 1000 0);
                  status = s;
                  service = c.service_gps;
                })))
  publish-report now report q msg s d room k = elim (Bool-cases report.no_fix) [
    | inl e ↦ inl (e, callback-contents now report q room ∙ simp e (append-nil (contents q)))
    | inr e ↦ inr (
      e,
      (
        gnss_fix_of cv now report,
        callback-contents now report q room ∙ simp e,
        fix-published now report msg s d e k,
      ),
    )
  ]
