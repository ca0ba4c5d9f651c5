-- ===== src/Accel/Taps.antt =====
-- accel/spi_accel.c: what a reader of the input device sees of a tap.
use raspberrypimodules.Prelude.{
  ℕ, zero, suc, ◌-◌, ◌≡◌, refl, ap, ◌∙◌, inl, inr, Bool, true, false, not, ◌&&◌, ◌||◌, List, [],
  ◌∷◌, ◌==◌, if◌then◌else◌, get_or, bit_and, Bool-cases,
}
use raspberrypimodules.Accel.Device.{
  Transfer, Report, Adxl345, has_bit, report, report_axis, send_axes, adxl345_send_key_events,
  adxl345_do_tap, single_tap, taps_enabled, handle_taps, adxl345_irq, adxl345_spi_read,
  act_tap_status, int_source, readcmd,
}

-- Whether a key is down behind some reports, the latest first.
abbrev pub down : ℕ → List Report → Bool
down code [] = false
down code (Report.key c press ∷ rest) =
    let before = down code rest in if c == code then press else before
down code (Report.sync ∷ rest) = down code rest

-- What a reader sees of a key: whether it is down, at each synchronisation.
abbrev pub at_syncs : ℕ → List Report → List Bool
at_syncs code [] = []
at_syncs code (Report.key c press ∷ rest) = at_syncs code rest
at_syncs code (Report.sync ∷ rest) = down code rest ∷ at_syncs code rest

-- Whether a status has a tap on one of the axes whose key it is; the bits from 0 are those of the axes
-- z, y and x.
abbrev pub tapped : (axes : ℕ) → (status : ℕ) → List ℕ → ℕ → Bool
tapped zero status codes code = false
tapped (suc k) status codes code =
    let others = tapped k status codes code in
    others || (has_bit status k && (get_or codes (2 - k) 0 == code))

-- All but the reports is as before.
pub record Same (a b : Adxl345) : Type 0 where
  pub pdata : b.pdata ≡ a.pdata
  pub saved : b.saved ≡ a.saved
  pub int_mask : b.int_mask ≡ a.int_mask
  pub transfers : b.transfers ≡ a.transfers

Same-trans : {a b c : Adxl345} → Same a b → Same b c → Same a c
Same-trans i j = record {
  pdata = j.pdata ∙ i.pdata;
  saved = j.saved ∙ i.saved;
  int_mask = j.int_mask ∙ i.int_mask;
  transfers = j.transfers ∙ i.transfers;
}

abbrev same : (ac : Adxl345) → Same ac ac
same ac = record { pdata = refl; saved = refl; int_mask = refl; transfers = refl }

abbrev reported : (r : Report) (ac : Adxl345) → Same ac (report r ac)
reported r ac = record { pdata = refl; saved = refl; int_mask = refl; transfers = refl }

if_or : (t u p d : Bool) → (if t then p else (if u then p else d)) ≡ (if t || u then p else d)
if_or true u p d = refl
if_or false u p d = refl

module _ (status : ℕ) (press : Bool) (code : ℕ) where
  report_axis-down :
      (k : ℕ) (ac : Adxl345)
      → (down code (report_axis k status press ac).reports ≡ (
          if has_bit status k && (get_or ac.pdata.ev_code_tap (2 - k) 0 == code)
          then press
          else down code ac.reports))
        × (at_syncs code (report_axis k status press ac).reports ≡ at_syncs code ac.reports)
        × Same ac (report_axis k status press ac)
  unfolding report_axis
  report_axis-down k ac = elim (Bool-cases (has_bit status k)) [
    | inl e ↦ rw e (refl, refl, reported _ ac)
    | inr e ↦ rw e (refl, refl, same ac)
  ]

  send_axes-down :
      (left : ℕ) (ac : Adxl345)
      → (down code (send_axes left status press ac).reports
          ≡ (if tapped left status ac.pdata.ev_code_tap code then press else down code ac.reports))
        × (at_syncs code (send_axes left status press ac).reports ≡ at_syncs code ac.reports)
        × Same ac (send_axes left status press ac)
  unfolding send_axes
  send_axes-down zero ac = (refl, refl, same ac)
  send_axes-down (suc k) ac =
      let next : Adxl345 = report_axis k status press ac in
      let (d1, s1, m1) = report_axis-down k ac in
      let (d2, s2, m2) = send_axes-down k next in
      let mine : Bool = has_bit status k && (get_or ac.pdata.ev_code_tap (2 - k) 0 == code) in
      let others : Bool = tapped k status ac.pdata.ev_code_tap code in
      (
        d2
            ∙ ap (λ p. if tapped k status p.ev_code_tap code then press else down code next.reports)
                m1.pdata
            ∙ ap (λ d. if others then press else d) d1
            ∙ if_or others mine press (down code ac.reports),
        s2 ∙ s1,
        Same-trans m1 m2,
      )

-- The keys of all axes of a status.
abbrev pub tap_of : ℕ → Adxl345 → ℕ → Bool
tap_of status ac code = tapped 3 status ac.pdata.ev_code_tap code

if_down : (t d : Bool) → (if t then true else d) ≡ t || d
if_down true d = refl
if_down false d = refl

if_up : (t d : Bool) → (if t then false else (t || d)) ≡ not t && d
if_up true d = refl
if_up false d = refl

-- Every key of the status is down at one synchronisation, and up behind it.
adxl345_do_tap-down :
    (status code : ℕ) (ac : Adxl345)
    → let t : Bool = tap_of status ac code in
      let d : Bool = down code ac.reports in
      (down code (adxl345_do_tap status ac).reports ≡ not t && d)
      × (at_syncs code (adxl345_do_tap status ac).reports ≡ (t || d) ∷ at_syncs code ac.reports)
      × Same ac (adxl345_do_tap status ac)
unfolding adxl345_do_tap adxl345_send_key_events
adxl345_do_tap-down status code ac =
    let pressed : Adxl345 = send_axes 3 status true ac in
    let synced : Adxl345 = report Report.sync pressed in
    let (d1, s1, m1) = send_axes-down status true code 3 ac in
    let (d2, s2, m2) = send_axes-down status false code 3 synced in
    let t : Bool = tap_of status ac code in
    let is_down : down code pressed.reports ≡ t || down code ac.reports = d1 ∙ if_down t _ in
    (
      d2
          ∙ ap
              (λ p. if tapped 3 status p.ev_code_tap code then false else down code pressed.reports)
              m1.pdata
          ∙ ap (λ d. if t then false else d) is_down
          ∙ if_up t _,
      s2
          ∙ ap (λ l. down code pressed.reports ∷ l) s1
          ∙ ap (λ d. d ∷ at_syncs code ac.reports) is_down,
      Same-trans (Same-trans m1 (reported Report.sync pressed)) m2,
    )

-- What a reader sees behind the handler: a frame with the tapped keys down and one with them up, or one
-- frame with no change.
abbrev pub tap_frames : (single tap : Bool) → (before : Bool) → List Bool → List Bool
tap_frames true tap d frames = (not tap && d) ∷ (tap || d) ∷ frames
tap_frames false tap d frames = d ∷ frames

-- The end of the handler.
end_taps-syncs :
    (single : Bool) (status code : ℕ) (ac : Adxl345)
    → let after : Adxl345 = report Report.sync (if single then adxl345_do_tap status ac else ac) in
      (at_syncs code after.reports
        ≡ tap_frames single
            (tap_of status ac code)
            (down code ac.reports)
            (at_syncs code ac.reports))
      × (down code after.reports ≡ not (single && tap_of status ac code) && down code ac.reports)
      × Same ac after
end_taps-syncs true status code ac =
    let (d, s, m) = adxl345_do_tap-down status code ac in
    let tap : Adxl345 = adxl345_do_tap status ac in
    (
      ap (λ b. b ∷ at_syncs code tap.reports) d
          ∙ ap (λ l. (not (tap_of status ac code) && down code ac.reports) ∷ l) s,
      d,
      Same-trans m (reported Report.sync tap),
    )
end_taps-syncs false status code ac = (refl, refl, reported Report.sync ac)

abbrev pub has_tap : ℕ → Bool
has_tap int_stat = not (bit_and int_stat single_tap == 0)

handle_taps-syncs :
    (tap_stat int_stat code : ℕ) (ac : Adxl345)
    → let after : Adxl345 = handle_taps tap_stat int_stat ac in
      let t : Bool = tap_of tap_stat ac code in
      (at_syncs code after.reports
        ≡ tap_frames (has_tap int_stat) t (down code ac.reports) (at_syncs code ac.reports))
      × (down code after.reports ≡ not (has_tap int_stat && t) && down code ac.reports)
      × (after.transfers ≡ Transfer.spi_w8r8 (readcmd int_source) ∷ ac.transfers)
      × (after.pdata ≡ ac.pdata)
      × (after.int_mask ≡ ac.int_mask)
unfolding handle_taps adxl345_spi_read
handle_taps-syncs tap_stat int_stat code ac =
    let (s, d, m) =
      end_taps-syncs (has_tap int_stat) tap_stat code (adxl345_spi_read int_source ac) in
    (s, d, m.transfers, m.pdata, m.int_mask)

-- For every key and whatever the chip answers: if INT_SOURCE has a single tap, a reader sees one frame
-- in which the keys of the tapped axes are down as well, and then one in which they are up, and all other
-- keys are as they were; otherwise it sees one frame with no change. An axis is tapped only if the
-- driver has taps enabled; then ACT_TAP_STATUS is read, before INT_SOURCE is.
pub adxl345_irq-syncs :
    (act_tap int_stat code : ℕ) (ac : Adxl345)
    → let after : Adxl345 = adxl345_irq act_tap int_stat ac in
      let t : Bool = taps_enabled ac.pdata && tap_of act_tap ac code in
      (at_syncs code after.reports
        ≡ tap_frames (has_tap int_stat) t (down code ac.reports) (at_syncs code ac.reports))
      × (down code after.reports ≡ not (has_tap int_stat && t) && down code ac.reports)
      × (after.transfers
          ≡ Transfer.spi_w8r8 (readcmd int_source)
            ∷ (if taps_enabled ac.pdata
                then Transfer.spi_w8r8 (readcmd act_tap_status) ∷ ac.transfers
                else ac.transfers))
      × (after.pdata ≡ ac.pdata)
      × (after.int_mask ≡ ac.int_mask)
unfolding adxl345_irq adxl345_spi_read
adxl345_irq-syncs act_tap int_stat code ac = cases (taps_enabled ac.pdata)
  where
    cases :
        (b : Bool)
        → let after : Adxl345 =
            if b
            then handle_taps act_tap int_stat (adxl345_spi_read act_tap_status ac)
            else handle_taps 0 int_stat ac in
          let t : Bool = b && tap_of act_tap ac code in
          (at_syncs code after.reports
            ≡ tap_frames (has_tap int_stat) t (down code ac.reports) (at_syncs code ac.reports))
          × (down code after.reports ≡ not (has_tap int_stat && t) && down code ac.reports)
          × (after.transfers
              ≡ Transfer.spi_w8r8 (readcmd int_source)
                ∷ (if b
                    then Transfer.spi_w8r8 (readcmd act_tap_status) ∷ ac.transfers
                    else ac.transfers))
          × (after.pdata ≡ ac.pdata)
          × (after.int_mask ≡ ac.int_mask)
    cases true = handle_taps-syncs act_tap int_stat code (adxl345_spi_read act_tap_status ac)
    cases false = handle_taps-syncs 0 int_stat code ac
