-- ===== src/Sketch/Detecting.antt =====
-- examples/TagDetect/TagDetect.ino: the loop of the sketch, over both layers.
use arduino_nfc.Common.{ℕ, zero, suc, ◌≡◌, ◌≢◌, refl, sym, subst, if_rule, not, ◌==◌, arith}
use arduino_nfc.Common.Outcome.{
  done, ◌>>=◌, Returns, Returns-seq, Returns-and, Completes, Completes-bind,
}
use arduino_nfc.Common.Buffer.Bounds.{AllBytes}
use arduino_nfc.Hw.{NfcHw}
use arduino_nfc.Nci.Session
use arduino_nfc.Nci.Types.{NfcNci}
use arduino_nfc.Tags.Types.{NfcTags, init_done, dumping, tags_status_ok}
use arduino_nfc.Tags.Stack.{cmd_reset, cmd_discover, cmd_deactivate, is_tag}
use arduino_nfc.Tags.Stack
use arduino_nfc.Tags.Handlers.{handle_event}
use arduino_nfc.Tags.Busy.{Stays, handle_event-Stays}
use arduino_nfc.Tags.Calm.{
  Calm, cmd_reset-Calm, cmd_discover-Calm, cmd_deactivate-Calm, nci_turn-Calm, handle_event-Calm,
}
use arduino_nfc.Tags.Served.{handle_event-Completes}
use arduino_nfc.Tags.Told.{Means}
use arduino_nfc.Tags.Coupling.{InStep, Coupled}
use arduino_nfc.Tags.System.{nci_turn}
use arduino_nfc.Tags.System.Turns.{Holds, handle_event-Holds}
use arduino_nfc.Tags.System.Notices.{nci_turn-Holds}
use arduino_nfc.Tags.System.Calls.{nci_turn-Means}
use arduino_nfc.Tags.System.Runs.{cmd_reset-InStep, cmd_discover-InStep, cmd_deactivate-InStep}
use arduino_nfc.Sketch.{tell, turn, layers, pass, passes, setup}
use arduino_nfc.Sketch.Passes.{cmd_reset-Sound, cmd_discover-Sound, cmd_deactivate-Sound}
use arduino_nfc.Sketch.Ready.{Sound-Closing}
use arduino_nfc.Sketch.Accepted.{New, setup-Sound}
use arduino_nfc.Sketch.Still.{
  Still, Discovers, DetectReady, HoldsBack, tell_error-HoldsBack, Means-Sound, tell-Discovers,
}
use arduino_nfc.Sketch.Detect.{
  DetectState, st_reset, st_reset_response, st_discover, st_discover_response, st_discovering,
  st_deactivate, st_deactivate_response, st_error, st_end, detect_sketch, detect_handle_event,
  proceeds,
}

-- The sketch waits once it has given its command.
abbrev DetectStarted : NfcNci → DetectState × NfcTags → Type 0
DetectStarted n r = HoldsBack r.0 × Still r.1 × InStep r.1 n

proceeds-HoldsBack :
    (a : DetectState) (r : ℕ × NfcTags) → HoldsBack a → Returns (λ x. HoldsBack x.0) (proceeds a r)
proceeds-HoldsBack a r h = if_rule HoldsBack (not (r.0 == tags_status_ok)) (λ e. tt) (λ e. h)

cmd_reset-Still : (t : NfcTags) → Still t → Still (cmd_reset t).1
cmd_reset-Still t s = (cmd_reset-Sound t s.0, cmd_reset-Calm t)

cmd_discover-Still : (t : NfcTags) → Still t → t.state ≡ init_done → Still (cmd_discover t).1
cmd_discover-Still t s e = (cmd_discover-Sound t s.0 e, cmd_discover-Calm t s.1)

cmd_deactivate-Still : (t : NfcTags) → Still t → Still (cmd_deactivate t).1
cmd_deactivate-Still t s = (cmd_deactivate-Sound t (Sound-Closing t s.0), cmd_deactivate-Calm t)

discover_taken : (t : NfcTags) → t.state ≡ init_done → (cmd_discover t).0 ≡ tags_status_ok
unfolding cmd_discover
discover_taken t e = ground arith

-- The handler of the sketch returns, whatever the objects are.
detect_handle_event-Completes :
    (a : DetectState) (t : NfcTags) → Completes (detect_handle_event a t)
unfolding detect_handle_event
detect_handle_event-Completes st_reset t = tt
detect_handle_event-Completes st_discover t = tt
detect_handle_event-Completes st_deactivate t = tt
detect_handle_event-Completes s t = tt

module _ (hw : NfcHw) where
  open hw use {World}

  detect_handle_event-DetectStarted :
      (a : DetectState) (t : NfcTags) (n : NfcNci)
      → DetectReady a t
      → InStep t n
      → Returns (DetectStarted n) (detect_handle_event a t)
  unfolding detect_handle_event
  detect_handle_event-DetectStarted st_reset t n s h = (
    proceeds-HoldsBack st_reset_response (cmd_reset t) tt,
    cmd_reset-Still t s.0,
    cmd_reset-InStep hw t n h,
  )
  detect_handle_event-DetectStarted st_discover t n s h = (
    proceeds-HoldsBack st_discover_response (cmd_discover t) tt,
    cmd_discover-Still t s.0 s.1,
    cmd_discover-InStep hw t.state t n refl h,
  )
  detect_handle_event-DetectStarted st_deactivate t n s h = (
    proceeds-HoldsBack st_deactivate_response (cmd_deactivate t) tt,
    cmd_deactivate-Still t s.0,
    cmd_deactivate-InStep hw t.state t n refl h,
  )
  detect_handle_event-DetectStarted st_error t n s h = (tt, s.0, h)
  detect_handle_event-DetectStarted st_end t n s h = (tt, s.0, h)
  detect_handle_event-DetectStarted st_reset_response t n s h = (tt, s.0, h)
  detect_handle_event-DetectStarted st_discover_response t n s h = (tt, s.0, h)
  detect_handle_event-DetectStarted st_discovering t n s h = (tt, s.0, h)
  detect_handle_event-DetectStarted st_deactivate_response t n s h = (tt, s.0, h)

  -- Between two passes; and between the two layers of a pass.
  abbrev DetectBetween : DetectState × NfcTags × NfcNci × World → Type 0
  DetectBetween r = DetectReady r.0 r.1 × InStep r.1 r.2 × AllBytes r.2.rx_buf

  abbrev DetectWithin : DetectState × NfcTags × NfcNci × World → Type 0
  DetectWithin r = HoldsBack r.0 × Still r.1 × InStep r.1 r.2 × AllBytes r.2.rx_buf

  tags_turn-DetectWithin :
      (a : DetectState) (t : NfcTags) (n : NfcNci) (w : World)
      → DetectWithin (a, t, n, w)
      → Returns DetectWithin (turn detect_sketch hw a (handle_event hw t n w))
  unfolding turn
  tags_turn-DetectWithin a t n w k =
      Returns-seq (λ r. (Stays hw r × Holds hw r) × Calm r.1) DetectWithin (handle_event hw t n w) _
        (Returns-and (λ r. Stays hw r × Holds hw r) (λ r. Calm r.1) (handle_event hw t n w)
          (Returns-and (Stays hw) (Holds hw) (handle_event hw t n w)
            (handle_event-Stays hw t n w k.1.0) (handle_event-Holds hw t n w k.2 k.3))
          (handle_event-Calm hw t n w k.1.0.settled k.1.1))
        (λ r q.
          Returns-seq HoldsBack DetectWithin (tell detect_sketch r.0 a r.1 r.2) _
            (tell_error-HoldsBack r.0 a r.1 r.2 q.0.0.0 k.0)
            (λ a' v. (v, (q.0.0.1, q.1), q.0.1.0, q.0.1.1)))

  nci_turn-DetectBetween :
      (a : DetectState) (t : NfcTags) (n : NfcNci) (w : World)
      → DetectWithin (a, t, n, w)
      → Returns DetectBetween (turn detect_sketch hw a (nci_turn hw t n w))
  unfolding turn
  nci_turn-DetectBetween a t n w k =
      Returns-seq (λ r. (Means r.0 r.1 × Holds hw r) × Calm r.1) DetectBetween (nci_turn hw t n w) _
        (Returns-and (λ r. Means r.0 r.1 × Holds hw r) (λ r. Calm r.1) (nci_turn hw t n w)
          (Returns-and (λ r. Means r.0 r.1) (Holds hw) (nci_turn hw t n w)
            (nci_turn-Means hw t n w k.1.0 k.2 k.3) (nci_turn-Holds hw t n w k.2 k.3))
          (nci_turn-Calm hw t n w k.1.1 k.2 k.3))
        (λ r q.
          Returns-seq (λ a'. Discovers a' r.1) DetectBetween (tell detect_sketch r.0 a r.1 r.2) _
            (tell-Discovers r.0 a r.1 r.2 q.0.0 k.0)
            (λ a' v. (((Means-Sound r.0 r.1 q.0.0 q.1, q.1), v), q.0.1.0, q.0.1.1)))

  pass-DetectBetween :
      (a : DetectState) (t : NfcTags) (n : NfcNci) (w : World)
      → DetectBetween (a, t, n, w)
      → Returns DetectBetween (pass detect_sketch hw a t n w)
  unfolding pass layers
  pass-DetectBetween a t n w k =
      Returns-seq (DetectStarted n) DetectBetween (detect_handle_event a t) _
        (detect_handle_event-DetectStarted a t n k.0 k.1)
        (λ r s.
          Returns-seq DetectWithin DetectBetween _ _
            (tags_turn-DetectWithin r.0 r.1 n w (s.0, s.1, s.2, k.2))
            (λ x v. nci_turn-DetectBetween x.0 x.1 x.2 x.3 v))

  passes-DetectBetween :
      (k : ℕ) (a : DetectState) (t : NfcTags) (n : NfcNci) (w : World)
      → DetectBetween (a, t, n, w)
      → Returns DetectBetween (passes detect_sketch hw k a t n w)
  unfolding passes
  passes-DetectBetween zero a t n w b = b
  passes-DetectBetween (suc k) a t n w b =
      Returns-seq DetectBetween DetectBetween (pass detect_sketch hw a t n w) _
        (pass-DetectBetween a t n w b) (λ r v. passes-DetectBetween k r.0 r.1 r.2 r.3 v)

  setup-DetectBetween :
      (t : NfcTags) (n : NfcNci) (w : World)
      → New t n
      → DetectBetween (st_reset, (setup t n).0, (setup t n).1, w)
  unfolding setup Stack.init Session.init
  setup-DetectBetween t n w k = (
    ((setup-Sound t n k, λ d. absurd (ground (arith, k.tags))), tt),
    subst (λ s. Coupled s n.state) (sym k.tags) k.nci,
    k.bytes,
  )

  after_passes :
      (k : ℕ) (t t' : NfcTags) (n n' : NfcNci) (w w' : World) (a : DetectState)
      → New t n
      → passes detect_sketch hw k st_reset (setup t n).0 (setup t n).1 w ≡ done (a, t', n', w')
      → DetectBetween (a, t', n', w')
  after_passes k t t' n n' w w' a new e = subst (Returns DetectBetween) e (
      passes-DetectBetween k st_reset (setup t n).0 (setup t n).1 w (setup-DetectBetween t n w new))

  -- After `setup` of new objects and any number of passes of the loop of TagDetect that return, whatever
  -- the hardware does: the tag API is not dumping, it takes the discovery when the sketch is about to
  -- command one, and in the next pass the sketch's own handler and then that of the tag API return.
  pub detect_served :
      (k : ℕ) (t t' : NfcTags) (n n' : NfcNci) (w w' : World) (a : DetectState)
      → New t n
      → passes detect_sketch hw k st_reset (setup t n).0 (setup t n).1 w ≡ done (a, t', n', w')
      → (t'.state ≢ dumping)
        × (a ≡ st_discover → (cmd_discover t').0 ≡ tags_status_ok)
        × Completes (detect_handle_event a t' >>= λ r. handle_event hw r.1 n' w')
  detect_served k t t' n n' w w' a new e =
      let b = after_passes k t t' n n' w w' a new e in
      (
        b.0.0.1,
        λ s. discover_taken t' (subst (λ s. Discovers s t') s b.0.1),
        Completes-bind (detect_handle_event a t') _ (detect_handle_event-Completes a t') (λ r f.
            handle_event-Completes hw r.1 n' w'
              (subst (Returns (DetectStarted n')) f
                (detect_handle_event-DetectStarted a t' n' b.0 b.1)).1.0),
      )
