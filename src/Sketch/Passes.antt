-- ===== src/Sketch/Passes.antt =====
-- examples/TagDump/TagDump.ino: the loop of the sketch, over both layers.
use arduino_nfc.Common.{ℕ, zero, suc, ◌≡◌, ◌≢◌, ◌∙◌, refl, sym, if_rule, not, ◌==◌, true, arith}
use arduino_nfc.Common.Outcome.{Returns, Returns-seq, Returns-and}
use arduino_nfc.Common.Buffer.Bounds.{AllBytes}
use arduino_nfc.Hw.{NfcHw}
use arduino_nfc.Nci.Types.{NfcNci}
use arduino_nfc.Tags.Types.{NfcTags, TagsState, init_done, dumping, t2_none, tags_status_ok}
use arduino_nfc.Tags.Type2
use arduino_nfc.Tags.Interface.{intf_cmd_dump, mifare_cmd_dump}
use arduino_nfc.Tags.Stack.{cmd_reset, cmd_discover, cmd_deactivate, cmd_dump, is_activated, is_tag}
use arduino_nfc.Tags.Handlers.{handle_event}
use arduino_nfc.Tags.Busy.{Sound, Stays, handle_event-Stays}
use arduino_nfc.Tags.Told.{Means}
use arduino_nfc.Tags.Coupling.{InStep}
use arduino_nfc.Tags.System.{nci_turn}
use arduino_nfc.Tags.System.Turns.{Holds, handle_event-Holds}
use arduino_nfc.Tags.System.Notices.{nci_turn-Holds}
use arduino_nfc.Tags.System.Calls.{nci_turn-Means}
use arduino_nfc.Tags.System.Runs.{
  cmd_reset-InStep, cmd_discover-InStep, cmd_deactivate-InStep, cmd_dump-InStep,
}
use arduino_nfc.Sketch.{tell, turn, layers, pass, passes}
use arduino_nfc.Sketch.Dump.{
  DumpState, st_reset, st_reset_response, st_discover, st_discover_response, st_discovering,
  st_dump, st_dump_response, st_deactivate, st_deactivate_response, st_error, st_end, dump_sketch,
  dump_handle_event, unless_error,
}
use arduino_nfc.Sketch.Ready.{Ready, Waits, Closing, tell_error-Waits, tell-Ready}

-- Each command of the tag API keeps its dump.
pub cmd_reset-Sound : (t : NfcTags) → Sound t → Sound (cmd_reset t).1
unfolding cmd_reset
cmd_reset-Sound t s = record {
  registered = s.registered;
  tag_registered = s.tag_registered;
  settled = ground arith;
  busy = λ k. absurd (ground arith);
}

pub cmd_discover-Sound : (t : NfcTags) → Sound t → t.state ≡ init_done → Sound (cmd_discover t).1
unfolding cmd_discover
cmd_discover-Sound t s e = record {
  registered = ground (arith, s.registered);
  tag_registered = ground (arith, s.tag_registered);
  settled = ground arith;
  busy = λ k. absurd (ground arith);
}

pub cmd_deactivate-Sound : (t : NfcTags) → Closing t → Sound (cmd_deactivate t).1
unfolding cmd_deactivate
cmd_deactivate-Sound t s = record {
  registered = ground (arith, s.registered);
  tag_registered = ground (arith, s.tag_registered);
  settled = ground (arith, s.settled);
  busy = λ k. absurd (ground arith);
}

-- What the interface's command leaves.
abbrev Prepared : NfcTags → ℕ × NfcTags → Type 0
Prepared t r =
    (r.1.registered ≡ t.registered)
    × (r.1.tag2.registered ≡ t.tag2.registered)
    × (r.1.state ≡ t.state)
    × (r.0 ≡ tags_status_ok → r.1.tag2.state ≢ t2_none)

intf_cmd_dump-Prepared : (t : NfcTags) → Returns (Prepared t) (intf_cmd_dump t)
unfolding intf_cmd_dump Type2.cmd_dump mifare_cmd_dump
intf_cmd_dump-Prepared t = ground arith

activated_ne_dumping : (s : TagsState) → is_activated s ≡ true → s ≢ dumping
activated_ne_dumping s h e = ground arith

cmd_dump-Sound : (t : NfcTags) → Sound t → Returns (λ r. Sound r.1) (cmd_dump t)
unfolding cmd_dump
cmd_dump-Sound t s =
    if_rule (Returns (λ (r : ℕ × NfcTags). Sound r.1)) (not (is_activated t.state)) (λ e. s)
      (λ e.
        if_rule (Returns (λ (r : ℕ × NfcTags). Sound r.1)) (not (is_tag t.intf)) (λ k. s)
          (λ k.
            Returns-seq (Prepared t) (λ (r : ℕ × NfcTags). Sound r.1) (intf_cmd_dump t) _
              (intf_cmd_dump-Prepared t)
              (λ x p.
                if_rule (λ (r : ℕ × NfcTags). Sound r.1) (not (x.0 == tags_status_ok))
                  (λ f. record {
                    registered = p.0 ∙ s.registered;
                    tag_registered = p.1 ∙ s.tag_registered;
                    settled = λ d. s.settled (sym p.2 ∙ d);
                    busy = λ d. absurd (activated_ne_dumping t.state (ground arith) (sym p.2 ∙ d));
                  })
                  (λ f. record {
                    registered = p.0 ∙ s.registered;
                    tag_registered = p.1 ∙ s.tag_registered;
                    settled = ground arith;
                    busy = λ d. p.3 (ground arith);
                  }))))

-- The sketch waits once it has given its command.
abbrev pub Started : NfcNci → DumpState × NfcTags → Type 0
Started n r = Waits r.0 × Sound r.1 × InStep r.1 n

unless_error-Waits : (status : ℕ) (a : DumpState) → Waits a → Waits (unless_error status a)
unless_error-Waits status a w = if_rule Waits (not (status == tags_status_ok)) (λ e. tt) (λ e. w)

module _ (hw : NfcHw) where
  open hw use {World}

  pub dump_handle_event-Started :
      (a : DumpState) (t : NfcTags) (n : NfcNci)
      → Ready a t
      → InStep t n
      → Returns (Started n) (dump_handle_event a t)
  unfolding dump_handle_event
  dump_handle_event-Started st_reset t n s h =
      (unless_error-Waits _ st_reset_response tt, cmd_reset-Sound t s, cmd_reset-InStep hw t n h)
  dump_handle_event-Started st_discover t n s h = (
    unless_error-Waits _ st_discover_response tt,
    cmd_discover-Sound t s.0 s.1,
    cmd_discover-InStep hw t.state t n refl h,
  )
  dump_handle_event-Started st_dump t n s h =
      Returns-seq (λ (r : ℕ × NfcTags). Sound r.1 × InStep r.1 n) (Started n) (cmd_dump t) _
        (Returns-and (λ (r : ℕ × NfcTags). Sound r.1) (λ (r : ℕ × NfcTags). InStep r.1 n)
          (cmd_dump t) (cmd_dump-Sound t s.0) (cmd_dump-InStep hw t n h))
        (λ r k. (unless_error-Waits _ st_dump_response tt, k.0, k.1))
  dump_handle_event-Started st_deactivate t n s h = (
    unless_error-Waits _ st_deactivate_response tt,
    cmd_deactivate-Sound t s,
    cmd_deactivate-InStep hw t.state t n refl h,
  )
  dump_handle_event-Started st_error t n s h = (tt, s, h)
  dump_handle_event-Started st_end t n s h = (tt, s, h)
  dump_handle_event-Started st_reset_response t n s h = (tt, s, h)
  dump_handle_event-Started st_discover_response t n s h = (tt, s, h)
  dump_handle_event-Started st_discovering t n s h = (tt, s, h)
  dump_handle_event-Started st_dump_response t n s h = (tt, s, h)
  dump_handle_event-Started st_deactivate_response t n s h = (tt, s, h)

  -- Between two passes; and between the two layers of a pass.
  abbrev pub Between : DumpState × NfcTags × NfcNci × World → Type 0
  Between r = Ready r.0 r.1 × InStep r.1 r.2 × AllBytes r.2.rx_buf

  abbrev Within : DumpState × NfcTags × NfcNci × World → Type 0
  Within r = Waits r.0 × Sound r.1 × InStep r.1 r.2 × AllBytes r.2.rx_buf

  tags_turn-Within :
      (a : DumpState) (t : NfcTags) (n : NfcNci) (w : World)
      → Within (a, t, n, w)
      → Returns Within (turn dump_sketch hw a (handle_event hw t n w))
  unfolding turn
  tags_turn-Within a t n w k =
      Returns-seq (λ r. Stays hw r × Holds hw r) Within (handle_event hw t n w) _
        (Returns-and (Stays hw) (Holds hw) (handle_event hw t n w) (handle_event-Stays hw t n w k.1)
          (handle_event-Holds hw t n w k.2 k.3))
        (λ r q.
          Returns-seq Waits Within (tell dump_sketch r.0 a r.1 r.2) _
            (tell_error-Waits r.0 a r.1 r.2 q.0.0 k.0) (λ a' v. (v, q.0.1, q.1.0, q.1.1)))

  nci_turn-Between :
      (a : DumpState) (t : NfcTags) (n : NfcNci) (w : World)
      → Within (a, t, n, w)
      → Returns Between (turn dump_sketch hw a (nci_turn hw t n w))
  unfolding turn
  nci_turn-Between a t n w k =
      Returns-seq (λ r. Means r.0 r.1 × Holds hw r) Between (nci_turn hw t n w) _
        (Returns-and (λ r. Means r.0 r.1) (Holds hw) (nci_turn hw t n w)
          (nci_turn-Means hw t n w k.1 k.2 k.3) (nci_turn-Holds hw t n w k.2 k.3))
        (λ r q.
          Returns-seq (λ a'. Ready a' r.1) Between (tell dump_sketch r.0 a r.1 r.2) _
            (tell-Ready r.0 a r.1 r.2 q.0 k.0) (λ a' v. (v, q.1.0, q.1.1)))

  pass-Between :
      (a : DumpState) (t : NfcTags) (n : NfcNci) (w : World)
      → Between (a, t, n, w)
      → Returns Between (pass dump_sketch hw a t n w)
  unfolding pass layers
  pass-Between a t n w k =
      Returns-seq (Started n) Between (dump_handle_event a t) _
        (dump_handle_event-Started a t n k.0 k.1)
        (λ r s.
          Returns-seq Within Between _ _ (tags_turn-Within r.0 r.1 n w (s.0, s.1, s.2, k.2))
            (λ x v. nci_turn-Between x.0 x.1 x.2 x.3 v))

  pub passes-Between :
      (k : ℕ) (a : DumpState) (t : NfcTags) (n : NfcNci) (w : World)
      → Between (a, t, n, w)
      → Returns Between (passes dump_sketch hw k a t n w)
  unfolding passes
  passes-Between zero a t n w b = b
  passes-Between (suc k) a t n w b =
      Returns-seq Between Between (pass dump_sketch hw a t n w) _ (pass-Between a t n w b)
        (λ r v. passes-Between k r.0 r.1 r.2 r.3 v)
