-- ===== src/Tags/Calm.antt =====
-- src/tags/NfcTags.cpp: without the command for it, the tag API does not dump.
use arduino_nfc.Common.{
  ℕ, ◌≡◌, ◌≢◌, sym, subst, if_rule, not, ◌==◌, refl, true, Option, none, some, arith,
}
use arduino_nfc.Common.Outcome.{Returns, Returns-self, Returns-bind, Returns-seq}
use arduino_nfc.Common.Buffer.Bounds.{AllBytes}
use arduino_nfc.Hw.{NfcHw}
use arduino_nfc.Nci.Types.{NfcNci, Notice, Callback}
use arduino_nfc.Nci.Events.Promises.{PromisesAll}
use arduino_nfc.Tags.Types.{
  NfcTags, TagsState, AppCall, AppCallback, dumping, deactivate_ntf, cb_reset, cb_discover,
  cb_deactivate, cb_dump, tags_id_reset, tags_id_discover, tags_id_deactivate, tags_id_dump,
}
use arduino_nfc.Tags.Stack.{cmd_reset, cmd_discover, cmd_deactivate}
use arduino_nfc.Tags.Advance.{target, next_state, on_notice-next_state}
use arduino_nfc.Tags.Coupling.{InStep}
use arduino_nfc.Tags.Handlers.{Turn, is_dumping, notify, sends, handle_dump, handle_event}
use arduino_nfc.Tags.Switches.{
  Switch, handle_reset-Switch, handle_discover-Switch, handle_deactivate-Switch,
}
use arduino_nfc.Tags.System.{deliver, nci_turn}
use arduino_nfc.Tags.System.Notices.{nci_handle_event-Told, Told}

abbrev pub Calm : NfcTags → Type 0
Calm t = t.state ≢ dumping

pub cmd_reset-Calm : (t : NfcTags) → Calm (cmd_reset t).1
unfolding cmd_reset
cmd_reset-Calm t e = ground arith

pub cmd_discover-Calm : (t : NfcTags) → Calm t → Calm (cmd_discover t).1
unfolding cmd_discover
cmd_discover-Calm t c = ground arith

pub cmd_deactivate-Calm : (t : NfcTags) → Calm (cmd_deactivate t).1
unfolding cmd_deactivate
cmd_deactivate-Calm t = ground arith

target_calm : (cb : Callback) (s : TagsState) → s ≢ dumping → target cb s ≢ dumping
target_calm cb s h = ground arith

next_state_calm : (c : Notice) (s : TagsState) → s ≢ dumping → next_state c s ≢ dumping
next_state_calm c s h = ground (arith, target_calm c.callback s h)

deliver-Calm :
    (c : Option Notice) (t : NfcTags) (m n : NfcNci)
    → Calm t
    → PromisesAll m (c, n)
    → Returns (λ r. Calm r.1) (deliver c t n)
unfolding deliver
deliver-Calm none t m n s p = s
deliver-Calm (some c) t m n s p =
    Returns-self (λ r. Calm r.1) _
      (λ r e.
        subst (λ x. x ≢ dumping) (sym (on_notice-next_state c t m n r.0 r.1 p e))
          (next_state_calm c t.state s))

module _ (hw : NfcHw) where
  open hw use {World}

  pub nci_turn-Calm :
      (t : NfcTags) (n : NfcNci) (w : World)
      → Calm t
      → InStep t n
      → AllBytes n.rx_buf
      → Returns (λ r. Calm r.1) (nci_turn hw t n w)
  unfolding nci_turn
  nci_turn-Calm t n w s h b =
      Returns-seq (Told hw t) (λ r. Calm r.1) _ _ (nci_handle_event-Told hw t n w h b)
        (λ r k.
          Returns-seq (λ (x : Option AppCall × NfcTags). Calm x.1)
            (λ (x : Option AppCall × NfcTags × NfcNci × World). Calm x.1) _ _
            (deliver-Calm r.0 t k.0 r.1 s k.2) (λ x m. m))

  abbrev CalmAfter : Turn hw → Type 0
  CalmAfter = Returns (λ r. Calm r.1)

  notify-Calm :
      (cb : AppCallback) (id status told : ℕ) (t : NfcTags) (n : NfcNci) (w : World)
      → Calm t
      → CalmAfter (notify hw cb id status told t n w)
  unfolding notify
  notify-Calm cb id status told t n w s = ground (arith, s)

  Switch-Calm :
      (cb : AppCallback) (id : ℕ) (t : NfcTags) (n : NfcNci) (turn : Turn hw)
      → Switch hw cb id t n turn
      → Calm t
      → CalmAfter turn
  unfolding sends
  Switch-Calm cb id t n turn (r, o, c, e) s =
      subst CalmAfter (sym e)
        (Returns-bind (λ x. Calm x.1) r _ (λ x k. notify-Calm cb id x.0 _ t x.1 x.2 s))

  is_dumping_calm : (s : TagsState) → s ≢ dumping → not (is_dumping hw s) ≡ true
  is_dumping_calm s h = ground arith

  handle_dump-Calm :
      (t : NfcTags) (n : NfcNci) (w : World) → Calm t → CalmAfter (handle_dump hw t n w)
  unfolding handle_dump
  handle_dump-Calm t n w s =
      rw (is_dumping_calm t.state s) (notify-Calm cb_dump tags_id_dump _ _ t n w s)

  pub handle_event-Calm :
      (t : NfcTags) (n : NfcNci) (w : World)
      → t.state ≢ deactivate_ntf
      → Calm t
      → CalmAfter (handle_event hw t n w)
  unfolding handle_event
  handle_event-Calm t n w k s =
      if_rule CalmAfter (t.id == tags_id_reset)
        (λ e.
          Switch-Calm cb_reset tags_id_reset t n _ (handle_reset-Switch hw t.state t n w refl) s)
        (λ e.
          if_rule CalmAfter (t.id == tags_id_discover)
            (λ e.
              Switch-Calm cb_discover tags_id_discover t n _
                (handle_discover-Switch hw t.state t n w refl) s)
            (λ e.
              if_rule CalmAfter (t.id == tags_id_deactivate)
                (λ e.
                  Switch-Calm cb_deactivate tags_id_deactivate t n _
                    (handle_deactivate-Switch hw t.state t n w refl k) s)
                (λ e.
                  if_rule CalmAfter (t.id == tags_id_dump) (λ e. handle_dump-Calm t n w s)
                    (λ e. s))))
