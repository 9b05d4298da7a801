-- ===== src/Tags/Served.antt =====
-- src/tags/NfcTags.cpp: `handleEvent` returns.
use arduino_nfc.Common.{ℕ, ◌≡◌, ◌≢◌, refl, sym, subst, if_rule, not, ◌==◌, leb, arith, [], ◌∷◌}
use arduino_nfc.Common.Outcome.{Returns, Completes, Completes-bind}
use arduino_nfc.Hw.{NfcHw}
use arduino_nfc.Nci.Types.{NfcNci, status_ok}
use arduino_nfc.Nci.Commands.{data_send}
use arduino_nfc.Nci.Session.{issue, send_data}
use arduino_nfc.Nci.Total.{issue-Completes}
use arduino_nfc.Tags.Types.{
  NfcTags, AppCallback, Type2, Type2State, t2_none, t2_dump, t2_dump_rsp, TagIntf, no_tag, to_tag2,
  to_mifare, cb_dump, cb_reset, cb_discover, cb_deactivate, tags_id_reset, tags_id_discover,
  tags_id_deactivate, tags_id_dump,
}
use arduino_nfc.Tags.Type2
use arduino_nfc.Tags.Interface.{intf_handle_dump, mifare_handle_dump}
use arduino_nfc.Tags.Stack.{is_tag}
use arduino_nfc.Tags.Switches.{
  Switch, handle_reset-Switch, handle_discover-Switch, handle_deactivate-Switch,
}
use arduino_nfc.Tags.Handlers.{Turn, is_dumping, notify, sends, handle_dump, handle_event}
use arduino_nfc.Tags.Busy.{Sound, KeepsSound, dump_rule-KeepsSound}

module _ (hw : NfcHw) where
  open hw use {World}

  notify-Completes :
      (cb : AppCallback) (id status told : ℕ) (t : NfcTags) (n : NfcNci) (w : World)
      → Sound t
      → Completes (notify hw cb id status told t n w)
  unfolding notify
  notify-Completes cb id status told t n w s =
      if_rule Completes (not (status == status_ok))
        (λ e.
          Completes-bind _ _
            (if_rule Completes t.registered (λ r. tt) (λ r. absurd (ground (arith, s.registered))))
            (λ c k. tt))
        (λ e. tt)

  Switch-Completes :
      (cb : AppCallback) (id : ℕ) (t : NfcTags) (n : NfcNci) (turn : Turn hw)
      → Switch hw cb id t n turn
      → Sound t
      → Completes turn
  unfolding sends
  Switch-Completes cb id t n turn (r, o, c, e) s =
      subst Completes (sym e)
        (Completes-bind r _ c (λ x k. notify-Completes cb id x.0 _ t x.1 x.2 s))

  type2_handle_dump-Completes :
      (s : Type2State) (t2 : Type2) (n : NfcNci) (w : World)
      → t2.state ≡ s
      → s ≢ t2_none
      → Completes (Type2.handle_dump hw t2 n w)
  unfolding Type2.handle_dump issue
  type2_handle_dump-Completes t2_none t2 n w e h = absurd (h refl)
  type2_handle_dump-Completes t2_dump t2 n w e h = rw e (
      if_rule Completes (leb t2.block 12)
        (λ k.
          Completes-bind (data_send hw 0 (0x30 ∷ t2.block ∷ []) 2 n w) _
            (issue-Completes hw (send_data 0 (0x30 ∷ t2.block ∷ []) 2) n w (ground arith))
            (λ x o. tt))
        (λ k. tt))
  type2_handle_dump-Completes t2_dump_rsp t2 n w e h = ground arith

  intf_handle_dump-Completes :
      (i : TagIntf) (t : NfcTags) (n : NfcNci) (w : World)
      → t.intf ≡ i
      → i ≢ no_tag
      → t.tag2.state ≢ t2_none
      → Completes (intf_handle_dump hw t n w)
  unfolding intf_handle_dump mifare_handle_dump
  intf_handle_dump-Completes no_tag t n w e h k = absurd (h refl)
  intf_handle_dump-Completes to_tag2 t n w e h k = rw e (
      Completes-bind (Type2.handle_dump hw t.tag2 n w) _
        (type2_handle_dump-Completes t.tag2.state t.tag2 n w refl k) (λ x o. tt))
  intf_handle_dump-Completes to_mifare t n w e h k = ground arith

  handle_dump-Completes :
      (t : NfcTags) (n : NfcNci) (w : World) → Sound t → Completes (handle_dump hw t n w)
  unfolding handle_dump
  handle_dump-Completes t n w s =
      Completes-bind _ _
        (if_rule Completes (not (is_dumping hw t.state)) (λ e. tt)
          (λ e.
            if_rule Completes (not (is_tag t.intf)) (λ k. tt)
              (λ k.
                intf_handle_dump-Completes t.intf t n w refl (ground arith)
                  (s.busy (ground arith)))))
        (λ x e.
          notify-Completes cb_dump tags_id_dump x.0 x.0 x.1 x.2 x.3
            (subst (Returns (KeepsSound hw)) e (dump_rule-KeepsSound hw t n w s)))

  -- With an application registered, in another state than DEACTIVATE_NTF and, while the tag API dumps, a
  -- tag's interface that dumps too, `handleEvent` returns, whatever the hardware does: it makes no access out
  -- of bounds and reads no value that nothing has set.
  pub handle_event-Completes :
      (t : NfcTags) (n : NfcNci) (w : World) → Sound t → Completes (handle_event hw t n w)
  unfolding handle_event
  handle_event-Completes t n w s =
      if_rule Completes (t.id == tags_id_reset)
        (λ e.
          Switch-Completes cb_reset tags_id_reset t n _ (handle_reset-Switch hw t.state t n w refl)
            s)
        (λ e.
          if_rule Completes (t.id == tags_id_discover)
            (λ e.
              Switch-Completes cb_discover tags_id_discover t n _
                (handle_discover-Switch hw t.state t n w refl) s)
            (λ e.
              if_rule Completes (t.id == tags_id_deactivate)
                (λ e.
                  Switch-Completes cb_deactivate tags_id_deactivate t n _
                    (handle_deactivate-Switch hw t.state t n w refl s.settled) s)
                (λ e.
                  if_rule Completes (t.id == tags_id_dump) (λ e. handle_dump-Completes t n w s)
                    (λ e. tt))))
