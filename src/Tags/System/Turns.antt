-- ===== src/Tags/System/Turns.antt =====
-- src/tags/NfcTags.cpp: the handlers of `handleEvent`, and the layers in step.
use arduino_nfc.Common.{ℕ, ◌≡◌, refl, sym, subst, if_rule, not, ◌==◌, leb, Option, [], ◌∷◌, arith}
use arduino_nfc.Common.Outcome.{Outcome, done, ◌>>=◌, Returns, Returns-seq}
use arduino_nfc.Common.Buffer.Bounds.{AllBytes}
use arduino_nfc.Hw.{NfcHw}
use arduino_nfc.Nci.Types.{NfcNci, status_ok}
use arduino_nfc.Nci.Commands.{Reply, data_send}
use arduino_nfc.Nci.Session.{OnlySends, issue, issue-OnlySends, send_data}
use arduino_nfc.Tags.Types.{
  AppCall, AppCallback, NfcTags, Type2, Type2State, t2_none, t2_dump, t2_dump_rsp, TagIntf, no_tag,
  to_tag2, to_mifare, cb_dump, tags_id_dump, cb_reset, cb_discover, cb_deactivate, tags_id_reset,
  tags_id_discover, tags_id_deactivate,
}
use arduino_nfc.Tags.Type2
use arduino_nfc.Tags.Interface.{mifare_handle_dump, intf_handle_dump}
use arduino_nfc.Tags.Stack.{is_tag}
use arduino_nfc.Tags.Handlers.{is_dumping, Turn, notify, sends, handle_dump, handle_event}
use arduino_nfc.Tags.Coupling.{InStep, Coupled}
use arduino_nfc.Tags.Switches.{
  Switch, handle_reset-Switch, handle_discover-Switch, handle_deactivate-Switch,
}

module _ (hw : NfcHw) where
  open hw use {World}

  -- The layers are in step, and the receive buffer holds bytes.
  abbrev pub Holds : Option AppCall × NfcTags × NfcNci × World → Type 0
  Holds r = InStep r.1 r.2 × AllBytes r.2.rx_buf

  notify-Holds :
      (cb : AppCallback) (id status told : ℕ) (t : NfcTags) (n : NfcNci) (w : World)
      → InStep t n
      → AllBytes n.rx_buf
      → Returns Holds (notify hw cb id status told t n w)
  unfolding notify
  notify-Holds cb id status told t n w h b =
      if_rule (Returns Holds) (not (status == status_ok))
        (λ e.
          if_rule (λ (r : Outcome (Option AppCall)). Returns Holds (r >>= λ c. done (c, t, n, w)))
            t.registered (λ e. (h, b)) (λ e. tt))
        (λ e. (h, b))

  sends-Holds :
      (cb : AppCallback) (id : ℕ) (r : Reply hw) (t : NfcTags) (n : NfcNci)
      → Returns (OnlySends hw n) r
      → InStep t n
      → AllBytes n.rx_buf
      → Returns Holds (sends hw cb id r t)
  unfolding sends
  sends-Holds cb id r t n o h b =
      Returns-seq (OnlySends hw n) Holds r _ o
        (λ x e. notify-Holds cb id x.0 _ t x.1 x.2 (rw e h) (rw e b))

  Switch-Holds :
      (cb : AppCallback) (id : ℕ) (t : NfcTags) (n : NfcNci) (turn : Turn hw)
      → Switch hw cb id t n turn
      → InStep t n
      → AllBytes n.rx_buf
      → Returns Holds turn
  Switch-Holds cb id t n turn (r, o, c, e) h b =
      subst (Returns Holds) (sym e) (sends-Holds cb id r t n o h b)

  -- The object keeps all but the send buffer, and the tag API its state.
  abbrev KeepsState : NfcTags → NfcNci → ℕ × NfcTags × NfcNci × World → Type 0
  KeepsState t n r = (r.1.state ≡ t.state) × (r.2 ≡ record n { tx_buf = r.2.tx_buf })

  -- Only the send buffer of the object differs.
  abbrev TouchesTx : NfcNci → ℕ × Type2 × NfcNci × World → Type 0
  TouchesTx n r = r.2 ≡ record n { tx_buf = r.2.tx_buf }

  type2_handle_dump-TouchesTx :
      (s : Type2State) (t2 : Type2) (n : NfcNci) (w : World)
      → t2.state ≡ s
      → Returns (TouchesTx n) (Type2.handle_dump hw t2 n w)
  unfolding Type2.handle_dump issue
  type2_handle_dump-TouchesTx t2_none t2 n w e = ground arith
  type2_handle_dump-TouchesTx t2_dump t2 n w e = rw e (
      if_rule (Returns (TouchesTx n)) (leb t2.block 12)
        (λ k.
          Returns-seq (OnlySends hw n) (TouchesTx n) (data_send hw 0 (0x30 ∷ t2.block ∷ []) 2 n w) _
            (issue-OnlySends hw (send_data 0 (0x30 ∷ t2.block ∷ []) 2) n w) (λ x o. o))
        (λ k. refl))
  type2_handle_dump-TouchesTx t2_dump_rsp t2 n w e = ground arith

  intf_handle_dump-KeepsState :
      (i : TagIntf) (t : NfcTags) (n : NfcNci) (w : World)
      → t.intf ≡ i
      → Returns (KeepsState t n) (intf_handle_dump hw t n w)
  unfolding intf_handle_dump mifare_handle_dump
  intf_handle_dump-KeepsState no_tag t n w e = ground arith
  intf_handle_dump-KeepsState to_tag2 t n w e = rw e (
      Returns-seq (TouchesTx n) (KeepsState t n) (Type2.handle_dump hw t.tag2 n w) _
        (type2_handle_dump-TouchesTx t.tag2.state t.tag2 n w refl) (λ x o. (refl, o)))
  intf_handle_dump-KeepsState to_mifare t n w e = ground arith

  handle_dump-Holds :
      (t : NfcTags) (n : NfcNci) (w : World)
      → InStep t n
      → AllBytes n.rx_buf
      → Returns Holds (handle_dump hw t n w)
  unfolding handle_dump
  handle_dump-Holds t n w h b =
      Returns-seq (KeepsState t n) Holds _ _
        (if_rule (Returns (KeepsState t n)) (not (is_dumping hw t.state)) (λ e. (refl, refl))
          (λ e.
            if_rule (Returns (KeepsState t n)) (not (is_tag t.intf)) (λ k. (refl, refl))
              (λ k. intf_handle_dump-KeepsState t.intf t n w refl)))
        (λ x k.
          notify-Holds cb_dump tags_id_dump x.0 x.0 x.1 x.2 x.3
            (subst (λ s. Coupled s x.2.state) (sym k.0) (rw (k.1) h)) (rw (k.1) b))

  pub handle_event-Holds :
      (t : NfcTags) (n : NfcNci) (w : World)
      → InStep t n
      → AllBytes n.rx_buf
      → Returns Holds (handle_event hw t n w)
  unfolding handle_event
  handle_event-Holds t n w h b =
      if_rule (Returns Holds) (t.id == tags_id_reset)
        (λ e.
          Switch-Holds cb_reset tags_id_reset t n _ (handle_reset-Switch hw t.state t n w refl) h b)
        (λ e.
          if_rule (Returns Holds) (t.id == tags_id_discover)
            (λ e.
              Switch-Holds cb_discover tags_id_discover t n _
                (handle_discover-Switch hw t.state t n w refl) h b)
            (λ e.
              if_rule (Returns Holds) (t.id == tags_id_deactivate)
                (λ e.
                  Switch-Holds cb_deactivate tags_id_deactivate t n _
                    (handle_deactivate-Switch hw t.state t n w refl (λ k. absurd (ground arith))) h
                    b)
                (λ e.
                  if_rule (Returns Holds) (t.id == tags_id_dump) (λ e. handle_dump-Holds t n w h b)
                    (λ e. (h, b)))))
