-- ===== src/Tags/Sending.antt =====
-- src/tags/NfcTags.cpp over src/nci/NfcNci.cpp: the packets that the tag API has sent.
use arduino_nfc.Common.{ℕ, ◌≡◌, List, [], ◌∷◌, length, ==_iff, none, some, sym, subst, arith}
use arduino_nfc.Common.Outcome.{done}
use arduino_nfc.Common.Buffer.{Buf}
use arduino_nfc.Hw.{NfcHw}
use arduino_nfc.Nci.Types.{NfcNci, state_none, rfst_reset, rfst_idle, rfst_poll_active}
use arduino_nfc.Nci.Commands.{
  Reply, cmd_core_reset, cmd_core_init, cmd_rf_discover_map, cmd_rf_discover, cmd_rf_deactivate,
}
use arduino_nfc.Nci.Commands.Packets.{
  cmd_core_reset-Sends, Sends, cmd_core_init-Sends, cmd_rf_deactivate-Sends,
}
use arduino_nfc.Nci.Commands.Discovery.{cmd_rf_discover_map-Sends, cmd_rf_discover-Sends}
use arduino_nfc.Tags.Types.{
  NfcTags, AppCallback, cb_reset, cb_discover, cb_deactivate, init_reset, init_init, discover_map,
  discover, deactivate, tags_id_reset, tags_id_discover, tags_id_deactivate,
}
use arduino_nfc.Tags.Stack.{discover_maps, discover_confs}
use arduino_nfc.Tags.Handlers.{
  Turn, notify, sends, handle_reset, handle_discover, handle_deactivate, handle_event,
}
use arduino_nfc.Tags.Coupling.{InStep}

-- The state machines that are about to send a command, and its packet: CORE_INIT; RF_DISCOVER_MAP for
-- tags 3, 2 and 1 in poll mode on the frame interface; RF_DISCOVER in the modes F and A, always;
-- RF_DEACTIVATE back to discovery.
pub data Sending (t : NfcTags) : List ℕ → Type 0 where
  sending_init : t.id ≡ tags_id_reset → t.state ≡ init_init → Sending t (0x20 ∷ 0x01 ∷ 0 ∷ [])
  sending_map :
      t.id ≡ tags_id_discover
      → t.state ≡ discover_map
      → Sending t (0x21 ∷ 0x00 ∷ 10 ∷ 3 ∷ 3 ∷ 1 ∷ 1 ∷ 2 ∷ 1 ∷ 1 ∷ 1 ∷ 1 ∷ 1 ∷ [])
  sending_discover :
      t.id ≡ tags_id_discover
      → t.state ≡ discover
      → Sending t (0x21 ∷ 0x03 ∷ 5 ∷ 2 ∷ 2 ∷ 1 ∷ 0 ∷ 1 ∷ [])
  sending_deactivate :
      t.id ≡ tags_id_deactivate → t.state ≡ deactivate → Sending t (0x21 ∷ 0x06 ∷ 1 ∷ 3 ∷ [])

module _ (hw : NfcHw) where
  open hw use {World}

  -- The handler sends these bytes, tells the application nothing, and changes `_tx_buf` alone.
  abbrev pub SendsSilently : List ℕ → NfcTags → NfcNci → World → Turn hw → Type 0
  SendsSilently bytes t n w turn =
      (tx : Buf) × (turn ≡ done (none, t, record n { tx_buf = tx }, (hw.write bytes w).1))

  sends_silently :
      (bytes : List ℕ) (cb : AppCallback) (id : ℕ) (r : Reply hw) (t : NfcTags) (n : NfcNci)
      (w : World)
      → Sends hw bytes n w r
      → (hw.write bytes w).0 ≡ length bytes
      → SendsSilently bytes t n w (sends hw cb id r t)
  unfolding sends notify
  sends_silently bytes cb id r t n w (tx, e) k = (tx, rw (e, (==_iff _ _).1 k))

  -- When the layers are in step and the hardware takes the packet, the command that the tag API is
  -- about to send is not rejected: `handleEvent` hands exactly its packet to the hardware and reports
  -- no error.
  pub handle_event-SendsSilently :
      (bytes : List ℕ) (t : NfcTags) (n : NfcNci) (w : World)
      → Sending t bytes
      → InStep t n
      → (hw.write bytes w).0 ≡ length bytes
      → SendsSilently bytes t n w (handle_event hw t n w)
  unfolding handle_event handle_reset handle_discover handle_deactivate
  handle_event-SendsSilently bytes t n w (sending_init i s) h k =
      subst (SendsSilently bytes t n w) (sym (ground arith)) (
        sends_silently bytes cb_reset tags_id_reset (cmd_core_init hw n w) t n w
          (cmd_core_init-Sends hw n w in_reset) k)
    where
      in_reset : n.state ≡ rfst_reset
      in_reset = ground arith
  handle_event-SendsSilently bytes t n w (sending_map i s) h k =
      subst (SendsSilently bytes t n w) (sym (ground arith)) (
        sends_silently bytes cb_discover tags_id_discover
          (cmd_rf_discover_map hw 3 (some discover_maps) n w) t n w
          (cmd_rf_discover_map-Sends hw discover_maps n w in_idle (omega arith) (omega arith)) k)
    where
      in_idle : n.state ≡ rfst_idle
      in_idle = ground arith
  handle_event-SendsSilently bytes t n w (sending_discover i s) h k =
      subst (SendsSilently bytes t n w) (sym (ground arith)) (
        sends_silently bytes cb_discover tags_id_discover
          (cmd_rf_discover hw 2 (some discover_confs) n w) t n w
          (cmd_rf_discover-Sends hw discover_confs n w in_idle (omega arith) (omega arith)
            (omega arith))
          k)
    where
      in_idle : n.state ≡ rfst_idle
      in_idle = ground arith
  handle_event-SendsSilently bytes t n w (sending_deactivate i s) h k =
      subst (SendsSilently bytes t n w) (sym (ground arith)) (
        sends_silently bytes cb_deactivate tags_id_deactivate (cmd_rf_deactivate hw 3 n w) t n w
          (cmd_rf_deactivate-Sends hw 3 n w active (omega arith)) k)
    where
      active : n.state ≡ rfst_poll_active
      active = ground arith

  -- The reset command needs a new object of the NCI layer, since the layers are in step in any state then.
  pub handle_event_resets :
      (t : NfcTags) (n : NfcNci) (w : World)
      → t.id ≡ tags_id_reset
      → t.state ≡ init_reset
      → n.state ≡ state_none
      → (hw.write (0x20 ∷ 0x00 ∷ 1 ∷ 0 ∷ []) w).0 ≡ 4
      → SendsSilently (0x20 ∷ 0x00 ∷ 1 ∷ 0 ∷ []) t n w (handle_event hw t n w)
  unfolding handle_event handle_reset
  handle_event_resets t n w i s h k =
      subst (SendsSilently (0x20 ∷ 0x00 ∷ 1 ∷ 0 ∷ []) t n w) (sym (ground arith)) (
        sends_silently (0x20 ∷ 0x00 ∷ 1 ∷ 0 ∷ []) cb_reset tags_id_reset (cmd_core_reset hw 0 n w) t
          n w (cmd_core_reset-Sends hw 0 n w h (omega arith)) k)
