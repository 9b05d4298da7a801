-- ===== src/Nci/Session.antt =====
-- src/nci/NfcNci.cpp: a client that calls the commands and `handleEvent` in any order.
use arduino_nfc.Common.{ℕ, ◌≡◌, ◌≢◌, Bool, Option, none, some, List, [], ◌∷◌, false, arith}
use arduino_nfc.Common.Outcome.{Outcome, done, ◌>>=◌, Returns}
use arduino_nfc.Common.Buffer.{Buf}
use arduino_nfc.Hw.{NfcHw}
use arduino_nfc.Nci.Types.{
  NfcNci, NciState, state_none, rfst_reset, rfst_idle, rfst_poll_active, Reset, Deactivate, RfIntf,
  DiscoverMap, DiscoverConf, null, status_rejected,
}
use arduino_nfc.Nci.Commands.{
  Reply, cmd_core_reset, cmd_core_init, cmd_rf_discover_map, cmd_rf_discover, cmd_rf_deactivate,
  data_send, send, send_sized,
}
use arduino_nfc.Nci.Events.{handle_event}

-- The constructor; the members that it leaves indeterminate are its arguments. `init` then registers
-- the client.
unfoldable pub construct : Buf → Buf → Reset → RfIntf → Deactivate → NfcNci
construct rx tx reset rf deactivate = record {
  registered = false;
  rx_buf = rx;
  tx_buf = tx;
  state = state_none;
  data_ptr = null;
  reset = reset;
  rf_intf = rf;
  deactivate = deactivate;
}

-- `init(cb)`; the argument is `cb != NULL`.
unfoldable pub init : Bool → NfcNci → NfcNci
init cb n = record n { registered = cb }

-- A call of a command, with its arguments.
pub data Command : Type 0 where
  reset_with : ℕ → Command
  initialise : Command
  map_with : ℕ → Option (List DiscoverMap) → Command
  discover_with : ℕ → Option (List DiscoverConf) → Command
  deactivate_with : ℕ → Command
  send_data : ℕ → List ℕ → ℕ → Command

-- The state in which the command is allowed.
abbrev pub required : Command → NciState
required (reset_with type) = state_none
required initialise = rfst_reset
required (map_with num maps) = rfst_idle
required (discover_with num confs) = rfst_idle
required (deactivate_with type) = rfst_poll_active
required (send_data cid bytes len) = rfst_poll_active

module _ (hw : NfcHw) where
  open hw use {World}

  unfoldable pub issue : Command → NfcNci → World → Reply hw
  issue (reset_with type) = cmd_core_reset hw type
  issue initialise = cmd_core_init hw
  issue (map_with num maps) = cmd_rf_discover_map hw num maps
  issue (discover_with num confs) = cmd_rf_discover hw num confs
  issue (deactivate_with type) = cmd_rf_deactivate hw type
  issue (send_data cid bytes len) = data_send hw cid bytes len

  -- Outside its state every command is rejected, sends nothing and changes nothing.
  pub issue_rejected :
      (c : Command) (n : NfcNci) (w : World)
      → n.state ≢ required c
      → issue c n w ≡ done (status_rejected, n, w)
  unfolding issue cmd_core_reset cmd_core_init cmd_rf_discover_map cmd_rf_discover cmd_rf_deactivate
      data_send
  issue_rejected (reset_with type) n w h = ground arith
  issue_rejected initialise n w h = ground arith
  issue_rejected (map_with num maps) n w h = ground arith
  issue_rejected (discover_with num confs) n w h = ground arith
  issue_rejected (deactivate_with type) n w h = ground arith
  issue_rejected (send_data cid bytes len) n w h = ground arith

  -- A command changes nothing of the object but the send buffer.
  abbrev pub OnlySends : NfcNci → ℕ × NfcNci × World → Type 0
  OnlySends n r = r.1 ≡ record n { tx_buf = r.1.tx_buf }

  pub issue-OnlySends : (c : Command) (n : NfcNci) (w : World) → Returns (OnlySends n) (issue c n w)
  unfolding issue cmd_core_reset cmd_core_init cmd_rf_discover_map cmd_rf_discover cmd_rf_deactivate
      data_send send send_sized
  issue-OnlySends (reset_with type) n w = ground arith
  issue-OnlySends initialise n w = ground arith
  issue-OnlySends (map_with num maps) n w = ground arith
  issue-OnlySends (discover_with num confs) n w = ground arith
  issue-OnlySends (deactivate_with type) n w = ground arith
  issue-OnlySends (send_data cid bytes len) n w = ground arith

  -- One call: of a command, or of `handleEvent`.
  unfoldable pub perform : Option Command → NfcNci → World → Outcome (NfcNci × World)
  perform (some c) n w = issue c n w >>= λ r. done (r.1, r.2)
  perform none n w = handle_event hw n w >>= λ r. done (r.1, r.2)

  unfoldable pub run : List (Option Command) → NfcNci → World → Outcome (NfcNci × World)
  run [] n w = done (n, w)
  run (c ∷ cs) n w = perform c n w >>= λ r. run cs r.0 r.1
