-- ===== src/Nci/Contract.antt =====
-- src/nci/NfcNci.cpp: what the commands promise, as one table of packets and of refusals.
use arduino_nfc.Common.{
  ℕ, suc, ◌*◌, ◌≤◌, ◌<◌, ◌≡◌, sym, subst, List, [], ◌∷◌, length, IsBytes, none, some,
}
use arduino_nfc.Hw.{NfcHw}
use arduino_nfc.Nci.Types.{NfcNci, DiscoverMap, DiscoverConf}
use arduino_nfc.Nci.Commands.{cmd_rf_discover_map, cmd_rf_discover, data_send}
use arduino_nfc.Nci.Commands.Format.{backwards}
use arduino_nfc.Nci.Commands.Packets.{
  Sends, cmd_core_reset-Sends, cmd_core_init-Sends, cmd_rf_deactivate-Sends, data_send-Sends,
}
use arduino_nfc.Nci.Commands.Discovery.{cmd_rf_discover_map-Sends, cmd_rf_discover-Sends}
use arduino_nfc.Nci.Session.{
  Command, reset_with, initialise, map_with, discover_with, deactivate_with, send_data, required,
  issue,
}

-- The bytes of an entry: of a map its protocol, its mode and its interface, of a configuration its mode and
-- its frequency.
abbrev pub map_entry : DiscoverMap → List ℕ
map_entry m = m.protocol ∷ m.mode ∷ m.intf_type ∷ []

abbrev conf_entry : DiscoverConf → List ℕ
conf_entry c = c.mode ∷ c.freq ∷ []

-- The packet of a command: its header, its length, and its parameters.
unfoldable pub frame : Command → List ℕ
frame (reset_with type) = 0x20 ∷ 0x00 ∷ 1 ∷ type ∷ []
frame initialise = 0x20 ∷ 0x01 ∷ 0 ∷ []
frame (map_with num none) = []
frame (map_with num (some ms)) =
    0x21 ∷ 0x00 ∷ suc (3 * length ms) ∷ length ms ∷ backwards map_entry ms
frame (discover_with num none) = []
frame (discover_with num (some cs)) =
    0x21 ∷ 0x03 ∷ suc (2 * length cs) ∷ length cs ∷ backwards conf_entry cs
frame (deactivate_with type) = 0x21 ∷ 0x06 ∷ 1 ∷ type ∷ []
frame (send_data cid bytes len) = 0 ∷ 0 ∷ length bytes ∷ bytes

-- The arguments that a packet can carry: a reset type of the specification, arrays given with their number
-- of entries, of bytes, and that fit.
abbrev pub Proper : Command → Type 0
Proper (reset_with type) = type ≤ 1
Proper initialise = Unit
Proper (map_with num none) = ⊥
Proper (map_with num (some ms)) =
    (num ≡ length ms) × IsBytes (backwards map_entry ms) × (length ms ≤ 83)
Proper (discover_with num none) = ⊥
Proper (discover_with num (some cs)) =
    (num ≡ length cs) × IsBytes (backwards conf_entry cs) × (1 ≤ length cs) × (length cs ≤ 125)
Proper (deactivate_with type) = type < 256
Proper (send_data cid bytes len) = (len ≡ length bytes) × IsBytes bytes × (length bytes ≤ 252)

module _ (hw : NfcHw) where
  open hw use {World}

  -- In its state, and with arguments that a packet can carry, every command hands exactly its packet to
  -- the hardware in one write; the status is OK if the hardware takes all of it, and nothing of the
  -- object changes but the send buffer. The entries of an array go from the last to the first.
  pub issue-Sends :
      (c : Command) (n : NfcNci) (w : World)
      → n.state ≡ required c
      → Proper c
      → Sends hw (frame c) n w (issue hw c n w)
  unfolding issue frame
  issue-Sends (reset_with type) n w s h = cmd_core_reset-Sends hw type n w s h
  issue-Sends initialise n w s h = cmd_core_init-Sends hw n w s
  issue-Sends (map_with num none) n w s h = absurd h
  issue-Sends (map_with num (some ms)) n w s h =
      subst
        (λ k.
          Sends hw (frame (map_with num (some ms))) n w (cmd_rf_discover_map hw k (some ms) n w))
        (sym h.0) (cmd_rf_discover_map-Sends hw ms n w s h.1 h.2)
  issue-Sends (discover_with num none) n w s h = absurd h
  issue-Sends (discover_with num (some cs)) n w s h =
      subst
        (λ k.
          Sends hw (frame (discover_with num (some cs))) n w (cmd_rf_discover hw k (some cs) n w))
        (sym h.0) (cmd_rf_discover-Sends hw cs n w s h.1 h.2 h.3)
  issue-Sends (deactivate_with type) n w s h = cmd_rf_deactivate-Sends hw type n w s h
  issue-Sends (send_data cid bytes len) n w s h =
      subst (λ k. Sends hw (frame (send_data cid bytes len)) n w (data_send hw cid bytes k n w))
        (sym h.0) (data_send-Sends hw cid bytes n w s h.1 h.2)
