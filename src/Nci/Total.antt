-- ===== src/Nci/Total.antt =====
-- src/nci/NfcNci.cpp: the arguments with which the commands stay inside `_tx_buf`.
use arduino_nfc.Common.{
  ℕ, ◌≤◌, ◌<◌, ◌≡◌, ◌≢◌, ◌⊎◌, inl, inr, sym, subst, ◌==◌, ◌||◌, not, if_rule, Bool-cases, false,
  none, some, List, [], ◌∷◌, length, IsBytes, arith,
}
use arduino_nfc.Common.Outcome.{Completes}
use arduino_nfc.Hw.{NfcHw}
use arduino_nfc.Nci.Types.{NfcNci, NciState, code, is, DiscoverConf, state_none, rfst_idle}
use arduino_nfc.Nci.Commands.{
  Reply, cmd_core_reset, cmd_rf_discover_map, cmd_rf_discover, data_send, map_bytes, conf_bytes,
}
use arduino_nfc.Nci.Commands.Format.{backwards}
use arduino_nfc.Nci.Commands.Packets.{
  Sends, cmd_core_reset-Sends, cmd_core_init-Sends, cmd_rf_deactivate-Sends, data_send-Sends,
}
use arduino_nfc.Nci.Commands.Discovery.{cmd_rf_discover_map-Sends, cmd_rf_discover-Sends}
use arduino_nfc.Nci.Session.{
  Command, reset_with, initialise, map_with, discover_with, deactivate_with, send_data, required,
  issue, issue_rejected,
}

-- Arrays are passed with their number of entries, of bytes, and fit into a packet.
abbrev pub InBounds : Command → Type 0
InBounds (reset_with type) = Unit
InBounds initialise = Unit
InBounds (map_with num none) = Unit
InBounds (map_with num (some ms)) =
    (num ≡ length ms) × IsBytes (backwards map_bytes ms) × (num ≤ 83)
InBounds (discover_with num none) = Unit
InBounds (discover_with num (some cs)) =
    (num ≡ length cs) × IsBytes (backwards conf_bytes cs) × (num ≤ 125)
InBounds (deactivate_with type) = type < 256
InBounds (send_data cid bytes len) = (len ≡ length bytes) × IsBytes bytes × (len ≤ 252)

code_inj : (s t : NciState) → code s ≡ code t → s ≡ t
code_inj s t e = ground arith

module _ (hw : NfcHw) where
  open hw use {World}

  Sends-Completes :
      (bytes : List ℕ) (n : NfcNci) (w : World) (r : Reply hw) → Sends hw bytes n w r → Completes r
  Sends-Completes bytes n w r (tx, e) = rw e tt

  is-cases : (s t : NciState) → (s ≡ t) ⊎ (s ≢ t)
  is-cases s t = elim (Bool-cases (is s t)) [
    | inl same ↦ inl (code_inj s t (ground arith))
    | inr other ↦ inr (λ e. ground arith)
  ]

  unknown_type :
      (type : ℕ) (n : NfcNci) (w : World)
      → (type == 0 || type == 1) ≡ false
      → Completes (cmd_core_reset hw type n w)
  unfolding cmd_core_reset
  unknown_type type n w h = ground arith

  no_confs : (n : NfcNci) (w : World) → Completes (cmd_rf_discover hw 0 (some []) n w)
  unfolding cmd_rf_discover
  no_confs n w = ground arith

  rejected-Completes :
      (c : Command) (n : NfcNci) (w : World) → n.state ≢ required c → Completes (issue hw c n w)
  rejected-Completes c n w h = rw (issue_rejected hw c n w h) tt

  reset-Completes :
      (type : ℕ) (n : NfcNci) (w : World)
      → n.state ≡ state_none
      → Completes (issue hw (reset_with type) n w)
  unfolding issue
  reset-Completes type n w s = elim (Bool-cases (type == 0 || type == 1)) [
    | inl known ↦ Sends-Completes _ n w _ (cmd_core_reset-Sends hw type n w s (ground arith))
    | inr unknown ↦ unknown_type type n w unknown
  ]

  discover-Completes :
      (cs : List DiscoverConf) (n : NfcNci) (w : World)
      → IsBytes (backwards conf_bytes cs)
      → length cs ≤ 125
      → n.state ≡ rfst_idle
      → Completes (issue hw (discover_with (length cs) (some cs)) n w)
  unfolding issue cmd_rf_discover
  discover-Completes [] n w b h s = no_confs n w
  discover-Completes (c ∷ cs) n w b h s =
      Sends-Completes _ n w _ (cmd_rf_discover-Sends hw (c ∷ cs) n w s b (omega arith) h)

  allowed-Completes :
      (c : Command) (n : NfcNci) (w : World)
      → InBounds c
      → n.state ≡ required c
      → Completes (issue hw c n w)
  unfolding issue cmd_rf_discover_map cmd_rf_discover
  allowed-Completes (reset_with type) n w b s = reset-Completes type n w s
  allowed-Completes initialise n w b s = Sends-Completes _ n w _ (cmd_core_init-Sends hw n w s)
  allowed-Completes (map_with num none) n w b s =
      if_rule Completes (not (is n.state rfst_idle)) (λ e. tt) (λ e. tt)
  allowed-Completes (map_with num (some ms)) n w b s =
      subst (λ k. Completes (cmd_rf_discover_map hw k (some ms) n w)) (sym b.0)
        (Sends-Completes _ n w _ (cmd_rf_discover_map-Sends hw ms n w s b.1 (omega arith)))
  allowed-Completes (discover_with num none) n w b s =
      if_rule Completes (not (is n.state rfst_idle)) (λ e. tt) (λ e. tt)
  allowed-Completes (discover_with num (some cs)) n w b s =
      subst (λ k. Completes (cmd_rf_discover hw k (some cs) n w)) (sym b.0)
        (discover-Completes cs n w b.1 (omega arith) s)
  allowed-Completes (deactivate_with type) n w b s =
      Sends-Completes _ n w _ (cmd_rf_deactivate-Sends hw type n w s b)
  allowed-Completes (send_data cid bytes len) n w b s =
      subst (λ k. Completes (data_send hw cid bytes k n w)) (sym b.0)
        (Sends-Completes _ n w _ (data_send-Sends hw cid bytes n w s b.1 (omega arith)))

  -- In every state, a command returns and stays inside the send buffer, given the number of the entries of
  -- its array, at most 83 maps or 125 configurations of bytes, a deactivation type that is a byte, and at
  -- most 252 bytes of data.
  pub issue-Completes :
      (c : Command) (n : NfcNci) (w : World) → InBounds c → Completes (issue hw c n w)
  issue-Completes c n w b = elim (is-cases n.state (required c)) [
    | inl s ↦ allowed-Completes c n w b s
    | inr h ↦ rejected-Completes c n w h
  ]
