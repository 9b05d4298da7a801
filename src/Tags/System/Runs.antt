-- ===== src/Tags/System/Runs.antt =====
-- The commands of the application and the two `handleEvent` in any order: the layers in step.
use arduino_nfc.Common.{◌≡◌, refl, Option, subst, List, [], ◌∷◌, arith}
use arduino_nfc.Common.Outcome.{done, Returns, Returns-seq}
use arduino_nfc.Common.Buffer.Bounds.{AllBytes}
use arduino_nfc.Hw.{NfcHw}
use arduino_nfc.Nci.Types.{NfcNci}
use arduino_nfc.Tags.Types.{NfcTags, TagsState, AppCall}
use arduino_nfc.Tags.Type2
use arduino_nfc.Tags.Interface.{intf_cmd_dump}
use arduino_nfc.Tags.Stack.{cmd_reset, cmd_discover, cmd_deactivate, cmd_dump}
use arduino_nfc.Tags.Coupling.{InStep}
use arduino_nfc.Tags.System.Turns.{Holds, handle_event-Holds}
use arduino_nfc.Tags.System.{
  Move, reset_cmd, discover_cmd, deactivate_cmd, dump_cmd, tags_event, nci_event, move, moves,
}
use arduino_nfc.Tags.System.Notices.{nci_turn-Holds}

module _ (hw : NfcHw) where
  open hw use {World}

  -- A command of the application.
  pub cmd_reset-InStep : (t : NfcTags) (n : NfcNci) → InStep t n → InStep (cmd_reset t).1 n
  unfolding cmd_reset
  cmd_reset-InStep t n h = tt

  pub cmd_discover-InStep :
      (s : TagsState) (t : NfcTags) (n : NfcNci)
      → t.state ≡ s
      → InStep t n
      → InStep (cmd_discover t).1 n
  unfolding cmd_discover
  cmd_discover-InStep s t n e h = ground arith

  pub cmd_deactivate-InStep :
      (s : TagsState) (t : NfcTags) (n : NfcNci)
      → t.state ≡ s
      → InStep t n
      → InStep (cmd_deactivate t).1 n
  unfolding cmd_deactivate
  cmd_deactivate-InStep s t n e h = ground arith

  pub cmd_dump-InStep :
      (t : NfcTags) (n : NfcNci) → InStep t n → Returns (λ r. InStep r.1 n) (cmd_dump t)
  unfolding cmd_dump intf_cmd_dump Type2.cmd_dump
  cmd_dump-InStep t n h = ground arith

  move-Holds :
      (m : Move) (t : NfcTags) (n : NfcNci) (w : World)
      → InStep t n
      → AllBytes n.rx_buf
      → Returns (Holds hw) (move hw m t n w)
  unfolding move
  move-Holds reset_cmd t n w h b = (cmd_reset-InStep t n h, b)
  move-Holds discover_cmd t n w h b = (cmd_discover-InStep t.state t n refl h, b)
  move-Holds deactivate_cmd t n w h b = (cmd_deactivate-InStep t.state t n refl h, b)
  move-Holds dump_cmd t n w h b =
      Returns-seq (λ r. InStep r.1 n) (Holds hw) (cmd_dump t) _ (cmd_dump-InStep t n h)
        (λ r k. (k, b))
  move-Holds tags_event t n w h b = handle_event-Holds hw t n w h b
  move-Holds nci_event t n w h b = nci_turn-Holds hw t n w h b

  moves-Holds :
      (ms : List Move) (t : NfcTags) (n : NfcNci) (w : World)
      → InStep t n
      → AllBytes n.rx_buf
      → Returns (Holds hw) (moves hw ms t n w)
  unfolding moves
  moves-Holds [] t n w h b = (h, b)
  moves-Holds (m ∷ ms) t n w h b =
      Returns-seq (Holds hw) (Holds hw) (move hw m t n w) _ (move-Holds m t n w h b)
        (λ r k. moves-Holds ms r.1 r.2 r.3 k.0 k.1)

  -- Whatever the application calls, in any order with the two `handleEvent`, and whatever the hardware
  -- answers: if the calls return, the receive buffer held bytes before, and the two layers were in
  -- step, then the two layers are in step after the calls.
  pub moves-InStep :
      (ms : List Move) (t t' : NfcTags) (n n' : NfcNci) (w w' : World) (result : Option AppCall)
      → InStep t n
      → AllBytes n.rx_buf
      → moves hw ms t n w ≡ done (result, t', n', w')
      → InStep t' n'
  moves-InStep ms t t' n n' w w' result h b e =
      (subst (Returns (Holds hw)) e (moves-Holds ms t n w h b)).0
