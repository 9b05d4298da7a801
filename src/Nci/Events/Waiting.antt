-- ===== src/Nci/Events/Waiting.antt =====
-- src/nci/NfcNci.cpp: `waitForEvent`, over any hardware that answers its reads.
use arduino_nfc.Common.{ℕ, ◌+◌, ◌%◌, ◌≤◌, ◌≡◌, max, List, if◌then◌else◌, ◌==◌, arith}
use arduino_nfc.Common.Outcome.{done}
use arduino_nfc.Common.Buffer.{Buf}
use arduino_nfc.Common.Buffer.Bounds.{
  splice, store_all-splice, splice_before, AllBytes, splice-AllBytes,
}
use arduino_nfc.Hw.{NfcHw, reads, IsResponsive}
use arduino_nfc.Nci.Types.{NfcNci}
use arduino_nfc.Nci.Events.{read_into, wait_for_event}

module _ (hw : NfcHw) (live : IsResponsive hw) where
  open hw use {World}

  read_into-splice :
      (i len : ℕ) (n : NfcNci) (w : World)
      → i + max 1 len ≤ 258
      → (bytes : List ℕ) × (w' : World) × (read_into hw i len n w
          ≡ done (len % 256, record n { rx_buf = splice n.rx_buf i bytes }, w'))
  unfolding read_into
  read_into-splice i len n w h = elim (live len w) [
    | reads bytes ret w' e l b r ↦
        (bytes, w', rw (e, store_all-splice 258 n.rx_buf i bytes (omega arith), r))
  ]

  -- On hardware that answers, and with bytes in the receive buffer, waiting for a packet returns and
  -- never leaves that buffer. The object has changed in the buffer alone, which still holds bytes; the
  -- result is the length byte and the three bytes of the header, and 0 for a packet with no payload.
  pub wait_for_event_total :
      (n : NfcNci) (w : World)
      → AllBytes n.rx_buf
      → (b : Buf) × (w' : World) × AllBytes b
        × (wait_for_event hw n w
            ≡ done (if b 2 == 0 then 0 else b 2 + 3, record n { rx_buf = b }, w'))
  unfolding wait_for_event
  wait_for_event_total n w h =
      let (bytes, w1, e) = read_into-splice 0 3 n w (omega arith) in
      let b1 = splice n.rx_buf 0 bytes in
      let h1 = splice-AllBytes n.rx_buf 0 bytes h in
      let n1 = record n { rx_buf = b1 } in
      let (bytes', w2, e') = read_into-splice 3 (b1 2) n1 w1 (omega (arith, h1 2)) in
      (
        splice b1 3 bytes',
        w2,
        splice-AllBytes b1 3 bytes' h1,
        rw (e, e') (ground (arith, h1 2, splice_before b1 3 2 bytes')),
      )
