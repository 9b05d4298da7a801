-- ===== src/Nci/Commands/Packets.antt =====
-- src/nci/NfcNci.cpp: the packets that the commands send.
use arduino_nfc.Common.{
  ℕ, ◌+◌, ◌-◌, ◌%◌, ◌≤◌, ◌<◌, ◌≡◌, refl, List, [], ◌∷◌, length, length-take, take, IsBytes,
  if◌then◌else◌, if_rule, ◌==◌, not, ◌||◌, arith,
}
use arduino_nfc.Common.Outcome.{done, fault, ◌>>=◌}
use arduino_nfc.Common.Buffer.{Buf, slice}
use arduino_nfc.Common.Buffer.Bounds.{slice-splice, slice_written, slice_written_take}
use arduino_nfc.Hw.{NfcHw}
use arduino_nfc.Nci.Header.{hdr0, hdr1}
use arduino_nfc.Nci.Types.{
  NfcNci, state_none, rfst_reset, rfst_poll_active, is, status_ok, status_failed,
}
use arduino_nfc.Nci.Commands.{
  put_all, Reply, send, cmd_core_reset, cmd_core_init, cmd_rf_deactivate, data_send,
}
use arduino_nfc.Nci.Commands.Format.{wrote, put_all-wrote, put_payload-wrote, put_payload-fault}

module _ (hw : NfcHw) where
  open hw use {World}

  -- The reply of a command that hands exactly these bytes to the hardware in one write: the status
  -- is OK if the hardware took them all, and nothing of the object changes but `_tx_buf`.
  abbrev pub Sends : List ℕ → NfcNci → World → Reply hw → Type 0
  Sends bytes n w reply =
      let (ret, w') = hw.write bytes w in
      (tx : Buf) × (reply
        ≡ done (
          if ret == length bytes then status_ok else status_failed,
          record n { tx_buf = tx },
          w',
        ))

  pub send-Sends :
      (buf : Buf) (len : ℕ) (bytes : List ℕ) (n : NfcNci) (w : World)
      → slice buf 0 len ≡ bytes
      → length bytes ≡ len
      → Sends bytes n w (send hw buf len n w)
  unfolding send
  send-Sends buf len bytes n w e l = (buf, rw (e, l))

  -- A command that writes its packet front to back.
  put_all-Sends :
      (bytes : List ℕ) (n : NfcNci) (w : World)
      → IsBytes bytes
      → length bytes ≤ 258
      → Sends bytes n w (
          put_all bytes (record { buf = n.tx_buf; p = 0 }) >>= λ s.
          send hw s.buf (length bytes) n w)
  put_all-Sends bytes n w b h =
      rw (put_all-wrote bytes (record { buf = n.tx_buf; p = 0 }) (omega arith))
        (send-Sends _ (length bytes) bytes n w (slice-splice n.tx_buf 0 bytes b) refl)

  -- In the state NONE, and with one of the two reset types of the specification, the reset command
  -- sends 20 00 01 and the type.
  pub cmd_core_reset-Sends :
      (type : ℕ) (n : NfcNci) (w : World)
      → n.state ≡ state_none
      → type ≤ 1
      → Sends (0x20 ∷ 0x00 ∷ 1 ∷ type ∷ []) n w (cmd_core_reset hw type n w)
  unfolding cmd_core_reset hdr0 hdr1
  cmd_core_reset-Sends type n w s h =
      let P = Sends (0x20 ∷ 0x00 ∷ 1 ∷ type ∷ []) n w in
      if_rule P (not (is n.state state_none)) (λ bad. absurd (ground arith))
        (λ good.
          if_rule P (type == 0 || type == 1)
            (λ ok. put_all-Sends (0x20 ∷ 0x00 ∷ 1 ∷ type ∷ []) n w (omega arith) (omega arith))
            (λ bad. absurd (ground arith)))

  -- In the state RESET the initialisation command sends 20 01 00.
  pub cmd_core_init-Sends :
      (n : NfcNci) (w : World)
      → n.state ≡ rfst_reset
      → Sends (0x20 ∷ 0x01 ∷ 0 ∷ []) n w (cmd_core_init hw n w)
  unfolding cmd_core_init hdr0 hdr1
  cmd_core_init-Sends n w s =
      if_rule (Sends (0x20 ∷ 0x01 ∷ 0 ∷ []) n w) (not (is n.state rfst_reset))
        (λ bad. absurd (ground arith))
        (λ good. put_all-Sends (0x20 ∷ 0x01 ∷ 0 ∷ []) n w (omega arith) (omega arith))

  -- With an interface active the deactivation command sends 21 06 01 and the type.
  pub cmd_rf_deactivate-Sends :
      (type : ℕ) (n : NfcNci) (w : World)
      → n.state ≡ rfst_poll_active
      → type < 256
      → Sends (0x21 ∷ 0x06 ∷ 1 ∷ type ∷ []) n w (cmd_rf_deactivate hw type n w)
  unfolding cmd_rf_deactivate hdr0 hdr1
  cmd_rf_deactivate-Sends type n w s h =
      if_rule (Sends (0x21 ∷ 0x06 ∷ 1 ∷ type ∷ []) n w) (not (is n.state rfst_poll_active))
        (λ bad. absurd (ground arith))
        (λ good. put_all-Sends (0x21 ∷ 0x06 ∷ 1 ∷ type ∷ []) n w (omega arith) (omega arith))

  -- With an interface active, up to 252 bytes are sent whole, behind a header for connection 0.
  pub data_send-Sends :
      (cid : ℕ) (bytes : List ℕ) (n : NfcNci) (w : World)
      → n.state ≡ rfst_poll_active
      → IsBytes bytes
      → length bytes ≤ 252
      → Sends (0 ∷ 0 ∷ length bytes ∷ bytes) n w (data_send hw cid bytes (length bytes) n w)
  unfolding data_send
  data_send-Sends cid bytes n w s b h =
      if_rule (Sends (0 ∷ 0 ∷ length bytes ∷ bytes) n w) (not (is n.state rfst_poll_active))
        (λ bad. absurd (ground arith))
        (λ good.
          rw
            (
              put_all-wrote (0 ∷ 0 ∷ length bytes ∷ []) (record { buf = n.tx_buf; p = 0 })
                  (omega arith),
              put_payload-wrote (length bytes) bytes
                  (wrote (record { buf = n.tx_buf; p = 0 }) (0 ∷ 0 ∷ length bytes ∷ [])) refl
                  (omega arith),
            )
            (send-Sends _ ((3 + length bytes) % 256) (0 ∷ 0 ∷ length bytes ∷ bytes) n w
              (slice_written n.tx_buf ((3 + length bytes) % 256) (0 ∷ 0 ∷ length bytes ∷ []) bytes
                (omega arith) (omega arith, (omega arith, (omega arith, b))))
              (omega arith)))

  -- The bug: `size` is a uint8_t. Of 253 to 255 bytes only the first `length - 253` bytes of the
  -- packet are handed to the hardware (none of 253), and the status is OK if it takes those.
  pub data_send_truncates :
      (cid : ℕ) (bytes : List ℕ) (n : NfcNci) (w : World)
      → n.state ≡ rfst_poll_active
      → IsBytes bytes
      → 253 ≤ length bytes
      → length bytes ≤ 255
      → Sends
          (take (length bytes - 253) (0 ∷ 0 ∷ length bytes ∷ bytes))
          n
          w
          (data_send hw cid bytes (length bytes) n w)
  unfolding data_send
  data_send_truncates cid bytes n w s b lo hi =
      if_rule (Sends (take (length bytes - 253) (0 ∷ 0 ∷ length bytes ∷ bytes)) n w)
        (not (is n.state rfst_poll_active)) (λ bad. absurd (ground arith))
        (λ good.
          rw
            (
              put_all-wrote (0 ∷ 0 ∷ length bytes ∷ []) (record { buf = n.tx_buf; p = 0 })
                  (omega arith),
              put_payload-wrote (length bytes) bytes
                  (wrote (record { buf = n.tx_buf; p = 0 }) (0 ∷ 0 ∷ length bytes ∷ [])) refl
                  (omega arith),
            )
            (send-Sends _ ((3 + length bytes) % 256) _ n w
              (rw remainder (
                slice_written_take n.tx_buf (length bytes - 253) (0 ∷ 0 ∷ length bytes ∷ []) bytes
                  (omega arith) (omega arith, (omega arith, (omega arith, b)))))
              (rw (length-take (length bytes - 253) (0 ∷ 0 ∷ length bytes ∷ bytes)) (omega arith))))
    where
      remainder : (3 + length bytes) % 256 ≡ length bytes - 253
      remainder = omega arith

  -- The bug: nothing checks the length against the buffer. A longer payload is written past its end.
  pub data_send-fault :
      (cid : ℕ) (bytes : List ℕ) (len : ℕ) (n : NfcNci) (w : World)
      → n.state ≡ rfst_poll_active
      → 256 ≤ len
      → data_send hw cid bytes len n w ≡ fault
  unfolding data_send
  data_send-fault cid bytes len n w s h =
      if_rule (λ r. r ≡ fault) (not (is n.state rfst_poll_active)) (λ bad. absurd (ground arith))
        (λ good. rw (
          put_all-wrote (0 ∷ 0 ∷ len ∷ []) (record { buf = n.tx_buf; p = 0 }) (omega arith),
          put_payload-fault len bytes (wrote (record { buf = n.tx_buf; p = 0 }) (0 ∷ 0 ∷ len ∷ []))
              (omega arith) (omega arith),
        ))
