-- ===== src/Nci/Commands.antt =====
-- src/nci/NfcNci.cpp: the commands and `dataSend`, which format a packet in `_tx_buf` and send it.
-- A command gives its uint8_t status, the object and the world. Log lines are left out.
pub mod Format
pub mod Packets
pub mod Discovery
use arduino_nfc.Common.{
  ℕ, zero, suc, ◌+◌, ◌-◌, ◌%◌, ◌==◌, if◌then◌else◌, not, ◌||◌, Option, none, some, List, [], ◌∷◌,
  get_elem?,
}
use arduino_nfc.Common.Outcome.{Outcome, done, fault, ◌>>=◌}
use arduino_nfc.Common.Buffer.{Buf, store, slice}
use arduino_nfc.Hw.{NfcHw}
use arduino_nfc.Nci.Header.{hdr0, hdr1}
use arduino_nfc.Nci.Constants.{
  reset_type_keep_cfg, reset_type_reset_cfg, core_param_size_reset, core_param_size_init,
  rf_param_size_deactivate,
}
use arduino_nfc.Nci.Types.{
  nci_packet_size, nci_msg_hdr_size, mt_data, mt_cmd, gid_core, gid_rf_manage, status_ok,
  status_rejected, status_failed, status_invalid_param, core_reset, core_init, rf_discover_map,
  rf_discover, rf_deactivate, DiscoverMap, DiscoverConf, state_none, rfst_reset, rfst_idle,
  rfst_poll_active, is, NfcNci,
}

-- `_tx_buf` and the pointer `p` into it.
pub record Stream : Type 0 where
  pub buf : Buf
  pub p : ℕ

-- UINT8_TO_STREAM
unfoldable pub put : ℕ → Stream → Outcome Stream
put u8 s = do b ← store nci_packet_size s.buf s.p u8; done (record { buf = b; p = s.p + 1 })

-- A sequence of such writes.
unfoldable pub put_all : List ℕ → Stream → Outcome Stream
unfolding put
put_all [] s = done s
put_all (b ∷ bs) s = put b s >>= put_all bs

-- `a[i]`, which faults past the end of the array.
abbrev pub item {ℓ} : {A : Type ℓ} → List A → ℕ → Outcome A
item a i = elim (get_elem? a i) [ none ↦ fault | some x ↦ done x ]

-- `while (num--)` over the entries of an array: the last entry comes first.
unfoldable pub put_entries {ℓ} : {A : Type ℓ} → (A → List ℕ) → ℕ → List A → Stream → Outcome Stream
put_entries bytes zero entries s = done s
put_entries bytes (suc num) entries s = do
  e ← item entries num
  s' ← put_all (bytes e) s
  put_entries bytes num entries s'

-- The writes of one round of that loop, for each of the two commands.
abbrev pub map_bytes : DiscoverMap → List ℕ
map_bytes m = m.protocol ∷ m.mode ∷ m.intf_type ∷ []

abbrev pub conf_bytes : DiscoverConf → List ℕ
conf_bytes c = c.mode ∷ c.freq ∷ []

-- `while (len--)` over the payload
unfoldable pub put_payload : ℕ → List ℕ → Stream → Outcome Stream
put_payload zero bytes s = done s
put_payload (suc len) [] s = fault
put_payload (suc len) (b ∷ bs) s = put b s >>= put_payload len bs

module _ (hw : NfcHw) where
  open hw use {World}

  abbrev pub Reply : Type 0
  Reply = Outcome (ℕ × NfcNci × World)

  -- `ret = _hw.write(buf, len); status = ret == len ? OK : FAILED`
  unfoldable pub send : Buf → ℕ → NfcNci → World → Reply
  send buf len n w =
      let (ret, w') = hw.write (slice buf 0 len) w in
      done (if ret == len then status_ok else status_failed, record n { tx_buf = buf }, w')

  unfoldable pub cmd_core_reset : ℕ → NfcNci → World → Reply
  cmd_core_reset type n w =
      if not (is n.state state_none)
      then done (status_rejected, n, w)
      else if type == reset_type_keep_cfg || type == reset_type_reset_cfg
      then (do
        s ←
            put_all (hdr0 mt_cmd gid_core ∷ hdr1 core_reset ∷ core_param_size_reset ∷ type ∷ [])
              (record { buf = n.tx_buf; p = 0 })
        send s.buf (nci_msg_hdr_size + core_param_size_reset) n w)
      else done (status_invalid_param, n, w)

  unfoldable pub cmd_core_init : NfcNci → World → Reply
  cmd_core_init n w = if not (is n.state rfst_reset) then done (status_rejected, n, w) else (do
    s ←
        put_all (hdr0 mt_cmd gid_core ∷ hdr1 core_init ∷ core_param_size_init ∷ [])
          (record { buf = n.tx_buf; p = 0 })
    send s.buf (nci_msg_hdr_size + core_param_size_init) n w)

  -- The end of both discovery commands, from `*p_size = (uint8_t)(p - p_start)` on.
  unfoldable pub send_sized : Stream → NfcNci → World → Reply
  send_sized s n w = do
    b ← store nci_packet_size s.buf 2 (s.p - 3)
    send b ((nci_msg_hdr_size + (s.p - 3) % 256) % 256) n w

  -- `maps` is `none` for a null pointer.
  unfoldable pub cmd_rf_discover_map : ℕ → Option (List DiscoverMap) → NfcNci → World → Reply
  cmd_rf_discover_map num maps n w =
      if not (is n.state rfst_idle) then done (status_rejected, n, w) else elim maps [
        | none ↦ done (status_invalid_param, n, w)
        | some ms ↦ do
          h ←
              put_all (hdr0 mt_cmd gid_rf_manage ∷ hdr1 rf_discover_map ∷ [])
                (record { buf = n.tx_buf; p = 0 })
          s ← put num (record h { p = h.p + 1 })
          s' ← put_entries map_bytes num ms s
          send_sized s' n w
      ]

  unfoldable pub cmd_rf_discover : ℕ → Option (List DiscoverConf) → NfcNci → World → Reply
  cmd_rf_discover num confs n w =
      if not (is n.state rfst_idle) then done (status_rejected, n, w) else elim confs [
        | none ↦ done (status_invalid_param, n, w)
        | some cs ↦ if num == 0 then done (status_invalid_param, n, w) else (do
          h ←
              put_all (hdr0 mt_cmd gid_rf_manage ∷ hdr1 rf_discover ∷ [])
                (record { buf = n.tx_buf; p = 0 })
          s ← put num (record h { p = h.p + 1 })
          s' ← put_entries conf_bytes num cs s
          send_sized s' n w)
      ]

  unfoldable pub cmd_rf_deactivate : ℕ → NfcNci → World → Reply
  cmd_rf_deactivate type n w =
      if not (is n.state rfst_poll_active) then done (status_rejected, n, w) else (do
        s ←
            put_all
              (hdr0 mt_cmd gid_rf_manage
                ∷ hdr1 rf_deactivate
                ∷ rf_param_size_deactivate
                ∷ type
                ∷ [])
              (record { buf = n.tx_buf; p = 0 })
        send s.buf (nci_msg_hdr_size + rf_param_size_deactivate) n w)

  -- NCI_DATA_BLD_HDR is given NCI_MT_DATA where it wants the connection, so `cid` is not used.
  unfoldable pub data_send : ℕ → List ℕ → ℕ → NfcNci → World → Reply
  data_send cid bytes len n w =
      if not (is n.state rfst_poll_active) then done (status_rejected, n, w) else (do
        h ← put_all (mt_data ∷ 0 ∷ len ∷ []) (record { buf = n.tx_buf; p = 0 })
        s ← put_payload len bytes h
        send s.buf ((nci_msg_hdr_size + len) % 256) n w)
