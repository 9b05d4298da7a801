-- ===== src/Nci/Commands/Discovery.antt =====
-- src/nci/NfcNci.cpp: the packets of the two discovery commands, whose length is filled in last.
use arduino_nfc.Common.{
  ℕ, suc, ◌+◌, ◌-◌, ◌*◌, ◌%◌, ◌≤◌, ◌<◌, ◌≡◌, refl, sym, subst, List, [], ◌∷◌, length, length-append,
  some, IsBytes, if_rule, ◌==◌, not, arith,
}
use arduino_nfc.Common.Outcome.{done, ◌>>=◌}
use arduino_nfc.Common.Buffer.{Buf, update, slice}
use arduino_nfc.Common.Buffer.Bounds.{splice, splice_before, slice-splice, slice-update_before}
use arduino_nfc.Hw.{NfcHw}
use arduino_nfc.Nci.Header.{hdr0, hdr1}
use arduino_nfc.Nci.Types.{NfcNci, rfst_idle, is, DiscoverMap, DiscoverConf}
use arduino_nfc.Nci.Commands.{
  Stream, put, put_all, put_entries, map_bytes, conf_bytes, send_sized, cmd_rf_discover_map,
  cmd_rf_discover,
}
use arduino_nfc.Nci.Commands.Format.{
  wrote, put_all-wrote, wrote-append, backwards, put_entries-wrote,
}
use arduino_nfc.Nci.Commands.Packets.{Sends, send-Sends}

-- The stream behind a header whose length byte is skipped.
abbrev after_header : Buf → ℕ → ℕ → Stream
after_header tx a c = record { buf = splice tx 0 (a ∷ c ∷ []); p = 3 }

length-map_bytes : (maps : List DiscoverMap) → length (backwards map_bytes maps) ≡ 3 * length maps
length-map_bytes [] = refl
length-map_bytes (m ∷ ms) =
    omega (arith, length-append (backwards map_bytes ms) (map_bytes m), length-map_bytes ms)

length-conf_bytes :
    (confs : List DiscoverConf) → length (backwards conf_bytes confs) ≡ 2 * length confs
length-conf_bytes [] = refl
length-conf_bytes (c ∷ cs) =
    omega (arith, length-append (backwards conf_bytes cs) (conf_bytes c), length-conf_bytes cs)

put-wrote : (v : ℕ) (s : Stream) → s.p < 258 → put v s ≡ done (wrote s (v ∷ []))
unfolding put splice
put-wrote v s h = ground arith

-- The packet in the buffer once the length is stored.
sized_slice :
    (tx : Buf) (a c : ℕ) (payload : List ℕ)
    → a < 256
    → c < 256
    → length payload < 256
    → IsBytes payload
    → slice
        (update (splice (splice tx 0 (a ∷ c ∷ [])) 3 payload) 2 (length payload % 256))
        0
        (suc (suc (suc (length payload))))
      ≡ a ∷ c ∷ length payload ∷ payload
unfolding splice
sized_slice tx a c payload ha hc hk b =
    let header : Buf = update (update tx 0 (a % 256)) 1 (c % 256) in
    ground (
      arith,
      splice_before header 3 0 payload,
      splice_before header 3 1 payload,
      slice-update_before (splice header 3 payload) 2 (length payload % 256) 3 (length payload),
      slice-splice header 3 payload b,
    )

module _ (hw : NfcHw) where
  open hw use {World}

  sized-Sends :
      (a c : ℕ) (payload : List ℕ) (n : NfcNci) (w : World)
      → a < 256
      → c < 256
      → IsBytes payload
      → length payload ≤ 252
      → Sends hw
          (a ∷ c ∷ length payload ∷ payload)
          n
          w
          (send_sized hw (wrote (after_header n.tx_buf a c) payload) n w)
  unfolding send_sized
  sized-Sends a c payload n w ha hc b h =
      rw (size, total)
        (send-Sends hw _ (suc (suc (suc (length payload)))) (a ∷ c ∷ length payload ∷ payload) n w
          (sized_slice n.tx_buf a c payload ha hc (omega arith) b) refl)
    where
      size : 3 + length payload - 3 ≡ length payload
      size = omega arith

      total : (3 + length payload % 256) % 256 ≡ suc (suc (suc (length payload)))
      total = omega arith

  -- What both commands do once their guards have passed.
  entries-Sends {ℓ} :
      {A : Type ℓ} (bytes : A → List ℕ) (es : List A) (a c : ℕ) (n : NfcNci) (w : World)
      → a < 256
      → c < 256
      → length es < 256
      → IsBytes (backwards bytes es)
      → length (backwards bytes es) ≤ 251
      → Sends hw (a ∷ c ∷ suc (length (backwards bytes es)) ∷ length es ∷ backwards bytes es) n w (
          put_all (a ∷ c ∷ []) (record { buf = n.tx_buf; p = 0 }) >>= λ h.
          put (length es) (record h { p = h.p + 1 }) >>= λ s.
          put_entries bytes (length es) es s >>= λ s'. send_sized hw s' n w)
  entries-Sends bytes es a c n w ha hc hl b h =
      rw
        (
          put_all-wrote (a ∷ c ∷ []) (record { buf = n.tx_buf; p = 0 }) (omega arith),
          put-wrote (length es) (after_header n.tx_buf a c) (omega arith),
          put_entries-wrote bytes es (wrote (after_header n.tx_buf a c) (length es ∷ []))
              (omega arith),
        )
        (subst (λ s. Sends hw payload n w (send_sized hw s n w))
          (sym (wrote-append (after_header n.tx_buf a c) (length es ∷ []) (backwards bytes es)))
          (sized-Sends a c (length es ∷ backwards bytes es) n w ha hc (hl, b) (omega arith)))
    where
      payload : List ℕ
      payload = a ∷ c ∷ suc (length (backwards bytes es)) ∷ length es ∷ backwards bytes es

  -- In the state IDLE, given an array of at most 83 maps and their number, the command sends 21 00,
  -- the length, the number, and the maps from the last to the first.
  pub cmd_rf_discover_map-Sends :
      (maps : List DiscoverMap) (n : NfcNci) (w : World)
      → n.state ≡ rfst_idle
      → IsBytes (backwards map_bytes maps)
      → length maps ≤ 83
      → Sends hw
          (0x21 ∷ 0x00 ∷ suc (3 * length maps) ∷ length maps ∷ backwards map_bytes maps)
          n
          w
          (cmd_rf_discover_map hw (length maps) (some maps) n w)
  unfolding cmd_rf_discover_map hdr0 hdr1
  cmd_rf_discover_map-Sends maps n w s b h =
      if_rule (Sends hw packet n w) (not (is n.state rfst_idle)) (λ bad. absurd (ground arith))
        (λ good. rw (← length-map_bytes maps) (
          entries-Sends map_bytes maps 0x21 0x00 n w (omega arith) (omega arith) (omega arith) b
            (omega (arith, length-map_bytes maps))))
    where
      packet : List ℕ
      packet = 0x21 ∷ 0x00 ∷ suc (3 * length maps) ∷ length maps ∷ backwards map_bytes maps

  -- In the state IDLE, given an array of 1 to 125 configurations and their number, the command sends
  -- 21 03, the length, the number, and the configurations from the last to the first.
  pub cmd_rf_discover-Sends :
      (confs : List DiscoverConf) (n : NfcNci) (w : World)
      → n.state ≡ rfst_idle
      → IsBytes (backwards conf_bytes confs)
      → 1 ≤ length confs
      → length confs ≤ 125
      → Sends hw
          (0x21 ∷ 0x03 ∷ suc (2 * length confs) ∷ length confs ∷ backwards conf_bytes confs)
          n
          w
          (cmd_rf_discover hw (length confs) (some confs) n w)
  unfolding cmd_rf_discover hdr0 hdr1
  cmd_rf_discover-Sends confs n w s b lo hi =
      if_rule (Sends hw packet n w) (not (is n.state rfst_idle)) (λ bad. absurd (ground arith))
        (λ good.
          if_rule (Sends hw packet n w) (length confs == 0) (λ empty. absurd (ground arith))
            (λ some_conf. rw (← length-conf_bytes confs) (
              entries-Sends conf_bytes confs 0x21 0x03 n w (omega arith) (omega arith) (omega arith)
                b (omega (arith, length-conf_bytes confs)))))
    where
      packet : List ℕ
      packet = 0x21 ∷ 0x03 ∷ suc (2 * length confs) ∷ length confs ∷ backwards conf_bytes confs
