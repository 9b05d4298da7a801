-- ===== src/Tags/Switches.antt =====
-- src/tags/NfcTags.cpp: the handlers of reset, discovery and deactivation send at most one command.
use arduino_nfc.Common.{ℕ, ◌≡◌, ◌≢◌, refl, some, arith}
use arduino_nfc.Common.Outcome.{done, Returns}
use arduino_nfc.Hw.{NfcHw}
use arduino_nfc.Nci.Types.{NfcNci, status_ok, status_rejected}
use arduino_nfc.Nci.Commands.{Reply}
use arduino_nfc.Nci.Session.{
  OnlySends, issue, issue-OnlySends, reset_with, initialise, map_with, discover_with,
  deactivate_with,
}
use arduino_nfc.Tags.Types.{
  AppCallback, NfcTags, TagsState, init_reset, init_init, init_done, discover_map, discover,
  discover_ntf, discover_activated, deactivate, deactivate_rsp, deactivate_ntf, cb_reset,
  cb_discover, cb_deactivate, tags_id_reset, tags_id_discover, tags_id_deactivate,
}
use arduino_nfc.Tags.Stack.{discover_maps, discover_confs}
use arduino_nfc.Tags.Handlers.{Turn, sends, handle_reset, handle_discover, handle_deactivate}
use arduino_nfc.Common.Outcome.{Completes}
use arduino_nfc.Nci.Session.{Command}
use arduino_nfc.Nci.Total.{InBounds, issue-Completes}

module _ (hw : NfcHw) where
  open hw use {World}

  -- The handler sends at most one command, which returns, and tells the application of an error.
  abbrev pub Switch : AppCallback → ℕ → NfcTags → NfcNci → Turn hw → Type 0
  Switch cb id t n turn =
      (r : Reply hw) × Returns (OnlySends hw n) r × Completes r × (turn ≡ sends hw cb id r t)

  commanded :
      (c : Command) (cb : AppCallback) (id : ℕ) (t : NfcTags) (n : NfcNci) (w : World)
      (turn : Turn hw)
      → InBounds c
      → turn ≡ sends hw cb id (issue hw c n w) t
      → Switch cb id t n turn
  commanded c cb id t n w turn b e =
      (issue hw c n w, issue-OnlySends hw c n w, issue-Completes hw c n w b, e)

  settled :
      (status : ℕ) (cb : AppCallback) (id : ℕ) (t : NfcTags) (n : NfcNci) (w : World)
      (turn : Turn hw)
      → turn ≡ sends hw cb id (done (status, n, w)) t
      → Switch cb id t n turn
  settled status cb id t n w turn e = (done (status, n, w), refl, tt, e)

  pub handle_reset-Switch :
      (s : TagsState) (t : NfcTags) (n : NfcNci) (w : World)
      → t.state ≡ s
      → Switch cb_reset tags_id_reset t n (handle_reset hw t n w)
  unfolding handle_reset issue
  handle_reset-Switch init_reset t n w e =
      commanded (reset_with 0) cb_reset tags_id_reset t n w _ (omega arith) (ground arith)
  handle_reset-Switch init_init t n w e =
      commanded initialise cb_reset tags_id_reset t n w _ (omega arith) (ground arith)
  handle_reset-Switch init_done t n w e =
      settled status_ok cb_reset tags_id_reset t n w _ (ground arith)
  handle_reset-Switch _ t n w e =
      settled status_rejected cb_reset tags_id_reset t n w _ (ground arith)

  pub handle_discover-Switch :
      (s : TagsState) (t : NfcTags) (n : NfcNci) (w : World)
      → t.state ≡ s
      → Switch cb_discover tags_id_discover t n (handle_discover hw t n w)
  unfolding handle_discover issue
  handle_discover-Switch discover_map t n w e =
      commanded (map_with 3 (some discover_maps)) cb_discover tags_id_discover t n w _ (omega arith)
        (ground arith)
  handle_discover-Switch discover t n w e =
      commanded (discover_with 2 (some discover_confs)) cb_discover tags_id_discover t n w _
        (omega arith) (ground arith)
  handle_discover-Switch discover_ntf t n w e =
      settled status_ok cb_discover tags_id_discover t n w _ (ground arith)
  handle_discover-Switch discover_activated t n w e =
      settled status_ok cb_discover tags_id_discover t n w _ (ground arith)
  handle_discover-Switch _ t n w e =
      settled status_rejected cb_discover tags_id_discover t n w _ (ground arith)

  pub handle_deactivate-Switch :
      (s : TagsState) (t : NfcTags) (n : NfcNci) (w : World)
      → t.state ≡ s
      → s ≢ deactivate_ntf
      → Switch cb_deactivate tags_id_deactivate t n (handle_deactivate hw t n w)
  unfolding handle_deactivate issue
  handle_deactivate-Switch deactivate t n w e h =
      commanded (deactivate_with 3) cb_deactivate tags_id_deactivate t n w _ (omega arith)
        (ground arith)
  handle_deactivate-Switch deactivate_rsp t n w e h =
      settled status_ok cb_deactivate tags_id_deactivate t n w _ (ground arith)
  handle_deactivate-Switch deactivate_ntf t n w e h = absurd (h refl)
  handle_deactivate-Switch _ t n w e h =
      settled status_rejected cb_deactivate tags_id_deactivate t n w _ (ground arith)
