-- ===== src/Tags/Handlers.antt =====
-- src/tags/NfcTags.cpp: `handleEvent` and the handler of each command's state machine.
use arduino_nfc.Common.{ℕ, ◌==◌, not, if◌then◌else◌, Bool, Option, none, some}
use arduino_nfc.Common.Outcome.{Outcome, done, ◌>>=◌}
use arduino_nfc.Hw.{NfcHw}
use arduino_nfc.Nci.Constants.{reset_type_keep_cfg, deactivate_type_discovery}
use arduino_nfc.Nci.Types.{NfcNci, status_ok, status_rejected}
use arduino_nfc.Nci.Commands.{
  Reply, cmd_core_reset, cmd_core_init, cmd_rf_discover_map, cmd_rf_discover, cmd_rf_deactivate,
}
use arduino_nfc.Tags.Types.{
  tags_status_rejected, tags_status_failed, tags_id_reset, tags_id_discover, tags_id_deactivate,
  tags_id_dump, AppCallback, AppCall, cb_reset, cb_discover, cb_deactivate, cb_dump, call,
  TagsState, init_reset, init_init, init_done, discover_map, discover, discover_ntf,
  discover_activated, deactivate, deactivate_rsp, deactivate_ntf, dumping, NfcTags,
  translate_nci_status,
}
use arduino_nfc.Tags.Interface.{intf_handle_dump}
use arduino_nfc.Tags.Stack.{discover_maps, discover_confs, is_tag}

module _ (hw : NfcHw) where
  open hw use {World}

  -- What a handler gives: the call of the application, and the three states.
  abbrev pub Turn : Type 0
  Turn = Outcome (Option AppCall × NfcTags × NfcNci × World)

  -- The end of a handler: an error is told to the application, with its status translated or not.
  unfoldable pub notify : AppCallback → ℕ → ℕ → ℕ → NfcTags → NfcNci → World → Turn
  notify cb id status told t n w =
      if not (status == status_ok)
      then (call t.registered cb told id none >>= λ c. done (c, t, n, w))
      else done (none, t, n, w)

  -- A handler's switch that sends one NCI command.
  unfoldable pub sends : AppCallback → ℕ → Reply hw → NfcTags → Turn
  sends cb id r t = do (status, n, w) ← r; notify cb id status (translate_nci_status status) t n w

  unfoldable pub handle_reset : NfcTags → NfcNci → World → Turn
  handle_reset t n w = elim t.state [
    | init_reset ↦ sends cb_reset tags_id_reset (cmd_core_reset hw reset_type_keep_cfg n w) t
    | init_init ↦ sends cb_reset tags_id_reset (cmd_core_init hw n w) t
    | init_done ↦ sends cb_reset tags_id_reset (done (status_ok, n, w)) t
    | _ ↦ sends cb_reset tags_id_reset (done (status_rejected, n, w)) t
  ]

  unfoldable pub handle_discover : NfcTags → NfcNci → World → Turn
  handle_discover t n w = elim t.state [
    | discover_map ↦
        sends cb_discover tags_id_discover (cmd_rf_discover_map hw 3 (some discover_maps) n w) t
    | discover ↦
        sends cb_discover tags_id_discover (cmd_rf_discover hw 2 (some discover_confs) n w) t
    | discover_ntf ↦ sends cb_discover tags_id_discover (done (status_ok, n, w)) t
    | discover_activated ↦ sends cb_discover tags_id_discover (done (status_ok, n, w)) t
    | _ ↦ sends cb_discover tags_id_discover (done (status_rejected, n, w)) t
  ]

  unfoldable pub handle_deactivate : NfcTags → NfcNci → World → Turn
  handle_deactivate t n w = elim t.state [
    | deactivate ↦
        sends cb_deactivate tags_id_deactivate (cmd_rf_deactivate hw deactivate_type_discovery n w)
          t
    | deactivate_rsp ↦ sends cb_deactivate tags_id_deactivate (done (status_ok, n, w)) t
    | deactivate_ntf ↦
        sends cb_deactivate tags_id_deactivate (done (status_ok, n, w))
          (record t { id = tags_id_discover; state = discover_ntf })
    | _ ↦ sends cb_deactivate tags_id_deactivate (done (status_rejected, n, w)) t
  ]

  abbrev pub is_dumping : TagsState → Bool
  is_dumping dumping = Bool.true
  is_dumping _ = Bool.false

  -- Here the status is one of the tag API already.
  unfoldable pub handle_dump : NfcTags → NfcNci → World → Turn
  handle_dump t n w = do
    (status, t', n', w') ←
        (if not (is_dumping t.state)
          then done (tags_status_rejected, t, n, w)
          else if not (is_tag t.intf)
          then done (tags_status_failed, t, n, w)
          else intf_handle_dump hw t n w)
    notify cb_dump tags_id_dump status status t' n' w'

  unfoldable pub handle_event : NfcTags → NfcNci → World → Turn
  handle_event t n w =
      if t.id == tags_id_reset
      then handle_reset t n w
      else if t.id == tags_id_discover
      then handle_discover t n w
      else if t.id == tags_id_deactivate
      then handle_deactivate t n w
      else if t.id == tags_id_dump
      then handle_dump t n w
      else done (none, t, n, w)
