-- ===== src/Sketch/BringUp.antt =====
-- examples: from `setup` to the search for tags, on a controller that answers.
use arduino_nfc.Common.{ℕ, ◌≡◌, refl, sym, subst, ◌∙◌, true, [], ◌∷◌}
use arduino_nfc.Common.Outcome.{done}
use arduino_nfc.Hw.{NfcHw}
use arduino_nfc.Nci.Types.{
  NfcNci, NciState, state_none, rfst_reset, rfst_idle, rfst_discovery, cb_core_reset, cb_core_init,
  cb_rf_discover_map, cb_rf_discover,
}
use arduino_nfc.Tags.Types.{
  NfcTags, TagsState, tags_none, t2_none, init_init, init_done, discover_map, discover,
  discover_ntf, tags_id_reset, tags_id_discover,
}
use arduino_nfc.Tags.Stack.{cmd_reset}
use arduino_nfc.Tags.Coupling.{Coupled}
use arduino_nfc.Tags.Sending.{
  sending_init, sending_map, sending_discover, handle_event-SendsSilently, handle_event_resets,
}
use arduino_nfc.Tags.Stack
use arduino_nfc.Nci.Session
use arduino_nfc.Sketch.{Sketch, setup, tell, passes}
use arduino_nfc.Sketch.Application.{Application}
use arduino_nfc.Sketch.Exchanges.{Idle, Stage, Passes, pass_answered, reply-Success, Exchange}

-- New objects, as the constructors and `setup` leave them.
pub record Fresh (t : NfcTags) (n : NfcNci) : Type 0 where
  pub tags : t.state ≡ tags_none
  pub tag_idle : t.tag2.state ≡ t2_none
  pub nci : n.state ≡ state_none

-- The identifier under another name.
renamed :
    {id : ℕ} {ts : TagsState} {ns : NciState} (id' : ℕ) (t : NfcTags) (n : NfcNci)
    → id ≡ id'
    → Stage ts id ns t n
    → Stage ts id' ns t n
renamed id' t n e g = record {
  tags = g.tags;
  tags_id = g.tags_id ∙ e;
  nci = g.nci;
  intf = g.intf;
  idle = g.idle;
  nci_registered = g.nci_registered;
}

module _ (hw : NfcHw) where
  open hw use {World}

  -- The four exchanges, one after the other.
  pub record Cooperates (w w' : World) : Type 0 where
    pub w1 : World
    pub w2 : World
    pub w3 : World
    pub reset : Exchange hw cb_core_reset (0x20 ∷ 0x00 ∷ 1 ∷ 0 ∷ []) w w1
    pub init : Exchange hw cb_core_init (0x20 ∷ 0x01 ∷ 0 ∷ []) w1 w2
    pub map :
        Exchange hw cb_rf_discover_map
          (0x21 ∷ 0x00 ∷ 10 ∷ 3 ∷ 3 ∷ 1 ∷ 1 ∷ 2 ∷ 1 ∷ 1 ∷ 1 ∷ 1 ∷ 1 ∷ [])
          w2
          w3
    pub discover : Exchange hw cb_rf_discover (0x21 ∷ 0x03 ∷ 5 ∷ 2 ∷ 2 ∷ 1 ∷ 0 ∷ 1 ∷ []) w3 w'

  module _ (sk : Sketch) (app : Application sk) where
    pass_reset :
        (t : NfcTags) (n : NfcNci) (w w' : World)
        → Idle t
        → n.state ≡ state_none
        → n.registered ≡ true
        → Exchange hw cb_core_reset (0x20 ∷ 0x00 ∷ 1 ∷ 0 ∷ []) w w'
        → Passes hw sk app.reset_response init_init tags_id_reset rfst_reset app.reset t n w w'
    unfolding cmd_reset tell
    pass_reset t n w w' o a k (p, r, ans) =
        let t1 = (cmd_reset t).1 in
        pass_answered hw sk cb_core_reset (0x20 ∷ 0x00 ∷ 1 ∷ 0 ∷ []) p app.reset app.reset_response
          app.reset_response t t1 n w w' (app.resets t)
          (handle_event_resets hw t1 n w refl refl a ans.takes)
          (record {
            registered = o.registered;
            tag_registered = o.tag_registered;
            tag_idle = o.tag_idle;
          })
          refl k ans (λ tx. reply-Success hw cb_core_reset p n tx ans.gives.valid r a)
          (λ t2 n2. refl)

    pass_init :
        (t : NfcTags) (n : NfcNci) (w w' : World)
        → Stage init_init tags_id_reset rfst_reset t n
        → Exchange hw cb_core_init (0x20 ∷ 0x01 ∷ 0 ∷ []) w w'
        → Passes hw sk app.discover init_done t.id rfst_idle app.reset_response t n w w'
    unfolding tell
    pass_init t n w w' g (p, r, ans) =
        pass_answered hw sk cb_core_init (0x20 ∷ 0x01 ∷ 0 ∷ []) p app.reset_response
          app.reset_response app.discover t t n w w' (app.awaits_reset t)
          (handle_event-SendsSilently hw _ t n w (sending_init g.tags_id g.tags)
            (subst (λ s. Coupled s n.state) (sym g.tags) g.nci) ans.takes)
          g.idle g.intf g.nci_registered ans
          (λ tx. reply-Success hw cb_core_init p n tx ans.gives.valid r g.nci)
          (λ t2 n2. app.told_reset t2 n2)

    pass_map :
        (t : NfcTags) (n : NfcNci) (w w' : World)
        → Stage init_done t.id rfst_idle t n
        → Exchange hw cb_rf_discover_map
            (0x21 ∷ 0x00 ∷ 10 ∷ 3 ∷ 3 ∷ 1 ∷ 1 ∷ 2 ∷ 1 ∷ 1 ∷ 1 ∷ 1 ∷ 1 ∷ [])
            w
            w'
        → Passes hw sk app.discover_response discover tags_id_discover rfst_idle app.discover t n w
            w'
    unfolding tell
    pass_map t n w w' g (p, r, ans) =
        let t1 = record t { state = discover_map; id = tags_id_discover } in
        pass_answered hw sk cb_rf_discover_map
          (0x21 ∷ 0x00 ∷ 10 ∷ 3 ∷ 3 ∷ 1 ∷ 1 ∷ 2 ∷ 1 ∷ 1 ∷ 1 ∷ 1 ∷ 1 ∷ []) p app.discover
          app.discover_response app.discover_response t t1 n w w' (app.discovers t g.tags)
          (handle_event-SendsSilently hw _ t1 n w (sending_map refl refl) g.nci ans.takes)
          (record {
            registered = g.idle.registered;
            tag_registered = g.idle.tag_registered;
            tag_idle = g.idle.tag_idle;
          })
          g.intf g.nci_registered ans
          (λ tx. reply-Success hw cb_rf_discover_map p n tx ans.gives.valid r g.nci) (λ t2 n2. refl)

    pass_discover :
        (t : NfcTags) (n : NfcNci) (w w' : World)
        → Stage discover tags_id_discover rfst_idle t n
        → Exchange hw cb_rf_discover (0x21 ∷ 0x03 ∷ 5 ∷ 2 ∷ 2 ∷ 1 ∷ 0 ∷ 1 ∷ []) w w'
        → Passes hw sk app.discovering discover_ntf tags_id_discover rfst_discovery
            app.discover_response t n w w'
    unfolding tell
    pass_discover t n w w' g (p, r, ans) =
        let (t', n', g', e) =
          pass_answered hw sk cb_rf_discover (0x21 ∷ 0x03 ∷ 5 ∷ 2 ∷ 2 ∷ 1 ∷ 0 ∷ 1 ∷ []) p
            app.discover_response app.discover_response app.discovering t t n w w'
            (app.awaits_discover t)
            (handle_event-SendsSilently hw _ t n w (sending_discover g.tags_id g.tags)
              (subst (λ s. Coupled s n.state) (sym g.tags) g.nci) ans.takes)
            g.idle g.intf g.nci_registered ans
            (λ tx. reply-Success hw cb_rf_discover p n tx ans.gives.valid r g.nci)
            (λ t2 n2. app.told_discover t2 n2) in
        (t', n', renamed tags_id_discover t' n' g.tags_id g', e)

    -- For every sketch that fills the interface Application, from new objects, and on a controller that
    -- answers the four commands of the start: `setup` and four passes of the loop return, and then the
    -- sketch and both layers look for tags.
    pub bring_up :
        (t : NfcTags) (n : NfcNci) (w w' : World)
        → Fresh t n
        → Cooperates w w'
        → (t' : NfcTags) × (n' : NfcNci) × Stage discover_ntf tags_id_discover rfst_discovery t' n'
          × (passes sk hw 4 app.reset (setup t n).0 (setup t n).1 w
              ≡ done (app.discovering, t', n', w'))
    unfolding passes setup Stack.init Session.init
    bring_up t n w w' fresh c =
        let t0 = (setup t n).0 in
        let n0 = (setup t n).1 in
        let o : Idle t0 = record {
          registered = refl;
          tag_registered = refl;
          tag_idle = fresh.tag_idle;
        } in
        let (t1, n1, g1, e1) = pass_reset t0 n0 w c.w1 o fresh.nci refl c.reset in
        let (t2, n2, g2, e2) = pass_init t1 n1 c.w1 c.w2 g1 c.init in
        let (t3, n3, g3, e3) =
          pass_map t2 n2 c.w2 c.w3 (renamed t2.id t2 n2 (sym g2.tags_id) g2) c.map in
        let (t4, n4, g4, e4) = pass_discover t3 n3 c.w3 w' g3 c.discover in
        (t4, n4, g4, rw (e1, e2, e3, e4))
