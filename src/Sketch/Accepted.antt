-- ===== src/Sketch/Accepted.antt =====
-- examples/TagDump/TagDump.ino: the commands that the sketch gives, from `setup` on.
use arduino_nfc.Common.{ℕ, ◌≡◌, ◌≢◌, refl, sym, subst, arith}
use arduino_nfc.Common.Outcome.{done, ◌>>=◌, Returns, Completes, Completes-bind}
use arduino_nfc.Common.Buffer.Bounds.{AllBytes}
use arduino_nfc.Hw.{NfcHw}
use arduino_nfc.Nci.Session
use arduino_nfc.Nci.Types.{NfcNci, state_none}
use arduino_nfc.Tags.Types.{
  NfcTags, tags_none, discover_activated, dumping, to_tag2, Type2State, t2_none, tags_status_ok,
  tags_status_failed,
}
use arduino_nfc.Tags.Type2
use arduino_nfc.Tags.Interface.{intf_cmd_dump}
use arduino_nfc.Tags.Stack.{cmd_reset, cmd_discover, cmd_deactivate, cmd_dump}
use arduino_nfc.Tags.Stack
use arduino_nfc.Tags.Handlers.{handle_event}
use arduino_nfc.Tags.Busy.{Sound}
use arduino_nfc.Tags.Served.{handle_event-Completes}
use arduino_nfc.Tags.Coupling.{Coupled}
use arduino_nfc.Sketch.{setup, passes}
use arduino_nfc.Sketch.Dump.{
  DumpState, st_reset, st_reset_response, st_discover, st_discover_response, st_discovering,
  st_dump, st_dump_response, st_deactivate, st_deactivate_response, st_error, st_end, dump_sketch,
  dump_handle_event,
}
use arduino_nfc.Sketch.Ready.{Ready}
use arduino_nfc.Sketch.Passes.{Started, Between, passes-Between, dump_handle_event-Started}

-- The tag API takes the command that the sketch is about to give. A dump it takes unless the tag's
-- interface is still busy with an earlier one.
abbrev pub Accepts : DumpState → NfcTags → Type 0
Accepts st_reset t = (cmd_reset t).0 ≡ tags_status_ok
Accepts st_discover t = (cmd_discover t).0 ≡ tags_status_ok
Accepts st_dump t =
    (t.tag2.state ≡ t2_none
      → Returns (λ r. (r.0 ≡ tags_status_ok) × (r.1.state ≡ dumping)) (cmd_dump t))
    × (t.tag2.state ≢ t2_none → cmd_dump t ≡ done (tags_status_failed, t))
Accepts s t = Unit

dump-Accepts :
    (s : Type2State) (t : NfcTags)
    → t.tag2.state ≡ s
    → t.state ≡ discover_activated
    → t.intf ≡ to_tag2
    → Accepts st_dump t
unfolding cmd_dump intf_cmd_dump Type2.cmd_dump
dump-Accepts s t e a i = (λ h. ground arith, λ h. ground arith)

Ready-Accepts : (a : DumpState) (t : NfcTags) → Ready a t → Accepts a t
unfolding cmd_reset cmd_discover
Ready-Accepts st_reset t r = refl
Ready-Accepts st_discover t r = ground arith
Ready-Accepts st_dump t r = dump-Accepts t.tag2.state t refl r.1 r.2
Ready-Accepts st_reset_response t r = tt
Ready-Accepts st_discover_response t r = tt
Ready-Accepts st_discovering t r = tt
Ready-Accepts st_dump_response t r = tt
Ready-Accepts st_deactivate t r = tt
Ready-Accepts st_deactivate_response t r = tt
Ready-Accepts st_error t r = tt
Ready-Accepts st_end t r = tt

cmd_dump-Completes : (t : NfcTags) → Completes (cmd_dump t)
unfolding cmd_dump intf_cmd_dump Type2.cmd_dump
cmd_dump-Completes t = ground arith

dump_handle_event-Completes : (a : DumpState) (t : NfcTags) → Completes (dump_handle_event a t)
unfolding dump_handle_event
dump_handle_event-Completes st_reset t = tt
dump_handle_event-Completes st_discover t = tt
dump_handle_event-Completes st_dump t =
    Completes-bind (cmd_dump t) _ (cmd_dump-Completes t) (λ r e. tt)
dump_handle_event-Completes st_deactivate t = tt
dump_handle_event-Completes s t = tt

-- New objects, as `setup` leaves them.
pub record New (t : NfcTags) (n : NfcNci) : Type 0 where
  pub tags : t.state ≡ tags_none
  pub nci : n.state ≡ state_none
  pub bytes : AllBytes n.rx_buf

pub setup-Sound : (t : NfcTags) (n : NfcNci) → New t n → Sound (setup t n).0
unfolding setup Stack.init
setup-Sound t n k = record {
  registered = refl;
  tag_registered = refl;
  settled = ground (arith, k.tags);
  busy = λ d. absurd (ground (arith, k.tags));
}

module _ (hw : NfcHw) where
  open hw use {World}

  setup-Between :
      (t : NfcTags) (n : NfcNci) (w : World)
      → New t n
      → Between hw (st_reset, (setup t n).0, (setup t n).1, w)
  unfolding setup Stack.init Session.init
  setup-Between t n w k =
      (setup-Sound t n k, subst (λ s. Coupled s n.state) (sym k.tags) k.nci, k.bytes)

  after_passes :
      (k : ℕ) (t t' : NfcTags) (n n' : NfcNci) (w w' : World) (a : DumpState)
      → New t n
      → passes dump_sketch hw k st_reset (setup t n).0 (setup t n).1 w ≡ done (a, t', n', w')
      → Between hw (a, t', n', w')
  after_passes k t t' n n' w w' a new e =
      subst (Returns (Between hw)) e
        (passes-Between hw k st_reset (setup t n).0 (setup t n).1 w (setup-Between t n w new))

  -- After `setup` of new objects and any number of passes of the loop that return, whatever the hardware
  -- does: the tag API takes the reset or the discovery that the sketch is about to command, and the dump
  -- unless the tag's interface is still busy with an earlier one, when the dump fails and changes nothing.
  pub passes-Accepts :
      (k : ℕ) (t t' : NfcTags) (n n' : NfcNci) (w w' : World) (a : DumpState)
      → New t n
      → passes dump_sketch hw k st_reset (setup t n).0 (setup t n).1 w ≡ done (a, t', n', w')
      → Accepts a t'
  passes-Accepts k t t' n n' w w' a new e =
      Ready-Accepts a t' (after_passes k t t' n n' w w' a new e).0

  -- After `setup` of new objects and any number of passes of the loop that return, whatever the hardware
  -- does: in the next pass the sketch's own handler and then that of the tag API return. So the sketch
  -- never has the tag API read the status that it leaves unset after a dump.
  pub passes_served :
      (k : ℕ) (t t' : NfcTags) (n n' : NfcNci) (w w' : World) (a : DumpState)
      → New t n
      → passes dump_sketch hw k st_reset (setup t n).0 (setup t n).1 w ≡ done (a, t', n', w')
      → Completes (dump_handle_event a t' >>= λ r. handle_event hw r.1 n' w')
  passes_served k t t' n n' w w' a new e =
      let b = after_passes k t t' n n' w w' a new e in
      Completes-bind (dump_handle_event a t') _ (dump_handle_event-Completes a t') (λ r f.
        handle_event-Completes hw r.1 n' w'
          (subst (Returns (Started n')) f (dump_handle_event-Started hw a t' n' b.0 b.1)).1)
