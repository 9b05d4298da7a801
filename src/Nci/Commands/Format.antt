-- ===== src/Nci/Commands/Format.antt =====
-- src/nci/NfcNci.cpp: what the writes through `p` leave in `_tx_buf`.
use arduino_nfc.Common.{
  ℕ, zero, suc, ◌+◌, ◌%◌, ◌≤◌, ◌<◌, ◌≡◌, refl, sym, ◌∙◌, ap, List, [], ◌∷◌, ◌++◌, length,
  length-append, arith,
}
use arduino_nfc.Common.Outcome.{done, fault, ◌>>=◌, bind-done, bind_assoc, bind-congr}
use arduino_nfc.Common.Buffer.{update}
use arduino_nfc.Common.Buffer.Bounds.{splice, splice-append}
use arduino_nfc.Nci.Commands.{Stream, put, put_all, item, put_entries, put_payload}

-- The stream after writes that fit.
abbrev pub wrote : Stream → List ℕ → Stream
wrote s bs = record { buf = splice s.buf s.p bs; p = s.p + length bs }

pub put_all-wrote :
    (bs : List ℕ) (s : Stream) → s.p + length bs ≤ 258 → put_all bs s ≡ done (wrote s bs)
unfolding put_all put splice
put_all-wrote [] s h = ground arith
put_all-wrote (b ∷ bs) s h =
    ground (arith, put_all-wrote bs (record { buf = update s.buf s.p (b % 256); p = s.p + 1 }))

pub put_payload-wrote :
    (len : ℕ) (bytes : List ℕ) (s : Stream)
    → length bytes ≡ len
    → s.p + len ≤ 258
    → put_payload len bytes s ≡ done (wrote s bytes)
unfolding put_payload put splice
put_payload-wrote zero [] s e h = ground arith
put_payload-wrote zero (b ∷ bs) s e h = absurd (omega arith)
put_payload-wrote (suc len) [] s e h = absurd (omega arith)
put_payload-wrote (suc len) (b ∷ bs) s e h =
    ground
      (arith, put_payload-wrote len bs (record { buf = update s.buf s.p (b % 256); p = s.p + 1 }))

pub put_payload-fault :
    (len : ℕ) (bytes : List ℕ) (s : Stream)
    → s.p ≤ 258
    → 258 < s.p + len
    → put_payload len bytes s ≡ fault
unfolding put_payload put
put_payload-fault zero bytes s k h = absurd (omega arith)
put_payload-fault (suc len) [] s k h = refl
put_payload-fault (suc len) (b ∷ bs) s k h =
    ground
      (arith, put_payload-fault len bs (record { buf = update s.buf s.p (b % 256); p = s.p + 1 }))

pub wrote-append : (s : Stream) (xs ys : List ℕ) → wrote (wrote s xs) ys ≡ wrote s (xs ++ ys)
wrote-append s xs ys =
    ground (arith, splice-append s.buf s.p (s.p + length xs) xs ys, length-append xs ys)

module _ {ℓ} {A : Type ℓ} (bytes : A → List ℕ) where
  -- The bytes of the entries, from the last entry to the first.
  abbrev pub backwards : List A → List ℕ
  backwards [] = []
  backwards (e ∷ es) = backwards es ++ bytes e

  -- One more entry in front is one more round at the end.
  put_entries-cons :
      (num : ℕ) (e : A) (es : List A) (s : Stream)
      → put_entries bytes (suc num) (e ∷ es) s ≡ (put_entries bytes num es s >>= put_all (bytes e))
  unfolding put_entries
  put_entries-cons zero e es s = bind-done (put_all (bytes e) s)
  put_entries-cons (suc num) e es s =
      bind-congr (item es num) (λ x.
        bind-congr (put_all (bytes x) s) (λ s'. put_entries-cons num e es s')
        ∙ sym (bind_assoc (put_all (bytes x) s) _ _))
      ∙ sym (bind_assoc (item es num) _ _)

  -- The loop over all entries of an array, if they fit.
  pub put_entries-wrote :
      (es : List A) (s : Stream)
      → s.p + length (backwards es) ≤ 258
      → put_entries bytes (length es) es s ≡ done (wrote s (backwards es))
  unfolding put_entries splice
  put_entries-wrote [] s h = ground arith
  put_entries-wrote (e ∷ es) s h =
      rw
        (
          put_entries-cons (length es) e es s,
          put_entries-wrote es s (omega (arith, length-append (backwards es) (bytes e))),
          put_all-wrote (bytes e) (wrote s (backwards es))
              (omega (arith, length-append (backwards es) (bytes e))),
        )
        (ap done (wrote-append s (backwards es) (bytes e)))
