-- ===== src/Terminal/Input/Composition.antt =====
-- Composed text of an input method is sent once, in `bindInputListeners` of
-- frontend/src/hooks/useTerminal.ts.
use loci_terminal.Common.{
  ℕ, ◌+◌, ◌<◌, ◌≡◌, refl, ap, ◌∙◌, ◌≢◌, String, true, List, [], ◌∷◌, some, truthy, All, arith,
}
use loci_terminal.Terminal.Line.{Line, bytes, ready_state, open_}
use loci_terminal.Terminal.Input.{
  send, send_bytes, send_string, send_some, on_data, on_composition_start, on_composition_end,
}

module _ (encode : String → List ℕ) where
  -- xterm reports each of the texts, at its time.
  unfoldable pub reports : List (String × ℕ) → Line → Line
  reports [] l = l
  reports ((text, now) ∷ xs) l = reports xs (on_data encode text now l)

  reports-composing :
      (xs : List (String × ℕ)) (l : Line) → l.inst.composing ≡ true → reports xs l ≡ l
  unfolding reports on_data
  reports-composing [] l c = refl
  reports-composing ((text, now) ∷ xs) l c =
      let e : on_data encode text now l ≡ l = ground arith in rw e (reports-composing xs l c)

  reports-suppressed :
      (xs : List (String × ℕ)) (l : Line)
      → All (λ x. x.1 < l.inst.composition_suppress_until) xs
      → reports xs l ≡ l
  unfolding reports on_data
  reports-suppressed [] l h = refl
  reports-suppressed ((text, now) ∷ xs) l h =
      let e : on_data encode text now l ≡ l = ground arith in rw e (reports-suppressed xs l h.1)

  composed_text :
      (text : String) (now i : ℕ) (l : Line)
      → l.inst.ws ≡ some i
      → l.sockets i ≡ open_
      → text ≢ ""
      → (on_composition_end encode text now (on_composition_start l)).sent
        ≡ (i, bytes (encode text)) ∷ l.sent
  unfolding on_composition_start on_composition_end send_some truthy send_string send_bytes
      ready_state send
  composed_text text now i l w o ne = ground arith

  -- A composition while the socket is open: whatever xterm reports meanwhile, and in the 50 ms after
  -- it, the composed text goes out, and only once.
  pub composed_once :
      (during after : List (String × ℕ)) (text : String) (now i : ℕ) (l : Line)
      → l.inst.ws ≡ some i
      → l.sockets i ≡ open_
      → text ≢ ""
      → All (λ x. x.1 < now + 50) after
      → let started = reports during (on_composition_start l) in
        (reports after (on_composition_end encode text now started)).sent
        ≡ (i, bytes (encode text)) ∷ l.sent
  unfolding on_composition_start on_composition_end
  composed_once during after text now i l w o ne h =
      let m = on_composition_end encode text now (on_composition_start l) in
      rw (reports-composing during (on_composition_start l) refl) (
        ap (λ (k : Line). k.sent) (reports-suppressed after m h)
        ∙ composed_text text now i l w o ne)
