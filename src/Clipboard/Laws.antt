-- ===== src/Clipboard/Laws.antt =====
-- What clients of sandbox/clipboard-bridge.py get to see.
use prax_sandbox.Base.{
  All, Bool, ◌∙◌, ℕ, ◌≡◌, ◌≢◌, refl, ◌⊎◌, inl, inr, true, List, [], ◌∷◌, none, some, arith,
  Bool-cases, ◌==◌,
}
use prax_sandbox.Text.{Text, text_eq}
use prax_sandbox.Clipboard.{
  clipboard, set_ok, Bridge, Event, copied, connected, disconnected, got, poll_read, poll_compare,
  set_begun, set_done, xsel_get, Messages, to_all, compare_clipboard, bridge_step, bridge_run,
}

abbrev pub poll : List Event
poll = poll_read true ∷ poll_compare ∷ []

compare_clipboard-same :
    (b : Bridge) (text : Text)
    → (text == b.last_clipboard) ≡ true
    → compare_clipboard b text ≡ (record b { current = none }, [])
unfolding compare_clipboard
compare_clipboard-same b [] same = refl
compare_clipboard-same b (c ∷ s) same = rw (same, compare_clipboard) refl

-- An event that is neither end of a poll's wait for `xsel`.
abbrev pub IsOther : Event → Type 0
IsOther (poll_read ok) = ⊥
IsOther poll_compare = ⊥
IsOther _ = Unit

current-step : (b : Bridge) (e : Event) → IsOther e → (bridge_step b e).0.current ≡ b.current
unfolding bridge_step
current-step b (copied text) h = refl
current-step b (connected c) h = refl
current-step b (disconnected c) h = refl
current-step b (poll_read ok) h = absurd h
current-step b poll_compare h = absurd h
current-step b (set_begun text) h = refl
current-step b (set_done c text ok) h = refl
current-step b (got c ok) h = refl

current-run :
    (b : Bridge) (es : List Event) → All IsOther es → (bridge_run b es).0.current ≡ b.current
unfolding bridge_run
current-run b [] h = refl
current-run b (e ∷ es) (h, rest) = current-run (bridge_step b e).0 es rest ∙ current-step b e h

-- What a poll that has read a text does: nothing, or it sends the text to all.
abbrev pub IsCompared : Bridge → Text → Bridge × Messages → Type 0
IsCompared b read (b', sent) =
    (((read ≡ []) ⊎ (read ≡ b.last_clipboard))
      × (sent ≡ [])
      × (b'.last_clipboard ≡ b.last_clipboard))
    ⊎ ((read ≢ [])
        × (read ≢ b.last_clipboard)
        × (sent ≡ to_all b.clients (clipboard read))
        × (b'.last_clipboard ≡ read))

compare_clipboard-IsCompared :
    (b : Bridge) (read : Text) → IsCompared b read (compare_clipboard b read)
unfolding compare_clipboard
compare_clipboard-IsCompared b [] = inl (inl refl, refl, refl)
compare_clipboard-IsCompared b (c ∷ s) = elim (Bool-cases ((c ∷ s) == b.last_clipboard)) [
  | inl e ↦
      let same = (text_eq.equals_iff (c ∷ s) b.last_clipboard).0 e in
      rw (e, compare_clipboard) (inl (inr same, refl, refl))
  | inr e ↦
      rw (e, compare_clipboard)
        (inr (
          (λ same. cc),
          (λ same. ground (arith, (text_eq.equals_iff (c ∷ s) b.last_clipboard).1 same)),
          refl,
          refl,
        ))
]

-- A poll reads the desktop, or an empty text where `xsel` fails; then any events of the desktop, of
-- browsers and of their messages may come; then it compares. It sends nothing, and the last text
-- stays, where what it has read is empty or is the text last seen or set by then; else it sends
-- what it has read to every client that is there by then, and that is the last text.
pub bridge_run-poll :
    (b : Bridge) (ok : Bool) (es : List Event)
    → All IsOther es
    → IsCompared
        (bridge_run (bridge_step b (poll_read ok)).0 es).0
        (xsel_get b ok)
        (bridge_step (bridge_run (bridge_step b (poll_read ok)).0 es).0 poll_compare)
unfolding bridge_step
bridge_run-poll b ok es others =
    let read : Bridge = record b { current = some (xsel_get b ok) } in
    let between = (bridge_run read es).0 in
    let compared : bridge_step between poll_compare ≡ compare_clipboard between (xsel_get b ok) =
      rw (current-run read es others, bridge_step) refl in
    rw compared (compare_clipboard-IsCompared between (xsel_get b ok))

-- A text that a browser sets is on the desktop when it is told so, if `xsel` did not fail, and the
-- next poll sends it to no client.
pub bridge_run-set :
    (b : Bridge) (c : ℕ) (text : Text)
    → ((bridge_run b (set_begun text ∷ set_done c text true ∷ poll)).0.desktop ≡ text)
      × ((bridge_run b (set_begun text ∷ set_done c text true ∷ poll)).1 ≡ (c, set_ok) ∷ [])
unfolding bridge_run bridge_step
bridge_run-set b c text =
    let told : Bridge = record b { last_clipboard = text; desktop = text; current = some text } in
    rw (compare_clipboard-same told text ((text_eq.equals_iff text text).1 refl)) (refl, refl)
