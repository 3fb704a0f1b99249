-- ===== src/Cdp/Pages/Sends.antt =====
-- What the functions of prax_sandbox/cdp_service.py for pages send to the browser.
use prax_sandbox.Base.{
  ℕ, zero, suc, ◌+◌, ◌≤◌, ◌≡◌, ◌≢◌, ◌⊎◌, inl, inr, refl, ap, ◌∙◌, Bool, true, false, List, [], ◌∷◌,
  Option, none, some, arith, ltb, length, length-append, length-take, subst, take, Bool-cases,
  Option-cases,
}
use prax_sandbox.Text.{Text, codes, text_eq}
use prax_sandbox.Cdp.Scripts.{element_script, text_script}
use prax_sandbox.Cdp.Pages.{
  PageCommand, evaluate, go_to, pressed, released, PageReply, refused, result, value_of, or_else,
  PageText, page_text, page_error, truncated, cut_notice, Position, Click, click_error, clicked_at,
  clicked_text, get_page_text, poll_ready, navigate, after_text, after_go, click_position,
  after_script, click_element, click_text,
}

abbrev pub ready : PageCommand
ready = evaluate (codes "document.readyState")

abbrev pub text_command : PageCommand
text_command = evaluate (codes "document.body?.innerText || ''")

abbrev pub url_command : PageCommand
url_command = evaluate (codes "document.location.href")

abbrev pub title_command : PageCommand
title_command = evaluate (codes "document.title")

-- So many questions whether the page is ready, before a log.
abbrev pub polls : ℕ → List PageCommand → List PageCommand
polls zero log = log
polls (suc n) log = ready ∷ polls n log

-- How often the clock is in time.
abbrev pub ticks : List Bool → ℕ
ticks [] = 0
ticks (true ∷ clock) = suc (ticks clock)
ticks (false ∷ clock) = 0

length-truncated :
    (text : Text) (max_length : ℕ)
    → length (truncated text max_length) ≤ max_length + length cut_notice
length-truncated text max_length = elim (Bool-cases (ltb max_length (length text))) [
  | inl e ↦
      rw (e, truncated)
        (omega
          (arith, length-append (take max_length text) cut_notice, length-take max_length text))
  | inr e ↦ rw (e, truncated) (ground arith)
]

module _ {B : Type 0} (send : B → PageCommand → B × PageReply) where
  -- The browser with what it was sent, the last first.
  abbrev pub recorded : B × List PageCommand → PageCommand → (B × List PageCommand) × PageReply
  recorded (b, log) c = (((send b c).0, c ∷ log), (send b c).1)

  -- No position to click: none was read, or an error, or one without both coordinates.
  abbrev pub IsMissed : Option Position → Type 0
  IsMissed o =
      (o ≡ none)
      ⊎ ((p : Position) × (o ≡ some p) × ((p.error ≢ none) ⊎ ((p.x ≡ none) ⊎ (p.y ≡ none))))

  -- Where a position was found, the mouse is pressed and released there; else nothing more is sent.
  abbrev pub IsClicked :
      (Text → Option Position)
      → (Position → ℕ → ℕ → Click)
      → PageReply
      → List PageCommand
      → (B × List PageCommand) × Click
      → Type 0
  IsClicked loads clicked (refused e) log (b, click) = (b.1 ≡ log) × (click ≡ click_error e)
  IsClicked loads clicked (result value _) log (b, click) =
      (IsMissed (loads (or_else value (codes "{}"))) × (b.1 ≡ log))
      ⊎ ((p : Position) × (x : ℕ) × (y : ℕ) × (loads (or_else value (codes "{}")) ≡ some p)
          × (p.error ≡ none)
          × (p.x ≡ some x)
          × (p.y ≡ some y)
          × (b.1 ≡ released x y ∷ pressed x y ∷ log)
          × (click ≡ clicked p x y))

  click_position-IsClicked :
      (loads : Text → Option Position) (missed : Text) (clicked : Position → ℕ → ℕ → Click)
      (value data' : Option Text) (b : B) (log : List PageCommand) (o : Option Position)
      → loads (or_else value (codes "{}")) ≡ o
      → IsClicked loads clicked
          (result value data')
          log
          (click_position recorded missed clicked (b, log) o)
  click_position-IsClicked loads missed clicked value data' b log none h = inl (inl h, refl)
  click_position-IsClicked loads missed clicked value data' b log (some p) h =
      elim (Option-cases p.error) [
        | inr (e, is) ↦ rw (is, click_position) (inl (inr (p, h, inl (some-is is)), refl))
        | inl none_e ↦ elim (Option-cases p.x) [
          | inl is ↦ rw (none_e, is, click_position) (inl (inr (p, h, inr (inl is)), refl))
          | inr (x, is) ↦ elim (Option-cases p.y) [
            | inl is' ↦ rw (none_e, is, is', click_position) (inl (inr (p, h, inr (inr is')), refl))
            | inr (y, is') ↦
                rw (none_e, is, is', click_position) (inr (p, x, y, h, none_e, is, is', refl, refl))
          ]
        ]
      ]
    where
      some-is : {o : Option Text} {t : Text} → o ≡ some t → o ≢ none
      some-is is e = cc

  after_script-IsClicked :
      (loads : Text → Option Position) (missed : Text) (clicked : Position → ℕ → ℕ → Click) (b : B)
      (log : List PageCommand) (r : PageReply)
      → IsClicked loads clicked r log (after_script recorded loads missed clicked ((b, log), r))
  after_script-IsClicked loads missed clicked b log (refused e) = (refl, refl)
  after_script-IsClicked loads missed clicked b log (result value data') =
      click_position-IsClicked loads missed clicked value data' b log
        (loads (or_else value (codes "{}"))) refl

  -- `click_element` and `click_text` send one script. Where it is refused, nothing more is sent and
  -- the refusal is returned; where its value is read as a position with both coordinates and no
  -- error, the mouse is pressed and released at these, and the reply says so; where it is not, that
  -- is where no position is read, or one with an error or without a coordinate, nothing more is
  -- sent.
  pub click-IsClicked :
      (dumps : Text → Text) (loads : Text → Option Position) (b : B) (text : Text)
      → IsClicked loads
          (λ p x y. clicked_at x y)
          (send b (evaluate (element_script dumps text))).1
          (evaluate (element_script dumps text) ∷ [])
          (click_element recorded dumps loads (b, []) text)
        × IsClicked loads
            (λ p x y. clicked_text (or_else p.matched text) x y)
            (send b (evaluate (text_script dumps text))).1
            (evaluate (text_script dumps text) ∷ [])
            (click_text recorded dumps loads (b, []) text)
  unfolding click_element click_text
  click-IsClicked dumps loads b text =
      let script = evaluate (element_script dumps text) in
      let script' = evaluate (text_script dumps text) in
      (
        after_script-IsClicked loads text (λ p x y. clicked_at x y) (send b script).0 (script ∷ [])
            (send b script).1,
        after_script-IsClicked loads text (λ p x y. clicked_text (or_else p.matched text) x y)
            (send b script').0 (script' ∷ []) (send b script').1,
      )

  polls-ready : (n : ℕ) (log : List PageCommand) → polls n (ready ∷ log) ≡ polls (suc n) log
  polls-ready zero log = refl
  polls-ready (suc n) log = ap (◌∷◌ ready) (polls-ready n log)

  poll_ready-polls :
      (clock : List Bool) (b : B) (log : List PageCommand)
      → (n : ℕ) × (n ≤ ticks clock) × ((poll_ready recorded (b, log) clock).1 ≡ polls n log)
  unfolding poll_ready
  poll_ready-polls [] b log = (0, omega arith, refl)
  poll_ready-polls (false ∷ clock) b log = (0, omega arith, refl)
  poll_ready-polls (true ∷ clock) b log =
      let next = send b ready in
      elim (Bool-cases (text_eq.equals (or_else (value_of next.1) []) (codes "complete"))) [
        | inl e ↦ (1, omega arith, rw (e, poll_ready) refl)
        | inr e ↦
            let (n, bound, same) = poll_ready-polls clock next.0 (ready ∷ log) in
            (suc n, omega arith, rw (e, poll_ready) (same ∙ polls-ready n log))
      ]

  -- What `get_page_text` sends after a log: one command where the browser refuses, else three, and
  -- the text is as long as the bound and the notice at most.
  abbrev pub IsRead : List PageCommand → ℕ → (B × List PageCommand) × PageText → Type 0
  IsRead log max_length (b, page_error e) = b.1 ≡ text_command ∷ log
  IsRead log max_length (b, page_text text url title) =
      (b.1 ≡ title_command ∷ url_command ∷ text_command ∷ log)
      × (length text ≤ max_length + length cut_notice)

  after_text-IsRead :
      (b : B) (log : List PageCommand) (max_length : ℕ) (r : PageReply)
      → IsRead log max_length (after_text recorded max_length ((b, text_command ∷ log), r))
  after_text-IsRead b log max_length (refused e) = refl
  after_text-IsRead b log max_length (result value data') =
      (refl, length-truncated (or_else value []) max_length)

  -- The commands that `navigate` sends: `Page.navigate` alone where it is refused; else the state of
  -- the page is asked for as often as the clock is in time at most, and the page is read.
  abbrev pub IsNavigated : List Bool → Text → PageReply → (B × List PageCommand) × PageText → Type 0
  IsNavigated clock url (refused e) p = (p.0.1 ≡ go_to url ∷ []) × (p.1 ≡ page_error e)
  IsNavigated clock url (result _ _) p =
      (n : ℕ) × (n ≤ ticks clock) × IsRead (polls n (go_to url ∷ [])) 5000 p

  get_page_text-IsRead :
      (b : B × List PageCommand) (log : List PageCommand) (max_length : ℕ)
      → b.1 ≡ log
      → IsRead log max_length (get_page_text recorded b max_length)
  unfolding get_page_text
  get_page_text-IsRead (b, log') log max_length h =
      subst (λ l. IsRead l max_length (get_page_text recorded (b, log') max_length)) h
        (after_text-IsRead (send b text_command).0 log' max_length (send b text_command).1)

  after_go-IsNavigated :
      (clock : List Bool) (b : B) (url : Text) (r : PageReply)
      → IsNavigated clock url r (after_go recorded clock ((b, go_to url ∷ []), r))
  after_go-IsNavigated clock b url (refused e) = (refl, refl)
  after_go-IsNavigated clock b url (result value data') =
      let (n, bound, same) = poll_ready-polls clock b (go_to url ∷ []) in
      (
        n,
        bound,
        get_page_text-IsRead (poll_ready recorded (b, go_to url ∷ []) clock)
            (polls n (go_to url ∷ [])) 5000 same,
      )

  -- `navigate` sends `Page.navigate` first, and nothing else where that is refused; else it asks for
  -- the state of the page as often as the clock is in time at most, and then for the text, and for
  -- the address and the title where the text is not refused; the text it returns has 5000 characters
  -- and the notice that it is cut at most.
  pub navigate-IsNavigated :
      (clock : List Bool) (b : B) (url : Text)
      → IsNavigated clock url (send b (go_to url)).1 (navigate recorded clock (b, []) url)
  unfolding navigate
  navigate-IsNavigated clock b url =
      after_go-IsNavigated clock (send b (go_to url)).0 url (send b (go_to url)).1
