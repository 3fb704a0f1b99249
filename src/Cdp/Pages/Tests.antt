-- ===== src/Cdp/Pages/Tests.antt =====
-- A browser that is slow to load, and the theorems about pages there.
use prax_sandbox.Base.{
  ℕ, suc, ◌≡◌, refl, true, ◌==◌, if◌then◌else◌, leb, [], ◌∷◌, Option, none, some,
}
use prax_sandbox.Text
use prax_sandbox.Text.{Text, codes, text_eq}
use prax_sandbox.Cdp.Scripts.{element_script, text_script}
use prax_sandbox.Cdp.Pages
use prax_sandbox.Cdp.Pages.{
  PageCommand, evaluate, go_to, capture, pressed, released, PageReply, refused, result, value_of,
  page_text, saved, no_data, Position, clicked_at, clicked_text, no_position, get_page_text,
  poll_ready, navigate, screenshot, click_element, click_text, unknown_url, get_page_url,
}
use prax_sandbox.Cdp.Pages.Sends.{
  recorded, IsClicked, click-IsClicked, IsNavigated, navigate-IsNavigated, ready, text_command,
  url_command, title_command,
}

pages_run : Unit {0}
unfolding Text.text_beq Text.decimal get_page_text poll_ready navigate screenshot click_element
    click_text get_page_url
pages_run = tt

-- The state is how often the browser was asked; it has loaded after two questions.
abbrev browse : ℕ → PageCommand → ℕ × PageReply
browse n (evaluate t) = (
  suc n,
  result
      (some (
        if t == codes "document.readyState"
        then if leb 2 n then codes "complete" else []
        else codes "found"))
      none,
)
browse n (go_to url) = (n, if url == [] then refused (codes "no URL") else result none none)
browse n capture = (n, result none (some (codes "QQ")))
browse n _ = (n, result none none)

abbrev load : Text → Option Position
load t =
    if t == codes "found"
    then some record { error = none; x = some 3; y = some 4; matched = none }
    else none

abbrev quote : Text → Text
quote t = t

abbrev no_object : Text → Option Text
no_object t = none

page_tests :
    (navigate browse (true ∷ true ∷ true ∷ true ∷ []) 0 (codes "u")
      ≡ (6, page_text (codes "found") (codes "found") (codes "found")))
    × ((navigate (recorded browse) (true ∷ true ∷ true ∷ true ∷ []) (0, []) (codes "u")).0.1
        ≡ title_command
          ∷ url_command
          ∷ text_command
          ∷ ready
          ∷ ready
          ∷ ready
          ∷ go_to (codes "u")
          ∷ [])
    × ((screenshot browse (λ t. some t) (codes "/tmp") 7 0).1
        ≡ saved (codes "/tmp/cdp_screenshot_7.jpg") (some (codes "QQ")))
    × (click_text browse quote load 0 (codes "OK") ≡ (1, clicked_text (codes "OK") 3 4))
    × ((get_page_url browse no_object 0).1 ≡ unknown_url)
unfolding pages_run
page_tests = (refl, refl, refl, refl, refl)

click-IsClicked_example :
    IsClicked browse load
      (λ p x y. clicked_at x y)
      (browse 0 (evaluate (element_script quote (codes "a")))).1
      (evaluate (element_script quote (codes "a")) ∷ [])
      (click_element (recorded browse) quote load (0, []) (codes "a"))
    × IsClicked browse load
        (λ p x y. clicked_text (Pages.or_else p.matched (codes "a")) x y)
        (browse 0 (evaluate (text_script quote (codes "a")))).1
        (evaluate (text_script quote (codes "a")) ∷ [])
        (click_text (recorded browse) quote load (0, []) (codes "a"))
click-IsClicked_example = click-IsClicked browse quote load 0 (codes "a")

navigate-IsNavigated_example :
    IsNavigated browse
      (true ∷ true ∷ [])
      (codes "u")
      (browse 0 (go_to (codes "u"))).1
      (navigate (recorded browse) (true ∷ true ∷ []) (0, []) (codes "u"))
navigate-IsNavigated_example = navigate-IsNavigated browse (true ∷ true ∷ []) 0 (codes "u")
