-- ===== src/Cdp/Pages.antt =====
-- Reading a page, going to one and clicking in one, in prax_sandbox/cdp_service.py, over a browser as
-- a parameter. json.loads, json.dumps, base64 and the path of the temporary directory are
-- parameters; a clock is the list of what the tests against the deadline give.
pub mod Sends
mod Tests
use prax_sandbox.Base.{
  ℕ, Bool, true, false, List, [], ◌∷◌, ◌++◌, Option, none, some, ltb, if◌then◌else◌, ◌==◌, is_empty,
  length, take,
}
use prax_sandbox.Text.{Text, codes, text_eq, decimal}
use prax_sandbox.Cdp.Scripts.{element_script, text_script, url_script}

pub data PageCommand : Type 0 where
  -- `Runtime.evaluate`, by value.
  evaluate : Text → PageCommand
  -- `Page.navigate`, and `Page.captureScreenshot` in JPEG of quality 80.
  go_to : Text → PageCommand
  capture : PageCommand
  pressed released : ℕ → ℕ → PageCommand

-- The reply: its error, or the value of its result and its data, where it has them, as texts.
pub data PageReply : Type 0 where
  refused : Text → PageReply
  result : Option Text → Option Text → PageReply

abbrev pub value_of : PageReply → Option Text
value_of (refused e) = none
value_of (result value _) = value

abbrev pub or_else : Option Text → Text → Text
or_else none d = d
or_else (some v) d = v

-- The text, the URL and the title.
pub data PageText : Type 0 where
  page_text : Text → Text → Text → PageText
  page_error : Text → PageText

abbrev pub cut_notice : Text
cut_notice = codes "\n\n[Content truncated]"

abbrev pub truncated : Text → ℕ → Text
truncated text max_length =
    if ltb max_length (length text) then take max_length text ++ cut_notice else text

pub data Shot : Type 0 where
  shot_error : Text → Shot
  no_data : Shot
  -- The path, and what is written there; `none` where the data are not base64, an exception.
  saved : Text → Option Text → Shot

-- What a script found, as `json.loads` reads it.
pub record Position : Type 0 where
  pub error : Option Text
  pub x : Option ℕ
  pub y : Option ℕ
  pub matched : Option Text

pub data Click : Type 0 where
  clicked_at : ℕ → ℕ → Click
  clicked_text : Text → ℕ → ℕ → Click
  -- The error of a reply or of the script; no position in it; nothing that can be read.
  click_error : Text → Click
  no_position : Text → Click
  not_parsed : Click

-- What the script found, or `unknown` twice where it cannot be read.
pub data PageUrl (J : Type 0) : Type 0 where
  url_error : Text → PageUrl J
  url_and_title : J → PageUrl J
  unknown_url : PageUrl J

abbrev pub url_reply : {J : Type 0} → (Text → Option J) → PageReply → PageUrl J
url_reply loads (refused e) = url_error e
url_reply loads (result value _) = elim (loads (or_else value (codes "{}"))) [
  | none ↦ unknown_url
  | some j ↦ url_and_title j
]

module _ {B : Type 0} (send : B → PageCommand → B × PageReply) where
  abbrev pub sent : B → PageCommand → B
  sent b c = (send b c).0

  abbrev pub address_and_title : B → Text → B × PageText
  address_and_title b text =
      let (b', url) = send b (evaluate (codes "document.location.href")) in
      let (b'', title) = send b' (evaluate (codes "document.title")) in
      (
        b'',
        page_text text (or_else (value_of url) (codes "unknown"))
            (or_else (value_of title) (codes "Untitled")),
      )

  abbrev pub after_text : ℕ → B × PageReply → B × PageText
  after_text max_length (b, refused e) = (b, page_error e)
  after_text max_length (b, result value _) =
      address_and_title b (truncated (or_else value []) max_length)

  unfoldable pub get_page_text : B → ℕ → B × PageText
  get_page_text b max_length =
      after_text max_length (send b (evaluate (codes "document.body?.innerText || ''")))

  -- Until the page is complete, or the deadline.
  unfoldable pub poll_ready : B → List Bool → B
  poll_ready b [] = b
  poll_ready b (in_time ∷ clock) =
      let (b', r) = send b (evaluate (codes "document.readyState")) in
      let later = poll_ready b' clock in
      if in_time then (if or_else (value_of r) [] == codes "complete" then b' else later) else b

  abbrev pub after_go : List Bool → B × PageReply → B × PageText
  after_go clock (b, refused e) = (b, page_error e)
  after_go clock (b, result _ _) = get_page_text (poll_ready b clock) 5000

  unfoldable pub navigate : List Bool → B → Text → B × PageText
  unfolding get_page_text poll_ready
  navigate clock b url = after_go clock (send b (go_to url))

  abbrev pub shot_path : Text → ℕ → Text
  shot_path temp_dir now = temp_dir ++ (codes "/cdp_screenshot_" ++ (decimal now ++ codes ".jpg"))

  abbrev pub shot_of : (Text → Option Text) → Text → ℕ → PageReply → Shot
  shot_of b64decode temp_dir now (refused e) = shot_error e
  shot_of b64decode temp_dir now (result _ data') =
      let b64 = or_else data' [] in
      if is_empty b64 then no_data else saved (shot_path temp_dir now) (b64decode b64)

  unfoldable pub screenshot : (Text → Option Text) → Text → ℕ → B → B × Shot
  screenshot b64decode temp_dir now b =
      let (b', r) = send b capture in (b', shot_of b64decode temp_dir now r)

  -- Two events of the mouse.
  abbrev pub click_page : B → ℕ → ℕ → B
  click_page b x y = sent (sent b (pressed x y)) (released x y)

  -- Where a position has an error it is returned, and where it has no coordinates it is missed.
  abbrev pub click_position : Text → (Position → ℕ → ℕ → Click) → B → Option Position → B × Click
  click_position missed clicked b none = (b, not_parsed)
  click_position missed clicked b (some p) = elim p.error [
    | some e ↦ (b, click_error e)
    | none ↦ elim p.x [
      | none ↦ (b, no_position missed)
      | some x ↦ elim p.y [
        | none ↦ (b, no_position missed)
        | some y ↦ (click_page b x y, clicked p x y)
      ]
    ]
  ]

  abbrev pub after_script :
      (Text → Option Position) → Text → (Position → ℕ → ℕ → Click) → B × PageReply → B × Click
  after_script loads missed clicked (b, refused e) = (b, click_error e)
  after_script loads missed clicked (b, result value _) =
      click_position missed clicked b (loads (or_else value (codes "{}")))

  unfoldable pub click_element : (Text → Text) → (Text → Option Position) → B → Text → B × Click
  unfolding element_script
  click_element dumps loads b selector =
      after_script loads selector (λ p x y. clicked_at x y)
        (send b (evaluate (element_script dumps selector)))

  unfoldable pub click_text : (Text → Text) → (Text → Option Position) → B → Text → B × Click
  unfolding text_script
  click_text dumps loads b text =
      after_script loads text (λ p x y. clicked_text (or_else p.matched text) x y)
        (send b (evaluate (text_script dumps text)))

  -- The error, or the value alone.
  unfoldable pub evaluate_js : B → Text → B × PageReply
  evaluate_js b expression =
      let (b', r) = send b (evaluate expression) in
      (b', elim r [ refused e ↦ refused e | result value _ ↦ result value none ])

  unfoldable pub get_page_url : {J : Type 0} → (Text → Option J) → B → B × PageUrl J
  get_page_url loads b = let (b', r) = send b (evaluate url_script) in (b', url_reply loads r)
