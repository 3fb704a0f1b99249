-- ===== src/Clipboard.antt =====
-- The clipboard bridge of sandbox/clipboard-bridge.py. What runs between two points where a coroutine
-- waits is one event, so that a poll and a text that a browser sets can fall between each other;
-- `xsel` is what it reads from and writes to the desktop. Clients are known by a number.
pub mod Laws
mod Tests
use prax_sandbox.Base.{
  ℕ, Bool, true, false, not, ◌&&◌, List, [], ◌∷◌, ◌++◌, Option, none, some, if◌then◌else◌, ◌==◌,
  nat_eq, is_empty, keep, map, contains,
}
use prax_sandbox.Text.{Text, text_eq}

pub data Sent : Type 0 where
  clipboard : Text → Sent
  set_ok : Sent

pub record Bridge : Type 0 where
  pub clients : List ℕ
  pub last_clipboard : Text
  -- What the desktop holds.
  pub desktop : Text
  -- What `xsel_get` gave to the poll that is under way.
  pub current : Option Text

pub data Event : Type 0 where
  -- Something is copied on the desktop.
  copied : Text → Event
  connected disconnected : ℕ → Event
  -- `xsel_get` of a poll, which fails to an empty text, and the comparison.
  poll_read : Bool → Event
  poll_compare : Event
  -- A `set` message, and the end of its `xsel_set`, which may have failed.
  set_begun : Text → Event
  set_done : ℕ → Text → Bool → Event
  -- A `get` message; `xsel_get` fails to an empty text.
  got : ℕ → Bool → Event

-- What `xsel_get` gives, where `xsel` has worked or failed.
abbrev pub xsel_get : Bridge → Bool → Text
xsel_get b ok = if ok then b.desktop else []

-- The messages that go out, with the client that each goes to.
abbrev pub Messages : Type 0
Messages = List (ℕ × Sent)

abbrev pub to_all : List ℕ → Sent → Messages
to_all clients m = map (λ c. (c, m)) clients

-- `poll_clipboard`, once `xsel_get` has returned.
unfoldable pub compare_clipboard : Bridge → Text → Bridge × Messages
compare_clipboard b current =
    if not (is_empty current) && not (current == b.last_clipboard)
    then (
      record b { last_clipboard = current; current = none },
      to_all b.clients (clipboard current),
    )
    else (record b { current = none }, [])

unfoldable pub add_client : ℕ → List ℕ → List ℕ
add_client c cs = if contains cs c then cs else c ∷ cs

unfoldable pub bridge_step : Bridge → Event → Bridge × Messages
unfolding compare_clipboard add_client
bridge_step b (copied text) = (record b { desktop = text }, [])
bridge_step b (connected c) = (record b { clients = add_client c b.clients }, [])
bridge_step b (disconnected c) = (record b { clients = keep (λ d. not (d == c)) b.clients }, [])
bridge_step b (poll_read ok) = (record b { current = some (xsel_get b ok) }, [])
bridge_step b poll_compare = elim b.current [
  | none ↦ (b, [])
  | some current ↦ compare_clipboard b current
]
bridge_step b (set_begun text) = (record b { last_clipboard = text }, [])
bridge_step b (set_done c text ok) =
    (record b { desktop = if ok then text else b.desktop }, (c, set_ok) ∷ [])
bridge_step b (got c ok) = (b, (c, clipboard (xsel_get b ok)) ∷ [])

-- The events in order, with all that is sent.
unfoldable pub bridge_run : Bridge → List Event → Bridge × Messages
bridge_run b [] = (b, [])
bridge_run b (e ∷ es) =
    let (b', sent) = bridge_step b e in let (end, more) = bridge_run b' es in (end, sent ++ more)
