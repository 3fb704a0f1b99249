-- ===== src/EgressGate/Proxy.antt =====
-- The proxy of prax_sandbox/egress_gate/gate.py: `_handle` as the list of what it does to the
-- outside, in order. What it reads from elsewhere is a parameter: how a text is read as an IP
-- address and as a URL, and what the resolver answers (`none` for an `OSError`). The decision that
-- `decide` returns in the end is an argument; how it comes about is in EgressGate/Gate.
pub mod Effects
pub mod Reading
pub mod Origin
mod Tests
use prax_sandbox.Base.{
  ℕ, Bool, true, false, not, ◌&&◌, ◌||◌, List, [], ◌∷◌, ◌++◌, Option, none, some, if◌then◌else◌,
  ◌==◌, nat_eq, is_empty, keep, all, leb,
}
use prax_sandbox.Text.{
  Text, codes, text_eq, lower, upper, decimal, starts_with, cut, split_crlf, join, crlf, rcut,
  strip,
}
use prax_sandbox.EgressGate.Ip.{Address, is_public}
use prax_sandbox.EgressGate.Policy.{
  Action, allow, deny, ask, Reason, Policy, Verdict, private_allowed,
}
use prax_sandbox.EgressGate.Policy
use prax_sandbox.EgressGate.Gate.{Gate, GateConfig, Why, by_policy, is_tainted}

-- Why a destination is refused by its address.
pub data Refusal : Type 0 where
  not_public : Address → Refusal
  not_resolved : Refusal
  resolver_failed : Refusal

pub data Logged : Type 0 where
  denied : Why → Logged
  ssrf : Refusal → Logged
  let_through : Why → Address → Logged

pub data Effect : Type 0 where
  -- A DNS query.
  lookup_name : Text → ℕ → Effect
  connect : Address → ℕ → Effect
  log : Logged → Effect
  -- A status line to the client.
  respond : ℕ → Effect
  send_upstream : Text → Effect

-- The request as it is judged: `method` is the method on the line, `judged_method` and `path` are
-- `none` for a tunnel.
pub record Request : Type 0 where
  pub method : Text
  pub host : Text
  pub port : ℕ
  pub judged_method : Option Text
  pub path : Option Text
  pub version : Text
  -- The head below the request line, and what was read past the head.
  pub rest : Text
  pub leftover : Text

-- An address that may be reached.
abbrev pub is_reachable : Policy → Address → Bool
is_reachable p a = is_public a || private_allowed p a

-- `next(bad)`: the first address that may not be reached.
unfoldable pub first_bad : Policy → List Address → Option Address
first_bad p [] = none
first_bad p (a ∷ as') = let rest = first_bad p as' in if is_reachable p a then rest else some a

unfoldable pub literal_refusal : Policy → Option Address → Option Refusal
literal_refusal p none = none
literal_refusal p (some a) = if is_reachable p a then none else some (not_public a)

pub data Resolved : Type 0 where
  pinned : Address → Resolved
  refused : Refusal → Resolved

-- `public_address`, from the addresses of the host.
unfoldable pub check_addresses : Policy → Option (List Address) → Resolved
unfolding first_bad
check_addresses p none = refused resolver_failed
check_addresses p (some []) = refused not_resolved
check_addresses p (some (a ∷ as')) = elim (first_bad p (a ∷ as')) [
  | some bad ↦ refused (not_public bad)
  | none ↦ pinned a
]

-- `_origin_form`: these headers are dropped.
abbrev pub is_hop_header : Text → Bool
is_hop_header h =
    starts_with (codes "proxy-") (lower h)
    || starts_with (codes "connection:") (lower h)
    || starts_with (codes "host:") (lower h)

unfoldable pub kept_headers : Text → List Text
kept_headers rest = keep (λ h. not (is_empty h) && not (is_hop_header h)) (split_crlf rest)

abbrev pub host_header : Text → ℕ → Text
host_header host port = if port == 80 then host else host ++ (codes ":" ++ decimal port)

-- `.encode("latin-1")` knows no character above code point 255.
abbrev pub is_latin1 : Text → Bool
is_latin1 t = all (λ c. leb c 255) t

-- The first two lines, before they are encoded.
abbrev pub head_line : Text → Text → Text → Text
head_line method path version = method ++ (codes " " ++ (path ++ (codes " " ++ version)))

abbrev pub host_line : Text → ℕ → Text
host_line host port = codes "Host: " ++ host_header host port

-- `none` for the UnicodeEncodeError.
unfoldable pub origin_form : Text → Text → Text → Text → Text → ℕ → Option Text
origin_form method path version rest host port =
    if is_latin1 (head_line method path version ++ (crlf ++ (host_line host port ++ crlf)))
    then some (
        head_line method path version
        ++ (crlf
            ++ (host_line host port
                ++ (crlf
                    ++ (join crlf (kept_headers rest)
                        ++ (crlf ++ (codes "Connection: close" ++ (crlf ++ crlf))))))))
    else none

-- Where the exception of the encoding is raised, nothing goes upstream.
abbrev pub send_head : Option Text → Text → List Effect
send_head none leftover = []
send_head (some head) leftover = send_upstream (head ++ leftover) ∷ []

-- What goes upstream once it is connected.
abbrev pub is_connect : Option Text → Bool
is_connect none = true
is_connect (some p) = false

unfoldable pub forward : Request → List Effect
forward r = elim r.path [
  | none ↦ respond 200 ∷ send_upstream r.leftover ∷ []
  | some path ↦ send_head (origin_form r.method path r.version r.rest r.host r.port) r.leftover
]

module _ (ip_address : Text → Option Address) (resolver : Text → ℕ → Option (List Address)) where
  -- The addresses of the host, with the query that they may take.
  unfoldable pub addresses : Request → List Effect × Option (List Address)
  addresses r = elim (ip_address r.host) [
    | some a ↦ ([], some (a ∷ []))
    | none ↦ (lookup_name r.host r.port ∷ [], resolver r.host r.port)
  ]

  unfoldable pub reach : Policy → Request → Why → Resolved → List Effect
  reach p r why (refused refusal) = log (ssrf refusal) ∷ respond 403 ∷ []
  reach p r why (pinned a) = log (let_through why a) ∷ connect a r.port ∷ forward r

  unfoldable pub after_decision : Policy → Request → Action × Why → List Effect
  after_decision p r (allow, why) =
      let (queries, found) = addresses r in queries ++ reach p r why (check_addresses p found)
  after_decision p r (_, why) = log (denied why) ∷ respond 403 ∷ []

  unfoldable pub after_literal : Policy → Request → Action × Why → Option Refusal → List Effect
  after_literal p r decision (some refusal) = log (ssrf refusal) ∷ respond 403 ∷ []
  after_literal p r decision none = after_decision p r decision

  unfoldable pub after_verdict : Policy → Request → Action × Why → Action → Reason → List Effect
  after_verdict p r decision deny reason = log (denied (by_policy reason)) ∷ respond 403 ∷ []
  after_verdict p r decision allow reason =
      after_literal p r decision (literal_refusal p (ip_address r.host))
  after_verdict p r decision ask reason =
      after_literal p r decision (literal_refusal p (ip_address r.host))

  -- `_handle`, once the request line is read.
  unfoldable pub handle_request : GateConfig → Gate → ℕ → Request → Action × Why → List Effect
  unfolding after_verdict after_literal after_decision
  handle_request cfg g now r decision =
      let verdict = Policy.decide cfg.policy r.host r.port r.judged_method (is_tainted g now) in
      after_verdict cfg.policy r decision verdict.action verdict.reason
