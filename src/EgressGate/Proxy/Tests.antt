-- ===== src/EgressGate/Proxy/Tests.antt =====
-- The proxy on concrete requests, after tests/test_egress_gate.py, and the theorems about it there.
use prax_sandbox.Base.{
  true, ℕ, ◌≡◌, refl, ◌≢◌, if◌then◌else◌, false, List, [], ◌∷◌, ◌++◌, Option, none, some, inl, inr,
  Elem, ◌==◌, arith,
}
use prax_sandbox.Text.{
  Text, codes, text_eq, text_beq, crlf, split_crlf, join, decimal, starts_with, ends_with, rstrip,
  lower, upper, cut, strip, rcut,
}
use prax_sandbox.EgressGate.Ip.{Address, v4, is_public}
use prax_sandbox.EgressGate.Policy.{
  Action, allow, deny, ask, Rule, Policy, applies, private_allowed, by_rule, by_default,
}
use prax_sandbox.EgressGate.Policy
use prax_sandbox.EgressGate.Gate.{GateConfig, Why, by_policy, new_gate}
use prax_sandbox.EgressGate.Proxy.{
  Effect, lookup_name, connect, log, respond, send_upstream, denied, let_through, Request,
  kept_headers, origin_form, head_line, host_line, is_latin1, first_bad, check_addresses,
  literal_refusal, addresses, reach, forward, after_decision, after_literal, after_verdict,
  handle_request,
}
use prax_sandbox.EgressGate.Proxy.Effects.{IsChecked, connect-IsChecked, lookup_name-allow}
use prax_sandbox.EgressGate.Proxy.Reading.{
  read_head, judge_head, judge_line, judge_url, judge_connect,
}
use prax_sandbox.EgressGate.Proxy.Origin.{IsLine, sent_lines, end_lines, AreKept, origin_form-lines}

abbrev open_rule : Rule
open_rule = record {
  host = codes "open.example";
  action = allow;
  ports = [];
  methods = [];
  clean_only = false;
}

abbrev cfg : GateConfig
cfg = record {
  policy = record { default = deny; rules = open_rule ∷ []; allow_private_addresses = [] };
  admin_token = codes "admin";
  taint_token = codes "taint";
  ask_timeout = 120;
  allow_ttl = 600;
  deny_ttl = 60;
  taint_ttl = 900;
  max_connections = 256;
}

-- One address is read, and one name is known.
abbrev ip_address : Text → Option Address
ip_address host = if host == codes "10.0.0.1" then some (v4 0x0a000001) else none

abbrev resolver : Text → ℕ → Option (List Address)
resolver host port = if host == codes "open.example" then some (v4 0x5db8d822 ∷ []) else none

abbrev to_open : Request
to_open = record {
  method = codes "GET";
  host = codes "open.example";
  port = 8080;
  judged_method = some (codes "GET");
  path = some (codes "/a");
  version = codes "HTTP/1.1";
  rest = codes "Host: other.example" ++ (crlf ++ codes "Accept: *");
  leftover = [];
}

proxy_runs : Unit {0}
unfolding Policy.decide applies Policy.matches_host Policy.normal_host Policy.misses_port
    Policy.misses_method starts_with ends_with rstrip lower upper text_beq is_public private_allowed
    handle_request after_verdict after_literal after_decision literal_refusal addresses reach
    check_addresses first_bad forward origin_form kept_headers split_crlf join decimal read_head cut
    judge_head judge_line judge_url judge_connect strip rcut
proxy_runs = tt

abbrev effects : Request → List Effect
effects r =
    handle_request ip_address resolver cfg new_gate 0 r
      (allow, by_policy (by_rule 0 (codes "open.example")))

abbrev sent : Text
sent =
    codes "GET /a HTTP/1.1"
    ++ (crlf
        ++ (codes "Host: open.example:8080"
            ++ (crlf
                ++ (codes "Accept: *" ++ (crlf ++ (codes "Connection: close" ++ (crlf ++ crlf)))))))

effects_tests :
    (effects to_open
      ≡ lookup_name (codes "open.example") 8080
        ∷ log (let_through (by_policy (by_rule 0 (codes "open.example"))) (v4 0x5db8d822))
        ∷ connect (v4 0x5db8d822) 8080
        ∷ send_upstream sent
        ∷ [])
    × (effects (record to_open { host = codes "10.0.0.1" })
        ≡ log (denied (by_policy by_default)) ∷ respond 403 ∷ [])
unfolding proxy_runs
effects_tests = (refl, refl)

abbrev allowed : Why
allowed = by_policy (by_rule 0 (codes "open.example"))

connected : Elem (connect (v4 0x5db8d822) 8080) (effects to_open)
unfolding proxy_runs
connected = inr (inr (inl refl))

connect-IsChecked_example :
    ((Policy.decide cfg.policy (codes "open.example") 8080 (some (codes "GET")) false).action
      ≢ deny)
    × (allow ≡ allow)
    × (to_open.port ≡ to_open.port)
    × IsChecked ip_address resolver cfg.policy to_open (v4 0x5db8d822)
connect-IsChecked_example =
    connect-IsChecked ip_address resolver cfg new_gate 0 to_open allow allowed (v4 0x5db8d822) 8080
      connected

looked_up : Elem (lookup_name (codes "open.example") 8080) (effects to_open)
unfolding proxy_runs
looked_up = inl refl

lookup_name-allow_example :
    ((Policy.decide cfg.policy (codes "open.example") 8080 (some (codes "GET")) false).action
      ≢ deny)
    × (allow ≡ allow)
    × (ip_address (codes "open.example") ≡ none)
    × (codes "open.example" ≡ codes "open.example")
lookup_name-allow_example =
    lookup_name-allow ip_address resolver cfg new_gate 0 to_open allow allowed
      (codes "open.example") 8080 looked_up

lines_plain :
    IsLine (head_line (codes "GET") (codes "/a") (codes "HTTP/1.1"))
    × IsLine (host_line (codes "open.example") 8080)
    × (is_latin1 (
          head_line (codes "GET") (codes "/a") (codes "HTTP/1.1")
          ++ (crlf ++ (host_line (codes "open.example") 8080 ++ crlf)))
        ≡ true)
unfolding proxy_runs
lines_plain = ground arith

origin_form-lines_example :
    (out : Text) × (kept : List Text) × (origin_form
        (codes "GET")
        (codes "/a")
        (codes "HTTP/1.1")
        to_open.rest
        (codes "open.example")
        8080
      ≡ some out)
    × (split_crlf out
        ≡ head_line (codes "GET") (codes "/a") (codes "HTTP/1.1")
          ∷ host_line (codes "open.example") 8080
          ∷ (sent_lines kept ++ end_lines))
    × AreKept (split_crlf to_open.rest) kept
origin_form-lines_example =
    origin_form-lines (codes "GET") (codes "/a") (codes "HTTP/1.1") to_open.rest
      (codes "open.example") 8080 lines_plain.0 lines_plain.1 lines_plain.2

-- A `Host` with a blank before its colon goes upstream, and a method with `ÿ` can not.
origin_tests :
    (kept_headers (codes "Host: x\r\nHost : y\r\nA: b") ≡ codes "Host : y" ∷ codes "A: b" ∷ [])
    × (origin_form (376 ∷ []) (codes "/") (codes "HTTP/1.1") [] (codes "h") 80 ≡ none)
unfolding proxy_runs
origin_tests = (refl, refl)

-- A head in two chunks, with the start of a body.
abbrev chunks : List Text
chunks =
    (codes "GET http://open.example/ HTTP/1.1" ++ (13 ∷ 10 ∷ 13 ∷ []))
    ∷ (10 ∷ codes "body")
    ∷ codes "more"
    ∷ []

head_read : read_head [] chunks ≡ some (codes "GET http://open.example/ HTTP/1.1", codes "body")
unfolding proxy_runs
head_read = refl
