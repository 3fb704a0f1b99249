-- ===== src/EgressGate/Tests.antt =====
-- The gate on concrete requests, after tests/test_egress_gate.py, and the theorems about it there.
use prax_sandbox.Base.{
  ℕ, ◌+◌, ◌*◌, ◌^◌, ◌≤◌, ◌≡◌, refl, ◌↔◌, Bool, true, false, String, List, [], ◌∷◌, Option, none,
  some, arith, contains,
}
use prax_sandbox.Text.{Text, codes, text_beq, decimal, starts_with, ends_with, rstrip, lower, upper}
use prax_sandbox.EgressGate.Ip.{v4, v6, is_public}
use prax_sandbox.EgressGate.Ip.Laws.{internal_not_public}
use prax_sandbox.EgressGate.Policy
use prax_sandbox.EgressGate.Policy.{
  Action, allow, deny, ask, Rule, Policy, Verdict, by_rule, by_default, applies, from_dict, ok, err,
  bad_default, bad_rule,
}
use prax_sandbox.EgressGate.Policy.Matching.{Applies, applies_iff}
use prax_sandbox.EgressGate.Policy.Laws.{Decided, decide-Decided}
use prax_sandbox.EgressGate.Gate.{
  GateConfig, Pending, by_person, remembered, asked_no_answer, find, remove, recall, ask_person,
  dest_key, decide, is_tainted, no_answer, answer, set_taint, time_out, Waiter,
}
use prax_sandbox.EgressGate.Gate.Run.{
  System, Event, nothing, decided, answered, step, run, after_request, wake_up, run_out, without,
  waiter_at, pass, request, wake, give_up, answer_question, taint,
}
use prax_sandbox.EgressGate.Gate.Run.Questions.{IsSound}
use prax_sandbox.EgressGate.Gate.Run.Sound.{run-IsSound}
use prax_sandbox.EgressGate.Gate.Run.Sharing.{
  IsServed, request-shared, or_no_answer, give_up-resolves,
}
use prax_sandbox.EgressGate.Gate.Run.Answers.{AnswerEffect, run-answer}
use prax_sandbox.EgressGate.Gate.Run.Allowed.{Licensed, allow-Licensed}
use prax_sandbox.EgressGate.Gate.Run.Taint.{IsPurged, run-IsPurged, tainted_until-run}

abbrev rule : Text → Action → Rule
rule host action = record {
  host = host;
  action = action;
  ports = [];
  methods = [];
  clean_only = false;
}

abbrev get_only : Rule
get_only = record {
  host = codes "api.example";
  action = allow;
  ports = [];
  methods = codes "GET" ∷ [];
  clean_only = false;
}

abbrev news : Rule
news = record {
  host = codes "news.example";
  action = allow;
  ports = 443 ∷ [];
  methods = [];
  clean_only = true;
}

abbrev policy : Policy
policy = record {
  default = ask;
  rules =
      rule (codes "evil.example") deny ∷ get_only ∷ news ∷ rule (codes "*.pkg.example") allow ∷ [];
  allow_private_addresses = record { base = v4 0x7f000001; host_bits = 0 } ∷ [];
}

-- All that a run of the gate computes with.
policy_runs : Unit {0}
unfolding Policy.decide applies Policy.matches_host Policy.normal_host Policy.misses_port
    Policy.misses_method starts_with ends_with rstrip lower upper text_beq contains
policy_runs = tt

gate_runs : Unit {0}
unfolding policy_runs run step after_request wake_up run_out decide answer set_taint time_out find
    remove dest_key waiter_at without recall ask_person decimal is_public
gate_runs = tt

abbrev verdict : String → ℕ → Option Text → Bool → Verdict
verdict host port method tainted = Policy.decide policy (codes host) port method tainted

policy_tests :
    (verdict "EVIL.example." 443 none false
      ≡ record { action = deny; reason = by_rule 0 (codes "evil.example") })
    × ((verdict "pkg.example" 443 none false).action ≡ ask)
    × ((verdict "a.pkg.example" 443 none false).action ≡ allow)
    × ((verdict "api.example" 80 (some (codes "get")) false).action ≡ allow)
    × ((verdict "api.example" 443 none false).action ≡ ask)
    × ((verdict "news.example" 443 none false).action ≡ allow)
    × ((verdict "news.example" 443 none true).action ≡ ask)
unfolding policy_runs
policy_tests = (refl, refl, refl, refl, refl, refl, refl)

abbrev cfg : GateConfig
cfg = record {
  policy = policy;
  admin_token = codes "admin";
  taint_token = codes "taint";
  ask_timeout = 120;
  allow_ttl = 600;
  deny_ttl = 60;
  taint_ttl = 900;
  max_connections = 256;
}

abbrev visit : String → Event
visit host = request (codes host) 443 none none

-- Two requests for one host, whose question is allowed; then the sandbox is tainted.
abbrev two_visits : List Event
two_visits = visit "New.example" ∷ pass 5 ∷ visit "new.example" ∷ []

abbrev allowed_visits : List Event
allowed_visits = answer_question 1 true none (codes "ann") ∷ two_visits

abbrev tainted_visits : List Event
tainted_visits = taint true [] none true ∷ pass 10 ∷ allowed_visits

gate_tests :
    ((step cfg (run cfg allowed_visits) (wake 1)).1 ≡ decided allow (by_person true (codes "ann")))
    × ((step cfg (run cfg allowed_visits) (visit "new.example")).1
        ≡ decided allow (remembered (by_person true (codes "ann"))))
    × ((step cfg (run cfg tainted_visits) (visit "new.example")).1 ≡ nothing)
    × ((step cfg (run cfg (pass 115 ∷ two_visits)) (give_up 1)).1 ≡ decided deny asked_no_answer)
    × ((step cfg
          (run cfg (taint true [] none true ∷ two_visits))
          (answer_question 1 true none [])).1
        ≡ answered true)
unfolding gate_runs
gate_tests = (refl, refl, refl, refl, refl)

internal_not_public_example : is_public (v6 (0xffff * 2 ^ 32 + 0x7f000001)) ≡ false
internal_not_public_example = internal_not_public (v6 (0xffff * 2 ^ 32 + 0x7f000001)) (omega arith)

applies_iff_example :
    (applies news (codes "news.example") 443 none true ≡ true)
    ↔ Applies news (codes "news.example") 443 none true
applies_iff_example = applies_iff news (codes "news.example") 443 none true

decide-Decided_example :
    Decided
      (codes "a.pkg.example")
      443
      none
      true
      0
      policy.rules
      ask
      (Policy.decide policy (codes "a.pkg.example") 443 none true)
decide-Decided_example = decide-Decided policy (codes "a.pkg.example") 443 none true

run-IsSound_example : IsSound (run cfg two_visits)
run-IsSound_example = run-IsSound cfg two_visits

abbrev asked : Pending
asked = record {
  id = 1;
  key = codes "new.example:443";
  host = codes "new.example";
  port = 443;
  method = none;
  path = none;
  tainted = false;
  created = 0;
}

asked_listed :
    (find asked.id (run cfg two_visits).pending ≡ some asked)
    × (dest_key (codes "NEW.example") 443 none none ≡ asked.key)
unfolding gate_runs
asked_listed = (refl, refl)

-- The reserved address 4000::1 is global for Python.
reserved_tests : is_public (v6 (0x4000 * 2 ^ 112 + 1)) ≡ true
unfolding gate_runs
reserved_tests = refl

-- A request that waits is let through by an answer to a question put clean, though the sandbox was
-- tainted since.
waited_tests :
    (is_tainted (run cfg (taint true [] none true ∷ allowed_visits)).gate 5 ≡ true)
    × ((step cfg (run cfg (taint true [] none true ∷ allowed_visits)) (wake 1)).1
        ≡ decided allow (by_person true (codes "ann")))
unfolding gate_runs
waited_tests = (refl, refl)

request-shared_example :
    IsServed cfg
      (run cfg two_visits)
      (dest_key (codes "NEW.example") 443 none none)
      asked
      (Policy.decide cfg.policy
        (codes "NEW.example")
        443
        none
        (is_tainted (run cfg two_visits).gate (run cfg two_visits).clock)).action
      (Policy.decide cfg.policy
        (codes "NEW.example")
        443
        none
        (is_tainted (run cfg two_visits).gate (run cfg two_visits).clock)).reason
      (step cfg (run cfg two_visits) (request (codes "NEW.example") 443 none none))
request-shared_example =
    request-shared cfg two_visits (codes "NEW.example") 443 none none asked asked_listed.0
      asked_listed.1

abbrev late : Waiter
late = record { question = asked; dest = codes "new.example:443"; tainted = false; deadline = 120 }

late_waits :
    (waiter_at 1 (run cfg (pass 115 ∷ two_visits)).waiters ≡ some late)
    × (late.deadline ≤ (run cfg (pass 115 ∷ two_visits)).clock)
unfolding gate_runs
late_waits = (refl, omega arith)

abbrev too_late : System
too_late = run cfg (pass 115 ∷ two_visits)

abbrev first : Waiter
first = record { question = asked; dest = codes "new.example:443"; tainted = false; deadline = 120 }

first_waits :
    (waiter_at 0 (step cfg too_late (give_up 1)).0.waiters ≡ some first)
    × (first.question.id ≡ late.question.id)
unfolding gate_runs
first_waits = (refl, refl)

give_up-resolves_example :
    ((step cfg too_late (give_up 1)).1 ≡ decided deny asked_no_answer)
    × (find 1 (step cfg too_late (give_up 1)).0.pending ≡ none)
    × ((step cfg too_late (give_up 1)).0.decisions (codes "new.example:443")
        ≡ some record {
          action = deny;
          expires = too_late.clock + cfg.deny_ttl;
          why = no_answer;
          granted_tainted = false;
        })
    × ((step cfg (step cfg too_late (give_up 1)).0 (wake 0)).1
        ≡ decided (or_no_answer (too_late.futures 1)).0 (or_no_answer (too_late.futures 1)).1)
give_up-resolves_example =
    give_up-resolves cfg too_late 1 late 0 first late_waits.0 late_waits.1 first_waits.0
      first_waits.1

run-answer_example :
    AnswerEffect cfg
      (run cfg two_visits).gate
      (run cfg two_visits).clock
      1
      true
      none
      []
      (answer cfg (run cfg two_visits).gate (run cfg two_visits).clock 1 true none []).0
      (answer cfg (run cfg two_visits).gate (run cfg two_visits).clock 1 true none []).1
run-answer_example = run-answer cfg two_visits 1 true none []

allow-Licensed_example : Licensed cfg allowed_visits (visit "new.example")
allow-Licensed_example =
    allow-Licensed cfg allowed_visits (visit "new.example")
      (remembered (by_person true (codes "ann"))) gate_tests.1

run-IsPurged_example : IsPurged (run cfg tainted_visits).gate (run cfg tainted_visits).clock
run-IsPurged_example = run-IsPurged cfg tainted_visits

tainted_until-run_example :
    (run cfg tainted_visits).tainted_until
    ≤ (run cfg (taint true [] (some 1) true ∷ pass 3 ∷ tainted_visits)).tainted_until
tainted_until-run_example =
    tainted_until-run cfg (taint true [] (some 1) true ∷ pass 3 ∷ []) tainted_visits
      ((refl, refl), (tt, tt))
