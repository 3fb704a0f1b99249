-- ===== src/EgressGate/Admin/Tests.antt =====
-- The admin API on concrete requests, after tests/test_egress_gate.py, and the theorems about it
-- there.
use prax_sandbox.Base.{
  ℕ, ◌≡◌, ◌≢◌, refl, ap, ◌∙◌, true, List, [], ◌∷◌, ◌++◌, Option, none, some, arith, drop,
  if◌then◌else◌, ◌==◌,
}
use prax_sandbox.Text.{
  Text, codes, text_eq, text_beq, crlf, split_crlf, starts_with, lower, strip, cut, rcut, decimal,
}
use prax_sandbox.EgressGate.Policy.{deny}
use prax_sandbox.EgressGate.Gate.{Gate, GateConfig, new_gate, set_taint, answer, find}
use prax_sandbox.EgressGate.Admin.{
  Body, object, no_fields, unauthorized, tainted_now, AdminReply, reply, bearer_token, header_value,
  is_token, taint_role, admin_role, find_id, raise_taint, answer_route, taint_route, post_route,
  get_route, admin_route, read_body, parse_body, body_of, after_role, handle_admin,
}
use prax_sandbox.EgressGate.Admin.Roles.{Bears, IsStricter, handle_admin-IsStricter}

abbrev cfg : GateConfig
cfg = record {
  policy = record { default = deny; rules = []; allow_private_addresses = [] };
  admin_token = codes "admin";
  taint_token = codes "taint";
  ask_timeout = 120;
  allow_ttl = 600;
  deny_ttl = 60;
  taint_ttl = 900;
  max_connections = 256;
}

-- Every length is 2, and every body raises the taint.
abbrev int : Text → Option ℕ
int s = if s == codes "2" then some 2 else none

abbrev loads : Text → Option Body
loads s = some (object (record no_fields { tainted = true; ttl = some 60 }))

abbrev head : Text → Text
head token =
    codes "POST /taint HTTP/1.1"
    ++ (crlf ++ (codes "Authorization: Bearer " ++ (token ++ (crlf ++ codes "Content-Length: 2"))))

admin_runs : Unit {0}
unfolding text_beq split_crlf starts_with lower strip cut rcut decimal set_taint answer find
    header_value is_token taint_role admin_role find_id raise_taint answer_route taint_route
    post_route get_route admin_route read_body parse_body body_of after_role handle_admin
admin_runs = tt

abbrev handled : Text → Gate × AdminReply
handled token = handle_admin int loads cfg new_gate 5 (head token) [] (codes "{}")

admin_tests :
    ((handled (codes "taint")).1 ≡ reply 200 (tainted_now true))
    × ((handled (codes "taint")).0.tainted_until ≡ 65)
    × ((handled (codes "other")).1 ≡ reply 401 unauthorized)
    × ((handle_admin int loads cfg new_gate 5 (head (codes "taint")) [] (codes "{")).1.status ≡ 400)
unfolding admin_runs
admin_tests = (refl, refl, refl, refl)

abbrev below : List Text → List Text
below ls = drop 1 ls

Bears-token :
    {token : Text} {h : Text} → Bears token h → bearer_token (below (split_crlf h)) ≡ token
Bears-token b = ap (λ ls. bearer_token (below ls)) b.head_lines ∙ b.same

abbrev first_code : Text → ℕ
first_code [] = 0
first_code (c ∷ s) = c

differ : (m n : ℕ) → m ≢ n → ¬ (m ≡ n)
differ m n h = h

taint-Bears : ¬ Bears (codes "admin") (head (codes "taint"))
unfolding admin_runs
taint-Bears b = differ 116 97 (omega arith) (ap first_code (Bears-token b))

other-Bears :
    (¬ Bears (codes "admin") (head (codes "other")))
    × (¬ Bears (codes "taint") (head (codes "other")))
unfolding admin_runs
other-Bears = (
  (λ b. differ 111 97 (omega arith) (ap first_code (Bears-token b))),
  (λ b. differ 111 116 (omega arith) (ap first_code (Bears-token b))),
)

handle_admin-IsStricter_example : IsStricter new_gate (handled (codes "taint")).0
handle_admin-IsStricter_example =
    handle_admin-IsStricter int loads cfg new_gate 5 (head (codes "taint")) [] (codes "{}")
      taint-Bears
