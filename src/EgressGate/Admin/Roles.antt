-- ===== src/EgressGate/Admin/Roles.antt =====
-- What each of the two tokens may do (`handle_admin` in prax_sandbox/egress_gate/gate.py).
use prax_sandbox.Base.{
  ℕ, ◌≤◌, ◌≡◌, ◌≢◌, refl, List-cases, ◌⊎◌, inl, inr, true, List, [], ◌∷◌, Option, none, some, arith,
  Option-cases, Bool-cases, ◌&&◌, ◌==◌,
}
use prax_sandbox.Text.{Text, codes, text_eq, split_crlf}
use prax_sandbox.EgressGate.Gate.{Gate, GateConfig, Decision, set_taint}
use prax_sandbox.EgressGate.Proxy.Reading.{split_line}
use prax_sandbox.EgressGate.Admin.{
  Body, object, other_value, Role, admin, taint_raiser, nobody, not_comparable, AdminReply,
  is_ascii, body_of, is_token, taint_role, admin_role, role_of, bearer_token, raise_taint,
  after_role, handle_admin,
}

-- The gate grants no more than before: the taint lasts no shorter, no answer is added, and the
-- questions and what waits on them are as they were.
pub record IsStricter (g g' : Gate) : Type 0 where
  pub taint_lasts : g.tainted_until ≤ g'.tainted_until
  pub no_answer_added : (d : Text) (x : Decision) → g'.decisions d ≡ some x → g.decisions d ≡ some x
  pub same_pending : g'.pending ≡ g.pending
  pub same_by_dest : g'.by_dest ≡ g.by_dest
  pub same_futures : g'.futures ≡ g.futures

IsStricter-same : (g : Gate) → IsStricter g g
IsStricter-same g = record {
  taint_lasts = omega arith;
  no_answer_added = λ d x h. h;
  same_pending = refl;
  same_by_dest = refl;
  same_futures = refl;
}

raise-IsStricter :
    (cfg : GateConfig) (g : Gate) (now : ℕ) (reason : Text) (ttl : Option ℕ)
    → IsStricter g (set_taint cfg g now true reason ttl true)
unfolding set_taint
raise-IsStricter cfg g now reason ttl = record {
  taint_lasts = omega arith;
  no_answer_added = λ d x h. ground arith;
  same_pending = refl;
  same_by_dest = refl;
  same_futures = refl;
}

raise_taint-IsStricter :
    (cfg : GateConfig) (g : Gate) (now : ℕ) (method path : Text) (body : Body)
    → IsStricter g (raise_taint cfg g now method path body).0
unfolding raise_taint
raise_taint-IsStricter cfg g now method path other_value =
    elim (Bool-cases (method == codes "POST" && path == codes "/taint")) [
      | inl e ↦ rw e (IsStricter-same g)
      | inr e ↦ rw e (IsStricter-same g)
    ]
raise_taint-IsStricter cfg g now method path (object f) =
    elim (Bool-cases (method == codes "POST" && path == codes "/taint")) [
      | inr e ↦ rw e (IsStricter-same g)
      | inl e ↦ elim (Bool-cases f.tainted) [
        | inr clean ↦ rw (e, clean) (IsStricter-same g)
        | inl raised ↦ rw (e, raised) (raise-IsStricter cfg g now f.reason f.ttl)
      ]
    ]

-- Nothing changes, and the answer is 401 or 400.
abbrev pub IsRefused : Gate → Gate × AdminReply → Type 0
IsRefused g r = (r.0 ≡ g) × ((r.1.status ≡ 401) ⊎ (r.1.status ≡ 400))

-- The token on the lines below the request line is one that is configured.
pub record Bears (token : Text) (head : Text) : Type 0 where
  pub first : Text
  pub lines : List Text
  pub head_lines : split_crlf head ≡ first ∷ lines
  pub configured : token ≢ []
  pub same : bearer_token lines ≡ token

bears :
    {token head : Text} (first : Text) (lines : List Text)
    → split_crlf head ≡ first ∷ lines
    → (token ≢ []) × (bearer_token lines ≡ token)
    → Bears token head
bears first lines e (configured, same) = record {
  first = first;
  lines = lines;
  head_lines = e;
  configured = configured;
  same = same;
}

is_token-same :
    (secret token : Text) → is_token secret token ≡ some true → (secret ≢ []) × (token ≡ secret)
unfolding is_token
is_token-same [] token h = cc
is_token-same (c ∷ secret) token h = elim (Bool-cases (is_ascii (c ∷ secret) && is_ascii token)) [
  | inr e ↦ ground arith
  | inl e ↦ (λ x. cc, (text_eq.equals_iff token (c ∷ secret)).0 (ground arith))
]

role_of-admin :
    (cfg : GateConfig) (token : Text)
    → role_of cfg token ≡ admin
    → (cfg.admin_token ≢ []) × (token ≡ cfg.admin_token)
unfolding admin_role taint_role
role_of-admin cfg token h = is_token-same cfg.admin_token token (ground arith)

role_of-taint :
    (cfg : GateConfig) (token : Text)
    → role_of cfg token ≡ taint_raiser
    → (cfg.taint_token ≢ []) × (token ≡ cfg.taint_token)
unfolding admin_role taint_role
role_of-taint cfg token h = is_token-same cfg.taint_token token (ground arith)

module _ (int : Text → Option ℕ) (loads : Text → Option Body) (cfg : GateConfig) (g : Gate)
    (now : ℕ) where
  after_role-IsStricter :
      (role : Role) (method path : Text) (body : Option Body)
      → role ≢ admin
      → IsStricter g (after_role int loads cfg g now role method path body).0
  unfolding after_role
  after_role-IsStricter nobody method path body h = IsStricter-same g
  after_role-IsStricter not_comparable method path body h = IsStricter-same g
  after_role-IsStricter admin method path body h = absurd (h refl)
  after_role-IsStricter taint_raiser method path none h = IsStricter-same g
  after_role-IsStricter taint_raiser method path (some body) h =
      raise_taint-IsStricter cfg g now method path body

  -- Without the admin token, no request to the admin API makes the gate grant more: the taint
  -- lasts no shorter, no answer is added, and the questions are as they were.
  pub handle_admin-IsStricter :
      (head leftover unread : Text)
      → ¬ Bears cfg.admin_token head
      → IsStricter g (handle_admin int loads cfg g now head leftover unread).0
  unfolding handle_admin
  handle_admin-IsStricter head leftover unread h = elim (List-cases (split_crlf head)) [
    | inl e ↦ rw (e, handle_admin) (IsStricter-same g)
    | inr (line, lines, e) ↦ elim (Option-cases (split_line line)) [
      | inl bad ↦ rw (e, bad, handle_admin) (IsStricter-same g)
      | inr ((method, path, version), parts) ↦
          let role = role_of cfg (bearer_token lines) in
          let body = body_of int loads lines leftover unread in
          rw (e, parts, handle_admin)
            (after_role-IsStricter role method path body
              (λ is. h (bears line lines e (role_of-admin cfg (bearer_token lines) is))))
    ]
  ]

  after_role-IsRefused :
      (role : Role) (method path : Text) (body : Option Body)
      → role ≢ admin
      → role ≢ taint_raiser
      → IsRefused g (after_role int loads cfg g now role method path body)
  unfolding after_role
  after_role-IsRefused nobody method path body h k = (refl, inl refl)
  after_role-IsRefused not_comparable method path body h k = (refl, inr refl)
  after_role-IsRefused admin method path body h k = absurd (h refl)
  after_role-IsRefused taint_raiser method path body h k = absurd (k refl)

  -- A request with neither token changes nothing, and is answered 401 or 400.
  pub handle_admin-IsRefused :
      (head leftover unread : Text)
      → ¬ Bears cfg.admin_token head
      → ¬ Bears cfg.taint_token head
      → IsRefused g (handle_admin int loads cfg g now head leftover unread)
  unfolding handle_admin
  handle_admin-IsRefused head leftover unread h k = elim (List-cases (split_crlf head)) [
    | inl e ↦ rw (e, handle_admin) (refl, inr refl)
    | inr (line, lines, e) ↦ elim (Option-cases (split_line line)) [
      | inl bad ↦ rw (e, bad, handle_admin) (refl, inr refl)
      | inr ((method, path, version), parts) ↦
          let role = role_of cfg (bearer_token lines) in
          let body = body_of int loads lines leftover unread in
          rw (e, parts, handle_admin)
            (after_role-IsRefused role method path body
              (λ is. h (bears line lines e (role_of-admin cfg (bearer_token lines) is)))
              (λ is. k (bears line lines e (role_of-taint cfg (bearer_token lines) is))))
    ]
  ]
