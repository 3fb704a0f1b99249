-- ===== src/Daemon/CdpProxy/Laws.antt =====
-- Nothing of Chrome is reached before the bearer check.
use prax_sandbox.Base.{◌≡◌, inl, inr, Bool, true, List, [], ◌∷◌, Option, Bool-cases, Elem}
use prax_sandbox.Text.{Text}
use prax_sandbox.Daemon.Auth.{check_bearer}
use prax_sandbox.Daemon.CdpProxy.{
  CdpConfig, chrome_origin, upstream_url, BridgeEvent, from_client, from_upstream, one_ended, dial,
  bridge, cdp_ws,
}

bridge-no_dial :
    (decode : Text → Text) (events : List BridgeEvent) (url origin : Text)
    → Elem (dial url origin) (bridge decode events)
    → ⊥
unfolding bridge
bridge-no_dial decode [] url origin h = absurd h
bridge-no_dial decode (from_client m ∷ events) url origin (inl e) = cc
bridge-no_dial decode (from_client m ∷ events) url origin (inr h) =
    bridge-no_dial decode events url origin h
bridge-no_dial decode (from_upstream f ∷ events) url origin (inl e) = cc
bridge-no_dial decode (from_upstream f ∷ events) url origin (inr h) =
    bridge-no_dial decode events url origin h
bridge-no_dial decode (one_ended ∷ events) url origin (inl e) = cc
bridge-no_dial decode (one_ended ∷ events) url origin (inr h) = absurd h

-- Where `cdp_ws` dials, the bearer was checked and holds, and it dials Chrome's own address, with
-- Chrome's own origin: whatever the client sends, the path included.
pub cdp_ws-dial :
    (cfg : CdpConfig) (decode : Text → Text) (connects : Text → Bool) (authorization : Option Text)
    (path : Text) (events : List BridgeEvent) (url origin : Text)
    → Elem (dial url origin) (cdp_ws cfg decode connects authorization path events)
    → (check_bearer authorization cfg.bearer_token ≡ true)
      × ((url ≡ upstream_url cfg path) × (origin ≡ chrome_origin))
unfolding cdp_ws
cdp_ws-dial cfg decode connects authorization path events url origin h =
    elim (Bool-cases (check_bearer authorization cfg.bearer_token)) [
      | inr e ↦ elim (rw (e, cdp_ws) at h) [ inl e' ↦ cc | inr h' ↦ absurd h' ]
      | inl e ↦ elim (rw (e, cdp_ws) at h) [
        | inl e' ↦ cc
        | inr (inl e') ↦ (e, dial_parts e')
        | inr (inr h') ↦ elim (Bool-cases (connects (upstream_url cfg path))) [
          | inl c ↦ absurd (bridge-no_dial decode events url origin (rw c at h'))
          | inr c ↦ elim (rw c at h') [ inl e' ↦ cc | inr h'' ↦ absurd h'' ]
        ]
      ]
    ]
  where
    dial_parts : {u o u' o' : Text} → dial u o ≡ dial u' o' → (u' ≡ u) × (o' ≡ o)
    dial_parts e = (cc, cc)
