-- ===== src/Daemon/Auth.antt =====
-- `check_bearer` of prax_sandbox/daemon/auth.py. Two texts have the same bytes in UTF-8 just when
-- they are equal.
pub mod Laws
use prax_sandbox.Base.{
  Bool, true, false, not, ◌||◌, Option, none, some, if◌then◌else◌, ◌==◌, is_empty,
}
use prax_sandbox.Text.{Text, codes, text_eq, lower, partition}

-- The scheme and the rest of the header.
unfoldable pub fits : Text → Text → Text → Bool
fits scheme presented expected =
    if not (lower scheme == codes "bearer") || is_empty presented
    then false
    else presented == expected

unfoldable pub check_bearer : Option Text → Text → Bool
check_bearer none expected = false
check_bearer (some authorization) expected =
    if is_empty authorization
    then false
    else (let (scheme, _, presented) = partition (codes " ") authorization in
        fits scheme presented expected)
