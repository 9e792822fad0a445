-- ===== src/Directory/Role/Paths.antt =====
-- The path of a role's file, taken apart.
use in10dhost.Prelude.{
  ℕ, ◌≡◌, ◌≢◌, refl, none, subst, append_assoc, [], ◌∷◌, ◌++◌, Text, codes, same, arith,
  drop_end-append_kept, ◌==◌,
}
use in10dhost.Prelude.Find.{cut, starts_with, all-cut}
use in10dhost.Pin.{
  PinRole, no_role, light, socket, fan, heating, blind, button, contact, motion, pin_role_str,
  pin_role_parse, find_role, eq_role,
}
use in10dhost.Directory.{no_slashes}
use in10dhost.Directory.Role.{file, split, inner, named}

-- role/<role>/<file>
abbrev pub role_path : PinRole → Text → Text
role_path r f = codes "role/" ++ (pin_role_str r ++ (b'/' ∷ f))

no_slashes-path :
    (pre : Text) (c : ℕ) (cs : Text)
    → cut b'/' (c ∷ cs) ≡ none
    → no_slashes (pre ++ (b'/' ∷ c ∷ cs)) ≡ pre ++ (b'/' ∷ c ∷ cs)
no_slashes-path pre c cs h =
    subst (λ (l : Text). no_slashes l ≡ l) (append_assoc pre (b'/' ∷ []) (c ∷ cs))
      (drop_end-append_kept (λ x. x == b'/') (pre ++ b'/' ∷ []) c cs (all-cut b'/' (c ∷ cs) h))

pub split-role_path :
    (r : PinRole) (c : ℕ) (cs : Text)
    → r ≢ no_role
    → cut b'/' (c ∷ cs) ≡ none
    → split (role_path r (c ∷ cs)) ≡ file r (c ∷ cs)
unfolding split inner named starts_with same pin_role_str pin_role_parse find_role eq_role cut
split-role_path no_role c cs ne h = absurd (ne refl)
split-role_path light c cs ne h =
    rw (no_slashes-path (codes "role/light") c cs h) (ground (arith, h))
split-role_path socket c cs ne h =
    rw (no_slashes-path (codes "role/socket") c cs h) (ground (arith, h))
split-role_path fan c cs ne h = rw (no_slashes-path (codes "role/fan") c cs h) (ground (arith, h))
split-role_path heating c cs ne h =
    rw (no_slashes-path (codes "role/heating") c cs h) (ground (arith, h))
split-role_path blind c cs ne h =
    rw (no_slashes-path (codes "role/blind") c cs h) (ground (arith, h))
split-role_path button c cs ne h =
    rw (no_slashes-path (codes "role/button") c cs h) (ground (arith, h))
split-role_path contact c cs ne h =
    rw (no_slashes-path (codes "role/contact") c cs h) (ground (arith, h))
split-role_path motion c cs ne h =
    rw (no_slashes-path (codes "role/motion") c cs h) (ground (arith, h))
