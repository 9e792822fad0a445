-- ===== src/Pin/Tests.antt =====
-- A role's name, read in any case.
use in10dhost.Prelude.{◌≡◌, refl, some, none, codes, same}
use in10dhost.Pin.{light, pin_role_parse, pin_role_str, find_role}

mixed_case : pin_role_parse (codes "LiGHt") ≡ some light
unfolding pin_role_parse find_role pin_role_str same
mixed_case = refl

no_such_role : pin_role_parse (codes "lamp") ≡ none
unfolding pin_role_parse find_role pin_role_str same
no_such_role = refl
