-- ===== src/Pin/Names.antt =====
-- The names of roles, read back.
use in10dhost.Prelude.{◌≡◌, refl, some, same}
use in10dhost.Pin.{
  PinRole, no_role, light, socket, fan, heating, blind, button, contact, motion, pin_role_str,
  pin_role_parse, find_role,
}

-- A role is read back from its name.
pub pin_role_parse-pin_role_str : (r : PinRole) → pin_role_parse (pin_role_str r) ≡ some r
unfolding pin_role_parse pin_role_str find_role same
pin_role_parse-pin_role_str no_role = refl
pin_role_parse-pin_role_str light = refl
pin_role_parse-pin_role_str socket = refl
pin_role_parse-pin_role_str fan = refl
pin_role_parse-pin_role_str heating = refl
pin_role_parse-pin_role_str blind = refl
pin_role_parse-pin_role_str button = refl
pin_role_parse-pin_role_str contact = refl
pin_role_parse-pin_role_str motion = refl
