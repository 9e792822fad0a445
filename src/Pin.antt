-- ===== src/Pin.antt =====
-- include/interface/pin.h: what the host knows about a pin, and the names of roles and rooms.
pub mod Names
mod Tests
use in10dhost.Prelude.{
  ℕ, Bool, true, false, ◌&&◌, ◌||◌, not, Option, none, some, List, [], ◌∷◌, ◌≡◌, Text, codes,
  is_alnum, to_lower, same, map, ◌==◌, if◌then◌else◌,
}

pub data PinRole : Type 0 where
  no_role light socket fan heating blind button contact motion : PinRole

unfoldable pub pin_role_str : PinRole → Text
pin_role_str light = codes "light"
pin_role_str socket = codes "socket"
pin_role_str fan = codes "fan"
pin_role_str heating = codes "heating"
pin_role_str blind = codes "blind"
pin_role_str button = codes "button"
pin_role_str contact = codes "contact"
pin_role_str motion = codes "motion"
pin_role_str no_role = codes "none"

-- The loop's order: from `PinRole::none` to `PinRole::motion`.
abbrev roles : List PinRole
roles = no_role ∷ light ∷ socket ∷ fan ∷ heating ∷ blind ∷ button ∷ contact ∷ motion ∷ []

unfoldable pub find_role : Text → List PinRole → Option PinRole
find_role s [] = none
find_role s (r ∷ rs) = if same s (pin_role_str r) then some r else find_role s rs

is_empty : Text → Bool
is_empty [] = true
is_empty (c ∷ cs) = false

unfoldable pub pin_role_parse : Text → Option PinRole
unfolding is_empty
pin_role_parse s = let t = map to_lower s in if is_empty t then some no_role else find_role t roles

abbrev pub room_char : ℕ → Bool
room_char c = is_alnum c || c == b'-' || c == b'_'

-- `none` at the first character that is not allowed in a path element.
unfoldable pub room_parse : Text → Option Text
room_parse [] = some []
room_parse (c ∷ cs) =
    let rest = room_parse cs in
    if not (room_char c) then none else elim rest [ none ↦ none | some t ↦ some (to_lower c ∷ t) ]

pub record Pin : Type 0 where
  pub name : Text
  pub role : PinRole
  pub room : Text
  pub level : ℕ

unfoldable pub eq_role : PinRole → PinRole → Bool
eq_role no_role no_role = true
eq_role light light = true
eq_role socket socket = true
eq_role fan fan = true
eq_role heating heating = true
eq_role blind blind = true
eq_role button button = true
eq_role contact contact = true
eq_role motion motion = true
eq_role r s = false
