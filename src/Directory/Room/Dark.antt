-- ===== src/Directory/Room/Dark.antt =====
-- Writing a room's dark flag, and what it reads as.
use in10dhost.Prelude.{
  ℕ, ◌≡◌, refl, Bool, true, false, none, some, [], ◌∷◌, Text, codes, same, same_self, same→eq,
  if◌then◌else◌, arith, all, length, ◌+◌, drop_end, drop_end-append_all,
}
use in10dhost.Prelude.Int.{pos}
use in10dhost.Bus.{Bus}
use in10dhost.Switches.Handler.{Handler, dark_of, is_dark}
use in10dhost.Switches.Leaves.{Rooms, put_room, erase_room, dark_set, dark_clear}
use in10dhost.Ds2408.Settings.{pin_input, ends_input}
use in10dhost.Directory.{Home, answered, window}
use in10dhost.Directory.Room.{split, file, dark, read, write, write_dark, content}

pub dark_of-put_room :
    (q r : Text) (v : Bool) (m : Rooms)
    → dark_of q (put_room r v m) ≡ (if same q r then some v else dark_of q m)
unfolding dark_of put_room
dark_of-put_room q r v [] = refl
dark_of-put_room q r v ((n, b) ∷ m) = ground (
  arith,
  same→eq q n,
  same→eq q r,
  same→eq r n,
  same_self r,
  same_self n,
  dark_of-put_room q r v m,
)

-- The flag that a room did not have is gone again.
pub erase_room-put_room :
    (r : Text) (v : Bool) (m : Rooms) → dark_of r m ≡ none → erase_room r (put_room r v m) ≡ m
unfolding dark_of put_room erase_room
erase_room-put_room r v [] h = ground (arith, same_self r)
erase_room-put_room r v ((n, b) ∷ m) h = ground (arith, same_self r, erase_room-put_room r v m)

is_dark-dark_set :
    (b : Bus) (h : Handler b) (c : ℕ) (cs q : Text) (v : Bool)
    → is_dark b q (dark_set b v (c ∷ cs) h) ≡ (if same q (c ∷ cs) then v else is_dark b q h)
unfolding is_dark dark_set
is_dark-dark_set b h c cs [] v = unfold same in refl
is_dark-dark_set b h c cs (x ∷ q) v =
    ground (arith, dark_of-put_room (x ∷ q) (c ∷ cs) v h.room_dark)

abbrev pub digit : Bool → ℕ
digit v = if v then b'1' else b'0'

pin_input-digit :
    (v : Bool) (ends : Text)
    → all ends_input ends ≡ true
    → pin_input (digit v ∷ ends) ≡ digit v ∷ []
pin_input-digit true ends h =
    rw (drop_end-append_all ends_input (b'1' ∷ []) ends h) (unfold drop_end in refl)
pin_input-digit false ends h =
    rw (drop_end-append_all ends_input (b'0' ∷ []) ends h) (unfold drop_end in refl)

digit_set :
    (b : Bus) (h : Home b) (c : ℕ) (cs ends : Text) (v : Bool)
    → all ends_input ends ≡ true
    → write_dark b (c ∷ cs) (digit v ∷ ends) h
      ≡ (answered (length ends + 1), record h { handler = dark_set b v (c ∷ cs) h.handler })
unfolding write_dark
digit_set b h c cs ends true e = rw (pin_input-digit true ends e) (unfold same in ground arith)
digit_set b h c cs ends false e = rw (pin_input-digit false ends e) (unfold same in ground arith)

read_dark :
    (b : Bus) (h : Home b) (path r : Text) (v : Bool)
    → split path ≡ file r dark
    → is_dark b r h.handler ≡ v
    → read b path 2 (pos 0) h ≡ answered (digit v ∷ 10 ∷ [])
unfolding read content window
read_dark b h path r v p e = rw (p, read) (rw e refl)

-- A 0 or 1 that is written to rooms/<room>/dark, with line ends and NULs behind it, takes its
-- whole size, the same file reads that digit and a line end then, and every room is dark as was
-- written if it is that room, and as before if it is another one. The path names that file of a
-- room whose name is not empty.
pub dark_written :
    (b : Bus) (h : Home b) (path : Text) (c : ℕ) (cs ends : Text) (v : Bool)
    → split path ≡ file (c ∷ cs) dark
    → all ends_input ends ≡ true
    → ((write b path (digit v ∷ ends) h).0 ≡ answered (length ends + 1))
      × (read b path 2 (pos 0) (write b path (digit v ∷ ends) h).1 ≡ answered (digit v ∷ 10 ∷ []))
      × ((q : Text)
          → is_dark b q (write b path (digit v ∷ ends) h).1.handler
            ≡ (if same q (c ∷ cs) then v else is_dark b q h.handler))
unfolding write
dark_written b h path c cs ends v p e =
    let at = is_dark-dark_set b h.handler c cs in
    rw (p, write)
      (rw (digit_set b h c cs ends v e) (
        refl,
        read_dark b (record h { handler = dark_set b v (c ∷ cs) h.handler }) path (c ∷ cs) v p
            (rw (at (c ∷ cs) v, same_self (c ∷ cs)) refl),
        λ q. at q v,
      ))

-- "auto" as the text that is written.
abbrev pub auto : Text
auto = codes "auto"

auto_clears :
    (b : Bus) (h : Home b) (c : ℕ) (cs : Text)
    → write_dark b (c ∷ cs) auto h
      ≡ (answered 4, record h { handler = dark_clear b (c ∷ cs) h.handler })
unfolding write_dark same drop_end
auto_clears b h c cs = refl

write_at :
    (b : Bus) (h : Home b) (path r buf : Text)
    → split path ≡ file r dark
    → write b path buf h ≡ write_dark b r buf h
unfolding write
write_at b h path r buf p = rw (p, write) refl

pub dark_written_auto :
    (b : Bus) (h : Home b) (path : Text) (c : ℕ) (cs ends : Text) (v : Bool)
    → split path ≡ file (c ∷ cs) dark
    → all ends_input ends ≡ true
    → dark_of (c ∷ cs) h.handler.room_dark ≡ none
    → (write b path auto (write b path (digit v ∷ ends) h).1).1 ≡ h
unfolding dark_set dark_clear
dark_written_auto b h path c cs ends v p e fresh =
    let h' = record h { handler = dark_set b v (c ∷ cs) h.handler } in
    rw (write_at b h path (c ∷ cs) (digit v ∷ ends) p) (
      rw (digit_set b h c cs ends v e) (
        rw (write_at b h' path (c ∷ cs) auto p) (
          rw (auto_clears b h' c cs)
            (rw (erase_room-put_room (c ∷ cs) v h.handler.room_dark fresh) refl))))
