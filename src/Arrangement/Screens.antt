-- ===== src/Arrangement/Screens.antt =====
-- UIScreen.cpp and ScreenListModel.cpp of the configuration tool: a screen with its place in the
-- view, and the list of screens. An index is an `int`, and one outside the list that the code
-- does not check gives `none`.
use Prim.Native.String.{String}
use synergy_hogsback.Prelude.{
  ℕ, suc, zero, Bool, true, false, ◌&&◌, ◌||◌, if◌then◌else◌, List, [], ◌∷◌, ◌++◌, Option, none,
  some, get_elem?, length,
}
use synergy_hogsback.Prelude.Text.{eqb_String}
use synergy_hogsback.Prelude.Int.{ℤ, pos, negsuc, ◌+ℤ◌, eqb_ℤ, ltb_ℤ, leb_ℤ}
use synergy_hogsback.Profile.Config.{ScreenStatus, inactive}

abbrev pub screen_icon_width : ℕ
screen_icon_width = 86

abbrev pub screen_icon_height : ℕ
screen_icon_height = 58

abbrev pub default_view_width : ℕ
default_view_width = 600

abbrev pub default_view_height : ℕ
default_view_height = 380

pub record UiScreen : Type 0 where
  pub id : ℤ
  pub pos_x : ℤ
  pub pos_y : ℤ
  pub name : String
  pub status : ScreenStatus
  pub locked : Bool
  pub error_code : ℕ
  pub error_message : String
  pub version : ℤ

abbrev pub new_screen : String → UiScreen
new_screen name = record {
  id = negsuc 0;
  pos_x = negsuc 0;
  pos_y = negsuc 0;
  name = name;
  status = inactive;
  locked = false;
  error_code = 0;
  error_message = "";
  version = negsuc 0;
}

-- A coordinate outside the visible area is refused.
unfoldable pub set_pos_x : ℤ → UiScreen → UiScreen
set_pos_x x s =
    let moved : UiScreen = record s { pos_x = x } in
    if leb_ℤ x (negsuc 85) || leb_ℤ (pos default_view_width) x then s else moved

unfoldable pub set_pos_y : ℤ → UiScreen → UiScreen
set_pos_y y s =
    let moved : UiScreen = record s { pos_y = y } in
    if leb_ℤ y (negsuc 57) || leb_ℤ (pos default_view_height) y then s else moved

abbrev pub set_status : ScreenStatus → UiScreen → UiScreen
set_status status s = record s { status = status }

abbrev pub set_locked : Bool → UiScreen → UiScreen
set_locked value s = record s { locked = value }

abbrev pub touch : UiScreen → UiScreen
touch s = record s { version = s.version +ℤ pos 1 }

abbrev pub get_screen : List UiScreen → ℤ → Option UiScreen
get_screen ss (pos i) = get_elem? ss i
get_screen ss (negsuc n) = none

-- The screen at an index is replaced; an index outside the list changes nothing.
abbrev pub modify : (UiScreen → UiScreen) → ℕ → List UiScreen → List UiScreen
modify f i [] = []
modify f zero (s ∷ ss) = f s ∷ ss
modify f (suc i) (s ∷ ss) = s ∷ modify f i ss

abbrev pub modify_at : (UiScreen → UiScreen) → ℤ → List UiScreen → List UiScreen
modify_at f (pos i) ss = modify f i ss
modify_at f (negsuc n) ss = ss

-- The first index from `i` on whose screen passes a test, or -1.
abbrev pub find_from : (UiScreen → Bool) → ℕ → List UiScreen → ℤ
find_from p i [] = negsuc 0
find_from p i (s ∷ ss) = let rest = find_from p (suc i) ss in if p s then pos i else rest

-- Do the coordinates lie on the icon of the screen?
abbrev pub covers : ℤ → ℤ → UiScreen → Bool
covers x y s =
    leb_ℤ s.pos_x x
    && leb_ℤ x (s.pos_x +ℤ pos screen_icon_width)
    && leb_ℤ s.pos_y y
    && leb_ℤ y (s.pos_y +ℤ pos screen_icon_height)

unfoldable pub get_model_index : List UiScreen → ℤ → ℤ → ℤ
get_model_index ss x y = find_from (covers x y) 0 ss

-- The two coordinates are set one after the other, each if it is accepted.
unfoldable pub move_screen : ℤ → ℤ → UiScreen → UiScreen
move_screen dx dy s = set_pos_y (s.pos_y +ℤ dy) (set_pos_x (s.pos_x +ℤ dx) s)

unfoldable pub move_model : ℤ → ℤ → ℤ → List UiScreen → List UiScreen
move_model index dx dy ss = modify_at (move_screen dx dy) index ss

abbrev pub lock_screen : ℤ → List UiScreen → List UiScreen
lock_screen index ss = modify_at (set_locked true) index ss

abbrev pub unlock_screen : ℤ → List UiScreen → List UiScreen
unlock_screen index ss = modify_at (set_locked false) index ss

-- An unchecked write at an index.
abbrev pub write_at : (UiScreen → UiScreen) → ℤ → List UiScreen → Option (List UiScreen)
write_at f index ss = elim (get_screen ss index) [
  | none ↦ none
  | some s ↦ some (modify_at f index ss)
]

-- The guard lets the length of the list through.
unfoldable pub set_screen_status : ℤ → ScreenStatus → List UiScreen → Option (List UiScreen)
set_screen_status index status ss =
    let written = write_at (set_status status) index ss in
    if ltb_ℤ index (pos 0) || ltb_ℤ (pos (length ss)) index then some ss else written

abbrev pub touch_screen : ℤ → List UiScreen → Option (List UiScreen)
touch_screen index ss = write_at touch index ss

abbrev pub find_screen : ℤ → List UiScreen → ℤ
find_screen id ss = find_from (λ s. eqb_ℤ s.id id) 0 ss

abbrev pub find_screen_named : String → List UiScreen → ℤ
find_screen_named name ss = find_from (λ s. eqb_String s.name name) 0 ss

abbrev pub add_screen_row : UiScreen → List UiScreen → List UiScreen
add_screen_row s ss = ss ++ (s ∷ [])

abbrev pub remove_at : ℕ → List UiScreen → List UiScreen
remove_at i [] = []
remove_at zero (s ∷ ss) = ss
remove_at (suc i) (s ∷ ss) = s ∷ remove_at i ss

abbrev pub remove_row : ℤ → List UiScreen → Option (List UiScreen)
remove_row (pos i) ss = some (remove_at i ss)
remove_row (negsuc n) ss = none

-- A list that does not have the screen is told to remove row -1, which `beginRemoveRows` asserts
-- not to happen.
unfoldable pub remove_screen_row : ℤ → List UiScreen → Option (List UiScreen)
remove_screen_row id ss = remove_row (find_screen id ss) ss

-- The place of the first screen of that name, or the place given.
unfoldable pub get_screen_pos : String → ℤ × ℤ → List UiScreen → ℤ × ℤ
get_screen_pos name new [] = new
get_screen_pos name new (s ∷ ss) =
    let rest = get_screen_pos name new ss in
    if eqb_String s.name name then (s.pos_x, s.pos_y) else rest

unfoldable pub adjust_all : ℤ → ℤ → List UiScreen → List UiScreen
adjust_all dx dy [] = []
adjust_all dx dy (s ∷ ss) = move_screen dx dy s ∷ adjust_all dx dy ss

abbrev pub put_row : ℤ → UiScreen → List UiScreen → List UiScreen
put_row (pos r) s ss = modify (λ old. s) r ss
put_row (negsuc n) s ss = add_screen_row s ss

-- A screen that is there is replaced, another is appended.
unfoldable pub update_one : UiScreen → List UiScreen → List UiScreen
update_one s ss = put_row (find_screen s.id ss) s ss

unfoldable pub update_screens : List UiScreen → List UiScreen → List UiScreen
update_screens [] ss = ss
update_screens (s ∷ more) ss = update_screens more (update_one s ss)
