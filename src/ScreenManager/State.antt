-- ===== src/ScreenManager/State.antt =====
-- ScreenManager.cpp: the list of screens and their arrangement, between the user and the cloud. JSON
-- documents are parsed by Qt; an index that the code does not check and the list does not have gives
-- `none`, and so does the name of a status that is not known, which ends the program.
use Prim.Native.String.{String}
use synergy_hogsback.Prelude.{
  ◌>>=◌, ℕ, ◌==◌, Bool, true, false, not, ◌&&◌, ◌||◌, if◌then◌else◌, List, [], ◌∷◌, map, Option,
  none, some, any, keep, length,
}
use synergy_hogsback.Prelude.Int.{ℤ, pos, negsuc, ◌+ℤ◌, eqb_ℤ, ltb_ℤ, leb_ℤ}
use synergy_hogsback.Prelude.Text.{eqb_String}
use synergy_hogsback.Profile.Config.{ScreenStatus, connected, connecting, disconnected, inactive}
use synergy_hogsback.Arrangement.Screens.{
  UiScreen, new_screen, set_pos_x, set_pos_y, set_status, get_screen, find_screen,
  find_screen_named, update_screens, move_model,
}
use synergy_hogsback.Arrangement.Layout.{Floats, Layout, check_adjustment, adjust_model}
use synergy_hogsback.Arrangement.Layout.{add_screen, remove_screen}

-- A screen in a snapshot of the profile.
pub record JsonScreen : Type 0 where
  pub id : ℤ
  pub name : String
  pub version : ℤ
  pub x_pos : ℤ
  pub y_pos : ℤ
  pub status : String
  pub error_code : ℕ
  pub error_message : String
  pub active : Bool

pub record Snapshot : Type 0 where
  pub config_version : ℤ
  pub server : ℤ
  pub screens : List JsonScreen

-- AppConfig and the host name.
pub record Settings : Type 0 where
  pub screen_id : ℤ
  pub profile_id : ℤ
  pub host : String

-- What is sent to the cloud, to the service and to the window.
pub data Output : Type 0 where
  server_id_changed : Output
  local_host_name_changed : String → Output
  localhost_unsubscribed : Output
  unsub_profile : ℤ → ℤ → Output
  profile_config : List (ℤ × ℤ × ℤ) → ℤ → Output
  server_claimed : ℤ → Output

pub record ScreenManager (F : Type 0) : Type 0 where
  pub layout : Layout F
  pub config_version : ℤ
  -- Was the version counted beyond the largest `int`?
  pub overflowed : Bool
  pub server_id : ℤ
  pub screen_ids : List ℤ
  pub single : Bool
  pub sent : List Output

-- `++m_configVersion`, an `int`. Beyond the largest one C++ does not say what comes; here it wraps,
-- and `overflowed` tells that it did.
abbrev pub next_version : {F : Type 0} → ScreenManager F → ScreenManager F
next_version m =
    let last = eqb_ℤ m.config_version (pos 2147483647) in
    record m {
      config_version = if last then negsuc 2147483647 else m.config_version +ℤ pos 1;
      overflowed = last || m.overflowed;
    }

-- The latest output stands first.
abbrev pub tell : {F : Type 0} → Output → ScreenManager F → ScreenManager F
tell o m = record m { sent = o ∷ m.sent }

abbrev pub with_layout : {F : Type 0} → Layout F → ScreenManager F → ScreenManager F
with_layout l m = record m { layout = l }

abbrev pub with_screens : {F : Type 0} → List UiScreen → ScreenManager F → ScreenManager F
with_screens ss m = record m { layout = record (m.layout) { screens = ss } }

abbrev pub has_id : ℤ → List ℤ → Bool
has_id d ds = any (λ e. eqb_ℤ e d) ds

-- The ids of a snapshot as a set.
abbrev pub id_set : List JsonScreen → List ℤ
id_set [] = []
id_set (j ∷ js) = let rest = id_set js in if has_id j.id rest then rest else j.id ∷ rest

-- Any other name is a bare `throw`, which nothing catches.
unfoldable pub string_to_screen_status : String → Option ScreenStatus
string_to_screen_status str =
    if eqb_String str "Connected"
    then some connected
    else (if eqb_String str "Connecting" || eqb_String str "ConnectingWithError"
        then some connecting
        else (if eqb_String str "Disconnected"
            then some disconnected
            else (if eqb_String str "Inactive" then some inactive else none)))

-- The screen that a snapshot describes, with its status. Its coordinates are refused outside the
-- visible area.
unfoldable pub screen_of : JsonScreen → ScreenStatus → UiScreen
screen_of j status =
    let named : UiScreen = record (new_screen j.name) { id = j.id } in
    let placed = set_pos_y j.y_pos (set_pos_x j.x_pos named) in
    let told : UiScreen = record (set_status status placed) {
      error_code = j.error_code;
      error_message = j.error_message;
    } in
    record (set_status (if j.active then told.status else inactive) told) { version = j.version }

unfoldable pub from_json : JsonScreen → Option UiScreen
from_json j = do status ← string_to_screen_status j.status; some (screen_of j status)

-- Is a screen of the snapshot passed over, as it is locked or known in a later version?
abbrev pub is_skipped : JsonScreen → Option UiScreen → Bool
is_skipped j none = false
is_skipped j (some s) = s.locked || ltb_ℤ j.version s.version

-- The screens to take over from a snapshot.
abbrev pub latest : List UiScreen → List JsonScreen → Option (List UiScreen)
latest ss [] = some []
latest ss (j ∷ js) =
    let rest = latest ss js in
    let taken : Option (List UiScreen) = do
      screen ← from_json j
      screens ← rest
      some (screen ∷ screens)
    in if is_skipped j (get_screen ss (find_screen j.id ss)) then rest else taken

-- The names of the local screen that are announced on the way, the latest first.
abbrev pub announced : ℤ → List UiScreen → List JsonScreen → List Output → List Output
announced local ss [] sent = sent
announced local ss (j ∷ js) sent = announced local ss js (
    if not (is_skipped j (get_screen ss (find_screen j.id ss))) && eqb_ℤ j.id local
    then local_host_name_changed j.name ∷ sent
    else sent)

module _ {F : Type 0} (fl : Floats F) (app : Settings) where
  unfoldable pub on_update_profile_config : ScreenManager F → ScreenManager F
  on_update_profile_config m =
      let places = map (λ (s : UiScreen). (s.id, s.pos_x, s.pos_y)) m.layout.screens in
      next_version (tell (profile_config places m.config_version) m)

  unfoldable pub move_screen_model : ℤ → ℤ → ℤ → ScreenManager F → Option (ScreenManager F)
  move_screen_model index dx dy m =
      let moved = with_screens (move_model index dx dy m.layout.screens) m in
      let adjusted : Option (ScreenManager F) = do
        l ← adjust_model fl app.host index moved.layout
        some (on_update_profile_config (with_layout l m))
      in if eqb_ℤ dx (pos 0) && eqb_ℤ dy (pos 0) || eqb_ℤ index (negsuc 0) then some m else adjusted

  unfoldable pub add_named : String → ScreenManager F → ScreenManager F
  add_named name m =
      let added = with_layout (add_screen fl app.host (new_screen name) m.layout) m in
      if eqb_ℤ (find_screen_named name m.layout.screens) (negsuc 0) then added else m

  unfoldable pub set_view_width : ℤ → ScreenManager F → ScreenManager F
  set_view_width w m =
      let l : Layout F = record (m.layout) { original_view_w = w } in
      let changed = with_layout (check_adjustment fl true l) m in
      if leb_ℤ w (pos 0) then m else changed

  unfoldable pub set_view_height : ℤ → ScreenManager F → ScreenManager F
  set_view_height h m =
      let l : Layout F = record (m.layout) { original_view_h = h } in
      let changed = with_layout (check_adjustment fl true l) m in
      if leb_ℤ h (pos 0) then m else changed

  unfoldable pub server_claim : ℤ → ScreenManager F → Option (ScreenManager F)
  server_claim index m = do
    s ← get_screen m.layout.screens index
    some (tell (server_claimed s.id) m)

  -- The cloud is told of a screen that it knows.
  abbrev pub tell_cloud : Bool → UiScreen → ScreenManager F → ScreenManager F
  tell_cloud notify s m =
      let told = next_version (tell (unsub_profile s.id m.config_version) m) in
      if not (eqb_ℤ s.id (negsuc 0)) && notify then told else m

  unfoldable pub remove_found : ℤ → Bool → ScreenManager F → Option (ScreenManager F)
  remove_found index notify m = do
    s ← get_screen m.layout.screens index
    l ← remove_screen fl s.id m.layout
    some (with_layout l (tell_cloud notify s m))

  unfoldable pub remove_screen_by_index : ℤ → Bool → ScreenManager F → Option (ScreenManager F)
  remove_screen_by_index index notify m =
      let removed = remove_found index notify m in
      if eqb_ℤ index (negsuc 0) then some m else removed

  unfoldable pub remove_screen_by_id : ℤ → Bool → ScreenManager F → Option (ScreenManager F)
  remove_screen_by_id d notify m =
      let index = find_screen d m.layout.screens in
      let removed = remove_screen_by_index index notify m in
      if eqb_ℤ index (negsuc 0) && eqb_ℤ d (negsuc 0) then some m else removed

  unfoldable pub remove_screen_by_name : String → Bool → ScreenManager F → Option (ScreenManager F)
  remove_screen_by_name name notify m =
      remove_screen_by_index (find_screen_named name m.layout.screens) notify m

  -- The screens that the snapshot does not have go, in the order in which the set is gone through.
  unfoldable pub remove_unsubscribed : List ℤ → ScreenManager F → Option (ScreenManager F)
  remove_unsubscribed [] m = some m
  remove_unsubscribed (d ∷ ds) m = do
    removed ← remove_screen_by_id d false m
    let told : ScreenManager F = tell localhost_unsubscribed removed
    remove_unsubscribed ds (if eqb_ℤ d app.screen_id then told else removed)

  -- The server of the profile.
  abbrev pub take_server : ℤ → ScreenManager F → ScreenManager F
  take_server server m =
      let changed : ScreenManager F = tell server_id_changed (record m { server_id = server }) in
      if eqb_ℤ m.server_id server then m else changed

  -- The local screen is new to a profile that this computer belongs to.
  abbrev pub misses_local : List ℤ → ScreenManager F → Bool
  misses_local ids m =
      (not (has_id app.screen_id m.screen_ids) && not (has_id app.screen_id ids))
      && not (eqb_ℤ app.profile_id (negsuc 0))

  unfoldable pub take_snapshot : Snapshot → ScreenManager F → Option (ScreenManager F)
  take_snapshot snap old =
      let m = take_server snap.server (record old { config_version = snap.config_version }) in
      let ss = m.layout.screens in
      let listed = id_set snap.screens in
      let ids = if misses_local listed m then app.screen_id ∷ listed else listed in
      let heard : ScreenManager F = record m {
        sent = announced app.screen_id ss snap.screens m.sent;
      } in
      do
        screens ← latest ss snap.screens
        left ← remove_unsubscribed (keep (λ d. not (has_id d ids)) m.screen_ids) heard
        some (
            with_screens (update_screens screens left.layout.screens)
              (record left { screen_ids = ids }))

  -- The screen that stood for this computer goes, and this computer's own comes if need be.
  unfoldable pub finish : Bool → ScreenManager F → Option (ScreenManager F)
  finish update_local_host m = do
    rest ← remove_screen_by_id (negsuc 0) false m
    let own : UiScreen = record (new_screen app.host) { id = app.screen_id }
    let l : Layout F = add_screen fl app.host own rest.layout
    let added : ScreenManager F = on_update_profile_config (with_layout l rest)
    let all : ScreenManager F = if update_local_host then added else rest
    some (record all { single = length all.layout.screens == 1 })

  unfoldable pub on_screens : Option Snapshot → ScreenManager F → Option (ScreenManager F)
  on_screens none m = finish false m
  on_screens (some snap) m =
      let taken : Option (ScreenManager F) = do
        next ← take_snapshot snap m
        finish (misses_local (id_set snap.screens) m) next
      in if ltb_ℤ snap.config_version m.config_version then some m else taken

-- What the user, the window and the service ask for.
pub data Request : Type 0 where
  drag : ℤ → ℤ → ℤ → Request
  add_name : String → Request
  view_width : ℤ → Request
  view_height : ℤ → Request
  claim : ℤ → Request
  remove_id : ℤ → Bool → Request
  remove_name : String → Bool → Request
  received_screens : Option Snapshot → Request

unfoldable pub serve :
    {F : Type 0} → Floats F → Settings → Request → ScreenManager F → Option (ScreenManager F)
serve fl app (drag index dx dy) m = move_screen_model fl app index dx dy m
serve fl app (add_name name) m = some (add_named fl app name m)
serve fl app (view_width w) m = some (set_view_width fl app w m)
serve fl app (view_height h) m = some (set_view_height fl app h m)
serve fl app (claim index) m = server_claim fl app index m
serve fl app (remove_id d notify) m = remove_screen_by_id fl app d notify m
serve fl app (remove_name name notify) m = remove_screen_by_name fl app name notify m
serve fl app (received_screens snap) m = on_screens fl app snap m
