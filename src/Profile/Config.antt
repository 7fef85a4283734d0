-- ===== src/Profile/Config.antt =====
-- ProfileConfig.cpp: comparing a profile with another one, with the signals that tell the
-- differences, and taking the other one over.
use Prim.Native.String.{String}
use synergy_hogsback.Prelude.{
  ℕ, Bool, true, false, not, ◌||◌, ◌==◌, if◌then◌else◌, List, [], ◌∷◌, ◌++◌, map, Option, none,
  some, any, keep,
}
use synergy_hogsback.Prelude.Text.{eqb_String}
use synergy_hogsback.Prelude.Int.{ℤ, negsuc, eqb_ℤ, ltb_ℤ}

pub data ScreenStatus : Type 0 where
  connected : ScreenStatus
  connecting : ScreenStatus
  disconnected : ScreenStatus
  inactive : ScreenStatus

-- The number of a status.
abbrev pub status_index : ScreenStatus → ℕ
status_index connected = 0
status_index connecting = 1
status_index disconnected = 2
status_index inactive = 3

pub record Screen : Type 0 where
  pub id : ℤ
  pub name : String
  pub active : Bool
  pub x : ℤ
  pub y : ℤ
  pub width : ℤ
  pub height : ℤ
  pub status : ScreenStatus
  pub ip_list : String
  pub error_code : ℕ
  pub error_message : String

pub record Profile : Type 0 where
  pub id : ℤ
  pub version : ℤ
  pub server : ℤ
  pub name : String

pub record ProfileConfig : Type 0 where
  pub profile : Profile
  pub screens : List Screen

pub data Signal : Type 0 where
  modified : Signal
  profile_id_changed : ℤ → Signal
  profile_name_changed : String → Signal
  profile_server_changed : ℤ → Signal
  screen_name_changed : ℤ → Signal
  screen_ip_set_changed : Screen → Signal
  screen_position_changed : ℤ → Signal
  screen_status_changed : ℤ → Signal
  screen_set_changed : List Screen → List Screen → Signal
  screen_online : Screen → Signal
  screen_offline : Screen → Signal

abbrev pub eqb : Bool → Bool → Bool
eqb true b = b
eqb false b = not b

-- The variable `different`, and the signals sent so far.
pub record Comparison : Type 0 where
  pub different : Bool
  pub signals : List Signal

-- `if (test) { signals...; different = true; }`
unfoldable pub note : Bool → List Signal → Comparison → Comparison
note test es c = if test then record { different = true; signals = c.signals ++ es } else c

-- The body of the inner loop, for two screens of one id.
unfoldable pub compare_screen : Screen → Screen → Comparison → Comparison
compare_screen s t c =
    note (not (status_index s.status == status_index t.status)) (screen_status_changed t.id ∷ []) (
      note (not (eqb_ℤ s.x t.x) || not (eqb_ℤ s.y t.y)) (screen_position_changed t.id ∷ []) (
        note (not (eqb_String s.ip_list t.ip_list)) (screen_ip_set_changed t ∷ []) (
          note (not (eqb s.active t.active))
            ((if t.active then screen_online t else screen_offline t) ∷ [])
            (note (not (eqb_String s.name t.name)) (screen_name_changed t.id ∷ []) c))))

-- The inner loop, over the screens of this profile.
unfoldable pub compare_with : Screen → List Screen → Comparison → Comparison
compare_with t [] c = c
compare_with t (s ∷ ss) c =
    let same = compare_with t ss (compare_screen s t c) in
    let other = compare_with t ss c in if eqb_ℤ s.id t.id then same else other

-- The loop over the screens of the target.
unfoldable pub compare_screens : List Screen → List Screen → Comparison → Comparison
compare_screens own [] c = c
compare_screens own (t ∷ ts) c = compare_screens own ts (compare_with t own c)

unfoldable pub added_screens : List Screen → List Screen → List Screen
added_screens own = keep (λ t. not (any (λ s. eqb_ℤ s.id t.id) own))

unfoldable pub removed_screens : List Screen → List Screen → List Screen
removed_screens own target = keep (λ s. not (any (λ t. eqb_ℤ s.id t.id) target)) own

abbrev pub is_empty : List Screen → Bool
is_empty [] = true
is_empty (s ∷ ss) = false

unfoldable pub compare_sets : List Screen → List Screen → Comparison → Comparison
compare_sets own target c =
    let added = added_screens own target in
    let removed = removed_screens own target in
    note (not (is_empty added) || not (is_empty removed))
      (screen_set_changed added removed ∷ map screen_online (keep (λ s. s.active) added)) c

unfoldable pub compare_profiles : Profile → Profile → Comparison → Comparison
compare_profiles p t c =
    note (not (eqb_ℤ t.server p.server)) (profile_server_changed t.server ∷ []) (
      note (not (eqb_String t.name p.name)) (profile_name_changed t.name ∷ [])
        (note (not (eqb_ℤ t.id p.id)) (profile_id_changed t.id ∷ []) c))

-- `ProfileConfig::compare`
unfoldable pub compare : ProfileConfig → ProfileConfig → Comparison
compare c target =
    let start : Comparison = record { different = false; signals = [] } in
    if ltb_ℤ target.profile.version c.profile.version
    then start
    else compare_sets c.screens target.screens
        (compare_screens c.screens target.screens (compare_profiles c.profile target.profile start))

-- `ProfileConfig::apply`
unfoldable pub apply : ProfileConfig → ProfileConfig → ProfileConfig × List Signal
apply c src =
    let out = compare c src in if out.different then (src, out.signals) else (c, out.signals)

-- `ProfileConfig::getScreen`; `none` where it throws.
unfoldable pub get_screen : List Screen → ℤ → Option Screen
get_screen [] id = none
get_screen (s ∷ ss) id = let later = get_screen ss id in if eqb_ℤ s.id id then some s else later

-- `ProfileConfig::claimServer`
unfoldable pub claim_server : ProfileConfig → ℤ → ProfileConfig × List Signal
claim_server c server_id =
    (record c { profile = record c.profile { server = server_id } }, modified ∷ [])

-- `ProfileConfig::clear`
unfoldable pub clear : ProfileConfig → ProfileConfig
clear c = record {
  profile = record { id = negsuc 0; version = negsuc 0; server = negsuc 0; name = String.[] };
  screens = [];
}
