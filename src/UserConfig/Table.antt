-- ===== src/UserConfig/Table.antt =====
-- UserConfig.cpp with ConfigParser.cpp: the settings, and the TOML table that they are saved as. The
-- text of a table is written and parsed by cpptoml. What throws is `none`, without the fields that
-- were set before.
use Prim.Native.String.{String}
use synergy_hogsback.Prelude.{
  ◌>>=◌, Bool, true, false, if◌then◌else◌, List, [], ◌∷◌, ◌++◌, Option, none, some,
}
use synergy_hogsback.Prelude.Text.{eqb_String}
use synergy_hogsback.Prelude.Int.{ℤ, pos, negsuc}

-- Nothing reads the value of a `real`, and nothing saves one.
pub data Value : Type 0 where
  text : String → Value
  number : ℤ → Value
  flag : Bool → Value
  real : Value

abbrev pub Section : Type 0
Section = List (String × Value)

abbrev pub Root : Type 0
Root = List (String × Section)

pub record UserConfig : Type 0 where
  pub user_token : String
  pub http_proxy : String
  pub user_id : ℤ
  pub profile_id : ℤ
  pub screen_id : ℤ
  pub system_uid : String
  pub has_developer_config : Bool
  pub version_check : Bool
  pub debug_level : ℤ
  pub drag_and_drop : Bool

abbrev pub reset : UserConfig → UserConfig
reset c = record c {
  user_token = "";
  user_id = negsuc 0;
  profile_id = negsuc 0;
  screen_id = negsuc 0;
  debug_level = pos 3;
  drag_and_drop = false;
}

-- The value of a key, the first one if the key comes twice.
abbrev pub value_of : {A : Type 0} → String → List (String × A) → Option A
value_of key [] = none
value_of key (e ∷ es) = let rest = value_of key es in if eqb_String e.0 key then some e.1 else rest

-- A value of another type throws.
abbrev pub as_text : Value → Option String
as_text (text s) = some s
as_text (number n) = none
as_text (flag b) = none
as_text real = none

abbrev pub as_number : Value → Option ℤ
as_number (text s) = none
as_number (number n) = some n
as_number (flag b) = none
as_number real = none

abbrev pub as_flag : Value → Option Bool
as_flag (text s) = none
as_flag (number n) = none
as_flag (flag b) = some b
as_flag real = none

abbrev pub get_value : {A : Type 0} → (Value → Option A) → String → Section → Option A
get_value cast key s = value_of key s >>= cast

abbrev pub get_text_or : String → String → Section → Option String
get_text_or key default s = elim (value_of key s) [ none ↦ some default | some v ↦ as_text v ]

-- A section that is not there changes nothing.
abbrev pub in_section :
    Option Section → (Section → UserConfig → Option UserConfig) → UserConfig → Option UserConfig
in_section none f c = some c
in_section (some s) f c = f s c

abbrev pub take_auth : Section → UserConfig → Option UserConfig
take_auth s c = do
  id ← get_value as_number "user-id" s
  token ← get_value as_text "user-token" s
  some (record c { user_id = id; user_token = token })

abbrev pub take_profile : Section → UserConfig → Option UserConfig
take_profile s c = do
  profile ← get_value as_number "profile-id" s
  screen ← get_value as_number "screen-id" s
  drag ← get_value as_flag "drag-and-drop" s
  level ← get_value as_number "debug-level" s
  some (record c {
    profile_id = profile;
    screen_id = screen;
    drag_and_drop = drag;
    debug_level = level;
  })

abbrev pub take_system : Section → UserConfig → Option UserConfig
take_system s c = do uid ← get_value as_text "uid" s; some (record c { system_uid = uid })

abbrev pub take_version_check : Section → UserConfig → Option UserConfig
take_version_check s c = do
  check ← get_value as_flag "version-check" s
  some (record c { version_check = check })

abbrev pub take_developer : Option Section → UserConfig → Option UserConfig
take_developer none c = some (record c { has_developer_config = false })
take_developer (some s) c = take_version_check s (record c { has_developer_config = true })

abbrev pub take_network : Section → UserConfig → Option UserConfig
take_network s c = do proxy ← get_text_or "httpProxy" "" s; some (record c { http_proxy = proxy })

unfoldable pub update : Root → UserConfig → Option UserConfig
update root c = do
  auth ← in_section (value_of "auth" root) take_auth c
  profile ← in_section (value_of "profile" root) take_profile auth
  system ← in_section (value_of "system" root) take_system profile
  developer ← take_developer (value_of "developer" root) system
  in_section (value_of "network" root) take_network developer

-- The proxy is left out if there is none, and the options of developers unless they were there.
abbrev pub table_of : Bool → Bool → UserConfig → Root
table_of no_proxy for_developer c =
    let auth : Section = ("user-id", number c.user_id) ∷ ("user-token", text c.user_token) ∷ [] in
    let profile : Section =
      ("profile-id", number c.profile_id)
      ∷ ("screen-id", number c.screen_id)
      ∷ ("drag-and-drop", flag c.drag_and_drop)
      ∷ ("debug-level", number c.debug_level)
      ∷ [] in
    let system : Section = ("uid", text c.system_uid) ∷ [] in
    let network : Root = ("network", ("httpProxy", text c.http_proxy) ∷ []) ∷ [] in
    let developer : Root = ("developer", ("version-check", flag c.version_check) ∷ []) ∷ [] in
    (("auth", auth) ∷ ("profile", profile) ∷ ("system", system) ∷ [])
    ++ (if no_proxy then [] else network)
    ++ (if for_developer then developer else [])

unfoldable pub make_table : UserConfig → Root
make_table c = table_of (eqb_String c.http_proxy "") c.has_developer_config c

-- The text of a table, as cpptoml prints and parses it; T is the type of the text.
pub record Toml (T : Type 0) : Type 0 where
  pub print : Root → T
  pub parse : T → Option Root

module _ {T : Type 0} (toml : Toml T) where
  unfoldable pub save : UserConfig → T
  save c = toml.print (make_table c)

  unfoldable pub load : T → UserConfig → Option UserConfig
  load file c = toml.parse file >>= λ root. update root c
