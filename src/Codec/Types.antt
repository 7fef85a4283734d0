-- ===== src/Codec/Types.antt =====
-- The message types (MessageTypes.hpp and .cpp): their tags and fields, and the functions that the
-- macro `DEFINE_SYNERGY_MSG` defines for each of them.
use Prim.Native.String.{String}
use Prim.Native.Char.{code}
use synergy_hogsback.Prelude.{
  ℕ, ◌+◌, Bool, true, false, not, ◌&&◌, ◌||◌, ◌==◌, if◌then◌else◌, List, [], ◌∷◌, Option, some,
  length,
}
use synergy_hogsback.Codec.Fields.{
  bad_header, Reading, thrown, Field, int, text, vector, version, Args, sizes, read_args,
  write_args, both,
}

pub data Name : Type 0 where
  hello : Name
  hello_back : Name
  noop : Name
  close : Name
  enter : Name
  leave : Name
  clipboard_grab : Name
  screensaver : Name
  reset_options : Name
  info_ack : Name
  keep_alive : Name
  key_down : Name
  key_repeat : Name
  key_up : Name
  mouse_down : Name
  mouse_up : Name
  mouse_move : Name
  mouse_rel_move : Name
  mouse_wheel_move : Name
  clipboard_data : Name
  info : Name
  set_options : Name
  file_transfer : Name
  drag_info : Name
  info_query : Name
  incompatible : Name
  busy : Name
  unknown : Name
  bad : Name

unfoldable pub type_tag : Name → String
type_tag hello = "Synergy"
type_tag hello_back = "Synergy"
type_tag noop = "CNOP"
type_tag close = "CBYE"
type_tag enter = "CINN"
type_tag leave = "COUT"
type_tag clipboard_grab = "CCLP"
type_tag screensaver = "CSEC"
type_tag reset_options = "CROP"
type_tag info_ack = "CIAK"
type_tag keep_alive = "CALV"
type_tag key_down = "DKDN"
type_tag key_repeat = "DKRP"
type_tag key_up = "DKUP"
type_tag mouse_down = "DMDN"
type_tag mouse_up = "DMUP"
type_tag mouse_move = "DMMV"
type_tag mouse_rel_move = "DMRM"
type_tag mouse_wheel_move = "DMWM"
type_tag clipboard_data = "DCLP"
type_tag info = "DINF"
type_tag set_options = "DSOP"
type_tag file_transfer = "DFTR"
type_tag drag_info = "DDRG"
type_tag info_query = "QINF"
type_tag incompatible = "EICV"
type_tag busy = "EBSY"
type_tag unknown = "EUNK"
type_tag bad = "EBAD"

abbrev pub u8 : Field
u8 = int 1

-- `s16_type` as well: an integer is known by its bits.
abbrev pub u16 : Field
u16 = int 2

abbrev pub u32 : Field
u32 = int 4

unfoldable pub fields : Name → List Field
fields hello = version ∷ []
fields hello_back = version ∷ text ∷ []
fields noop = []
fields close = []
fields enter = u16 ∷ u16 ∷ u32 ∷ u16 ∷ []
fields leave = []
fields clipboard_grab = u8 ∷ u32 ∷ []
fields screensaver = u8 ∷ []
fields reset_options = []
fields info_ack = []
fields keep_alive = []
fields key_down = u16 ∷ u16 ∷ u16 ∷ []
fields key_repeat = u16 ∷ u16 ∷ u16 ∷ u16 ∷ []
fields key_up = u16 ∷ u16 ∷ u16 ∷ []
fields mouse_down = u8 ∷ []
fields mouse_up = u8 ∷ []
fields mouse_move = u16 ∷ u16 ∷ []
fields mouse_rel_move = u16 ∷ u16 ∷ []
fields mouse_wheel_move = u16 ∷ u16 ∷ []
fields clipboard_data = u8 ∷ u32 ∷ u8 ∷ text ∷ []
fields info = u16 ∷ u16 ∷ u16 ∷ u16 ∷ u16 ∷ u16 ∷ u16 ∷ []
fields set_options = vector 4 ∷ []
fields file_transfer = u8 ∷ text ∷ []
fields drag_info = u16 ∷ text ∷ []
fields info_query = []
fields incompatible = version ∷ []
fields busy = []
fields unknown = []
fields bad = []

unfoldable pub codes : String → List ℕ
codes String.[] = []
codes (String.◌∷◌ c s) = code c ∷ codes s

abbrev pub tag_bytes : Name → List ℕ
tag_bytes n = codes (type_tag n)

-- `memcmp (header, type_tag (), tag_size)` finds no difference.
unfoldable pub same : List ℕ → List ℕ → Bool
same [] [] = true
same [] (y ∷ ys) = false
same (x ∷ xs) [] = false
same (x ∷ xs) (y ∷ ys) = x == y && same xs ys

unfoldable pub size : (n : Name) → Args (fields n) → ℕ
size n args = length (tag_bytes n) + sizes (fields n) args

unfoldable pub write_message : (n : Name) → Args (fields n) → Option (List ℕ)
write_message n args = both (some (tag_bytes n)) (write_args (fields n) args)

-- The bytes from `header` to `data`, and those from `data` to `end`.
unfoldable pub read_message : (n : Name) → List ℕ → List ℕ → Reading (Args (fields n))
read_message n header data' =
    if not (length header == length (tag_bytes n)) || not (same header (tag_bytes n))
    then thrown bad_header
    else read_args (fields n) data'
