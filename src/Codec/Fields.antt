-- ===== src/Codec/Fields.antt =====
-- Reading and writing one field of a message (MessageCodec.hpp). A buffer with the number of bytes
-- left in it is the list of those bytes. What a reader throws is an error, and what a writer appends
-- is a list of bytes, `none` where a `numeric_cast` throws.
use synergy_hogsback.Prelude.{
  ℕ, zero, suc, ◌+◌, ◌*◌, ◌^◌, ltb, if◌then◌else◌, List, [], ◌∷◌, ◌++◌, Option, none, some, length,
  take, drop,
}
use synergy_hogsback.Codec.Bytes.{write_int, as_int}

pub data Error : Type 0 where
  integer_bounds : Error
  string_bounds : Error
  array_bounds : Error
  bad_header : Error

-- A value and the bytes left behind it, or what was thrown.
pub data Reading (A : Type 0) : Type 0 where
  thrown : Error → Reading A
  read : A → List ℕ → Reading A

infixl 5 ◌>>=◌
abbrev pub ◌>>=◌ : {A B : Type 0} → Reading A → (A → List ℕ → Reading B) → Reading B
thrown e >>= f = thrown e
read a rest >>= f = f a rest

-- The types of fields: an integer and a vector of integers of so many bytes, a string, and the
-- sequence `Version` of two 16-bit integers.
pub data Field : Type 0 where
  int : ℕ → Field
  text : Field
  vector : ℕ → Field
  version : Field

abbrev pub Value : Field → Type 0
Value (int width) = ℕ
Value text = List ℕ
Value (vector width) = List ℕ
Value version = ℕ × ℕ

unfoldable pub size_of : (f : Field) → Value f → ℕ
size_of (int width) v = width
size_of text s = 4 + length s
size_of (vector width) vs = 4 + length vs * width
size_of version v = 2 + 2

unfoldable pub read_int : ℕ → List ℕ → Reading ℕ
read_int width buf =
    if ltb (length buf) width
    then thrown integer_bounds
    else read (as_int (take width buf)) (drop width buf)

unfoldable pub read_text : List ℕ → Reading (List ℕ)
read_text buf = read_int 4 buf >>= λ size rest.
    if ltb (length rest) size then thrown string_bounds else read (take size rest) (drop size rest)

-- The loop over the elements of a resized vector.
unfoldable pub read_each : ℕ → ℕ → List ℕ → Reading (List ℕ)
read_each width zero buf = read [] buf
read_each width (suc n) buf =
    read_int width buf >>= λ v rest. read_each width n rest >>= λ vs left. read (v ∷ vs) left

unfoldable pub read_vector : ℕ → List ℕ → Reading (List ℕ)
read_vector width buf = read_int 4 buf >>= λ size rest.
    if ltb (length rest) (size * width) then thrown array_bounds else read_each width size rest

unfoldable pub read_version : List ℕ → Reading (ℕ × ℕ)
read_version buf =
    read_int 2 buf >>= λ major rest. read_int 2 rest >>= λ minor left. read (major, minor) left

unfoldable pub read_from : (f : Field) → List ℕ → Reading (Value f)
read_from (int width) = read_int width
read_from text = read_text
read_from (vector width) = read_vector width
read_from version = read_version

-- `numeric_cast<std::uint32_t>` of a size, written.
unfoldable pub write_size : ℕ → Option (List ℕ)
write_size n = if ltb n (2 ^ 32) then some (write_int 4 n) else none

unfoldable pub write_each : ℕ → List ℕ → List ℕ
write_each width [] = []
write_each width (v ∷ vs) = write_int width v ++ write_each width vs

-- Two parts, one behind the other.
abbrev pub both : Option (List ℕ) → Option (List ℕ) → Option (List ℕ)
both none b = none
both (some xs) none = none
both (some xs) (some ys) = some (xs ++ ys)

unfoldable pub write_to : (f : Field) → Value f → Option (List ℕ)
write_to (int width) v = some (write_int width v)
write_to text s = both (write_size (length s)) (some s)
write_to (vector width) vs = both (write_size (length vs)) (some (write_each width vs))
write_to version v = some (write_int 2 v.0 ++ write_int 2 v.1)

-- `args ()`: the values of a list of fields.
abbrev pub Args : List Field → Type 0
Args [] = Unit
Args (f ∷ fs) = Value f × Args fs

unfoldable pub sizes : (fs : List Field) → Args fs → ℕ
sizes [] args = 0
sizes (f ∷ fs) args = size_of f args.0 + sizes fs args.1

unfoldable pub read_args : (fs : List Field) → List ℕ → Reading (Args fs)
read_args [] buf = read tt buf
read_args (f ∷ fs) buf =
    read_from f buf >>= λ v rest. read_args fs rest >>= λ vs left. read (v, vs) left

unfoldable pub write_args : (fs : List Field) → Args fs → Option (List ℕ)
write_args [] args = some []
write_args (f ∷ fs) args = both (write_to f args.0) (write_args fs args.1)
