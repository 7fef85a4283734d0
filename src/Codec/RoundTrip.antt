-- ===== src/Codec/RoundTrip.antt =====
-- MessageCodec.hpp, reading what was written: fields one by one, then the fields of a message.
use synergy_hogsback.Prelude.{
  ℕ, ◌+◌, ◌*◌, ◌^◌, ◌<◌, ◌≡◌, refl, ap, ◌∙◌, sym, false, ltb, List, [], ◌∷◌, ◌++◌, Option, some,
  arith, length, take, drop, take-append, drop-append, length-append, append_assoc, All, lt→ltb,
}
use synergy_hogsback.Codec.Bytes.{write_int, length-write_int, as_int-write_int}
use synergy_hogsback.Codec.Fields.{
  Reading, read, Field, int, text, vector, version, Value, size_of, read_int, read_text, read_each,
  read_vector, read_version, read_from, write_size, write_each, write_to, both, Args, sizes,
  read_args, write_args,
}

-- The value can be written: integers fit their width, and lengths fit 32 bits.
abbrev pub Fits : (f : Field) → Value f → Type 0
Fits (int width) v = v < 256 ^ width
Fits text s = length s < 2 ^ 32
Fits (vector width) vs = (length vs < 2 ^ 32) × All (λ v. v < 256 ^ width) vs
Fits version v = (v.0 < 256 ^ 2) × (v.1 < 256 ^ 2)

abbrev pub AllFit : (fs : List Field) → Args fs → Type 0
AllFit [] args = Unit
AllFit (f ∷ fs) args = Fits f args.0 × AllFit fs args.1

-- The bytes that are written, how many they are, and what reading them gives.
pub record Written {A : Type 0} (out : Option (List ℕ)) (size : ℕ) (reader : List ℕ → Reading A)
    (v : A) : Type 0 where
  pub bytes : List ℕ
  pub is_written : out ≡ some bytes
  pub length_bytes : length bytes ≡ size
  pub reads : (rest : List ℕ) → reader (bytes ++ rest) ≡ read v rest

read_int-write_int :
    (width v : ℕ) (rest : List ℕ)
    → v < 256 ^ width
    → read_int width (write_int width v ++ rest) ≡ read v rest
unfolding read_int
read_int-write_int width v rest h =
    let n = length-write_int width v in
    let enough : ltb (length (write_int width v ++ rest)) width ≡ false =
      rw (length-append (write_int width v) rest, n) (ground arith) in
    let front : take width (write_int width v ++ rest) ≡ write_int width v =
      ap (λ k. take k (write_int width v ++ rest)) (sym n) ∙ take-append (write_int width v) rest in
    let back : drop width (write_int width v ++ rest) ≡ rest =
      ap (λ k. drop k (write_int width v ++ rest)) (sym n) ∙ drop-append (write_int width v) rest in
    rw (enough, front, back, as_int-write_int width v h) refl

length-write_each : (width : ℕ) (vs : List ℕ) → length (write_each width vs) ≡ length vs * width
unfolding write_each
length-write_each width [] = omega arith
length-write_each width (v ∷ vs) =
    rw
      (
        length-append (write_int width v) (write_each width vs),
        length-write_int width v,
        length-write_each width vs,
      )
      (grind arith)

read_each-write_each :
    (width : ℕ) (vs rest : List ℕ)
    → All (λ v. v < 256 ^ width) vs
    → read_each width (length vs) (write_each width vs ++ rest) ≡ read vs rest
unfolding read_each write_each
read_each-write_each width [] rest h = refl
read_each-write_each width (v ∷ vs) rest h =
    rw
      (
        append_assoc (write_int width v) (write_each width vs) rest,
        read_int-write_int width v (write_each width vs ++ rest) h.0,
        read_each-write_each width vs rest h.1,
      )
      refl

-- A size, and the rest of what is behind it.
pub sized :
    (n : ℕ) (body : List ℕ)
    → n < 2 ^ 32
    → both (write_size n) (some body) ≡ some (write_int 4 n ++ body)
unfolding write_size
sized n body h = rw (lt→ltb n (2 ^ 32) h) refl

text-Written :
    (s : List ℕ) → Fits text s → Written (write_to text s) (size_of text s) (read_from text) s
unfolding write_to size_of read_from read_text
text-Written s h = record {
  bytes = write_int 4 (length s) ++ s;
  is_written = sized (length s) s h;
  length_bytes =
      length-append (write_int 4 (length s)) s
      ∙ ap (λ k. k + length s) (length-write_int 4 (length s));
  reads = λ rest.
      let enough : ltb (length (s ++ rest)) (length s) ≡ false =
        rw (length-append s rest) (ground arith) in
      rw
        (
          append_assoc (write_int 4 (length s)) s rest,
          read_int-write_int 4 (length s) (s ++ rest) h,
          enough,
          take-append s rest,
          drop-append s rest,
        )
        refl;
}

vector-Written :
    (width : ℕ) (vs : List ℕ)
    → Fits (vector width) vs
    → Written (write_to (vector width) vs) (size_of (vector width) vs) (read_from (vector width)) vs
unfolding write_to size_of read_from read_vector
vector-Written width vs h = record {
  bytes = write_int 4 (length vs) ++ write_each width vs;
  is_written = sized (length vs) (write_each width vs) h.0;
  length_bytes =
      rw
        (
          length-append (write_int 4 (length vs)) (write_each width vs),
          length-write_int 4 (length vs),
          length-write_each width vs,
        )
        refl;
  reads = λ rest.
      let enough : ltb (length (write_each width vs ++ rest)) (length vs * width) ≡ false =
        rw (length-append (write_each width vs) rest, length-write_each width vs) (ground arith) in
      rw
        (
          append_assoc (write_int 4 (length vs)) (write_each width vs) rest,
          read_int-write_int 4 (length vs) (write_each width vs ++ rest) h.0,
          enough,
          read_each-write_each width vs rest h.1,
        )
        refl;
}

pub field-Written :
    (f : Field) (v : Value f) → Fits f v → Written (write_to f v) (size_of f v) (read_from f) v
unfolding write_to size_of read_from read_version
field-Written (int width) v h = record {
  bytes = write_int width v;
  is_written = refl;
  length_bytes = length-write_int width v;
  reads = λ rest. read_int-write_int width v rest h;
}
field-Written text s h = text-Written s h
field-Written (vector width) vs h = vector-Written width vs h
field-Written version v h = record {
  bytes = write_int 2 v.0 ++ write_int 2 v.1;
  is_written = refl;
  length_bytes =
      rw
        (
          length-append (write_int 2 v.0) (write_int 2 v.1),
          length-write_int 2 v.0,
          length-write_int 2 v.1,
        )
        refl;
  reads = λ rest.
      rw
        (
          append_assoc (write_int 2 v.0) (write_int 2 v.1) rest,
          read_int-write_int 2 v.0 (write_int 2 v.1 ++ rest) h.0,
          read_int-write_int 2 v.1 rest h.1,
        )
        refl;
}

pub args-Written :
    (fs : List Field) (args : Args fs)
    → AllFit fs args
    → Written (write_args fs args) (sizes fs args) (read_args fs) args
unfolding write_args sizes read_args
args-Written [] args h = record {
  bytes = [];
  is_written = refl;
  length_bytes = refl;
  reads = λ rest. refl;
}
args-Written (f ∷ fs) args h =
    let first = field-Written f args.0 h.0 in
    let later = args-Written fs args.1 h.1 in
    record {
      bytes = first.bytes ++ later.bytes;
      is_written = rw (first.is_written, later.is_written) refl;
      length_bytes =
          rw (length-append first.bytes later.bytes, first.length_bytes, later.length_bytes) refl;
      reads = λ rest.
          rw
            (
              append_assoc first.bytes later.bytes rest,
              first.reads (later.bytes ++ rest),
              later.reads rest,
            )
            refl;
    }
