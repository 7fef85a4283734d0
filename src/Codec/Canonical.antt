-- ===== src/Codec/Canonical.antt =====
-- MessageCodec.hpp, writing what was read: the bytes that a reader takes off the front of a buffer.
use synergy_hogsback.Prelude.{
  ℕ, zero, suc, ◌*◌, ◌^◌, ◌<◌, ◌≡◌, refl, ap, ◌∙◌, sym, ltb, List, [], ◌∷◌, ◌++◌, some, arith,
  length, take, drop, append_assoc, All, All-right, Bool-cases, inl, inr,
}
use synergy_hogsback.Codec.Bytes.{AreBytes, write_int}
use synergy_hogsback.Codec.Fields.{
  read, Field, int, text, vector, version, Value, read_int, read_text, read_each, read_vector,
  read_version, read_from, write_each, write_to, Args, read_args, write_args,
}
use synergy_hogsback.Codec.Steps.{
  read-value, read-rest, thrown_is_not_read, steps, take-drop, length-take, read_int-IntTaken,
}
use synergy_hogsback.Codec.RoundTrip.{sized, Fits, AllFit}

-- The bytes that a reader took off the front of the buffer are those that the writer writes.
pub record Taken (out : List ℕ → Type 0) (buf rest : List ℕ) : Type 0 where
  pub used : List ℕ
  pub is_front : buf ≡ used ++ rest
  pub is_written : out used

-- What reading a field establishes.
record FieldTaken (f : Field) (v : Value f) (buf rest : List ℕ) : Type 0 where
  used : List ℕ
  is_front : buf ≡ used ++ rest
  is_written : write_to f v ≡ some used
  fits : Fits f v
  rest_bytes : AreBytes rest

text-Taken :
    (buf : List ℕ) {s : List ℕ} {rest : List ℕ}
    → AreBytes buf
    → read_text buf ≡ read s rest
    → FieldTaken text s buf rest
unfolding read_text write_to
text-Taken buf bytes h =
    let st = steps (read_int 4 buf) _ h in
    let i = read_int-IntTaken 4 buf bytes st.first in
    let size = st.value in
    let left = st.left in
    elim (Bool-cases (ltb (length left) size)) [
      | inl short ↦ absurd (thrown_is_not_read (rw short at st.later))
      | inr enough ↦
          let out : read (take size left) (drop size left) ≡ read _ _ = rw enough at st.later in
          let n = length-take size left (ground arith) in
          rw (← read-value out, ← read-rest out)
            (record {
              used = write_int 4 size ++ take size left;
              is_front =
                  i.is_front
                  ∙ ap (◌++◌ (write_int 4 size)) (take-drop size left)
                  ∙ sym (append_assoc (write_int 4 size) (take size left) (drop size left));
              is_written = rw n (sized size (take size left) i.is_small);
              fits = rw n i.is_small;
              rest_bytes =
                  All-right _ (take size left) (drop size left)
                    (rw (← take-drop size left) i.rest_bytes);
            })
    ]

record EachTaken (width n : ℕ) (vs buf rest : List ℕ) : Type 0 where
  is_front : buf ≡ write_each width vs ++ rest
  count : length vs ≡ n
  small : All (λ v. v < 256 ^ width) vs
  rest_bytes : AreBytes rest

each-Taken :
    (width n : ℕ) (buf : List ℕ) {vs rest : List ℕ}
    → AreBytes buf
    → read_each width n buf ≡ read vs rest
    → EachTaken width n vs buf rest
unfolding read_each write_each
each-Taken width zero buf bytes h =
    rw (← read-value h, ← read-rest h)
      (record { is_front = refl; count = refl; small = tt; rest_bytes = bytes })
each-Taken width (suc n) buf bytes h =
    let st = steps (read_int width buf) _ h in
    let i = read_int-IntTaken width buf bytes st.first in
    let st' = steps (read_each width n st.left) _ st.later in
    let later = each-Taken width n st.left i.rest_bytes st'.first in
    rw (← read-value st'.later, ← read-rest st'.later)
      (record {
        is_front =
            i.is_front
            ∙ ap (◌++◌ (write_int width st.value)) later.is_front
            ∙ sym (append_assoc (write_int width st.value) (write_each width st'.value) st'.left);
        count = ap suc later.count;
        small = (i.is_small, later.small);
        rest_bytes = later.rest_bytes;
      })

vector-Taken :
    (width : ℕ) (buf : List ℕ) {vs rest : List ℕ}
    → AreBytes buf
    → read_vector width buf ≡ read vs rest
    → FieldTaken (vector width) vs buf rest
unfolding read_vector write_to
vector-Taken width buf {vs} {rest} bytes h =
    let st = steps (read_int 4 buf) _ h in
    let i = read_int-IntTaken 4 buf bytes st.first in
    elim (Bool-cases (ltb (length st.left) (st.value * width))) [
      | inl short ↦ absurd (thrown_is_not_read (rw short at st.later))
      | inr enough ↦
          let each = each-Taken width st.value st.left i.rest_bytes (rw enough at st.later) in
          record {
            used = write_int 4 st.value ++ write_each width vs;
            is_front =
                i.is_front
                ∙ ap (◌++◌ (write_int 4 st.value)) each.is_front
                ∙ sym (append_assoc (write_int 4 st.value) (write_each width vs) rest);
            is_written = rw each.count (sized st.value (write_each width vs) i.is_small);
            fits = (rw each.count i.is_small, each.small);
            rest_bytes = each.rest_bytes;
          }
    ]

version-Taken :
    (buf : List ℕ) {v : ℕ × ℕ} {rest : List ℕ}
    → AreBytes buf
    → read_version buf ≡ read v rest
    → FieldTaken version v buf rest
unfolding read_version write_to
version-Taken buf bytes h =
    let st = steps (read_int 2 buf) _ h in
    let i = read_int-IntTaken 2 buf bytes st.first in
    let st' = steps (read_int 2 st.left) _ st.later in
    let i' = read_int-IntTaken 2 st.left i.rest_bytes st'.first in
    rw (← read-value st'.later, ← read-rest st'.later)
      (record {
        used = write_int 2 st.value ++ write_int 2 st'.value;
        is_front =
            i.is_front
            ∙ ap (◌++◌ (write_int 2 st.value)) i'.is_front
            ∙ sym (append_assoc (write_int 2 st.value) (write_int 2 st'.value) st'.left);
        is_written = refl;
        fits = (i.is_small, i'.is_small);
        rest_bytes = i'.rest_bytes;
      })

field-Taken :
    (f : Field) (buf : List ℕ) {v : Value f} {rest : List ℕ}
    → AreBytes buf
    → read_from f buf ≡ read v rest
    → FieldTaken f v buf rest
unfolding read_from write_to
field-Taken (int width) buf {v} bytes h =
    let i = read_int-IntTaken width buf bytes h in
    record {
      used = write_int width v;
      is_front = i.is_front;
      is_written = refl;
      fits = i.is_small;
      rest_bytes = i.rest_bytes;
    }
field-Taken text buf bytes h = text-Taken buf bytes h
field-Taken (vector width) buf bytes h = vector-Taken width buf bytes h
field-Taken version buf bytes h = version-Taken buf bytes h

pub args-Taken :
    (fs : List Field) (buf : List ℕ) {args : Args fs} {rest : List ℕ}
    → AreBytes buf
    → read_args fs buf ≡ read args rest
    → Taken (λ used. (write_args fs args ≡ some used) × AllFit fs args) buf rest
unfolding read_args write_args
args-Taken [] buf bytes h =
    rw (← read-rest h) (record { used = []; is_front = refl; is_written = (refl, tt) })
args-Taken (f ∷ fs) buf bytes h =
    let st = steps (read_from f buf) _ h in
    let first = field-Taken f buf bytes st.first in
    let st' = steps (read_args fs st.left) _ st.later in
    let later = args-Taken fs st.left first.rest_bytes st'.first in
    rw (← read-value st'.later, ← read-rest st'.later)
      (record {
        used = first.used ++ later.used;
        is_front =
            first.is_front
            ∙ ap (◌++◌ first.used) later.is_front
            ∙ sym (append_assoc first.used later.used st'.left);
        is_written =
            (rw (first.is_written, later.is_written.0) refl, (first.fits, later.is_written.1));
      })
