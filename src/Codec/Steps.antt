-- ===== src/Codec/Steps.antt =====
-- Taking a reader that succeeded apart (MessageCodec.hpp): its steps, and the bytes of an integer.
use synergy_hogsback.Prelude.{
  ℕ, zero, suc, ◌^◌, ◌≤◌, ◌<◌, ◌≡◌, refl, ap, ◌∙◌, sym, ltb, List, [], ◌∷◌, ◌++◌, arith, length,
  take, drop, All-left, All-right, Bool-cases, inl, inr,
}
use synergy_hogsback.Codec.Bytes.{AreBytes, write_int, as_int, write_int-as_int, as_int-lt}
use synergy_hogsback.Codec.Fields.{Error, Reading, thrown, read, ◌>>=◌, read_int}

module _ {A : Type 0} where
  -- What was read was read.
  pub read-value : {a b : A} {xs ys : List ℕ} → read a xs ≡ read b ys → a ≡ b
  read-value {a} h = ap (value_or a) h
    where
      value_or : A → Reading A → A
      value_or c (thrown e) = c
      value_or c (read x rest) = x

  pub read-rest : {a b : A} {xs ys : List ℕ} → read a xs ≡ read b ys → xs ≡ ys
  read-rest h = ap rest_of h
    where
      rest_of : Reading A → List ℕ
      rest_of (thrown e) = []
      rest_of (read x rest) = rest

  pub thrown_is_not_read : {e : Error} {a : A} {xs : List ℕ} → thrown e ≡ read a xs → ⊥
  thrown_is_not_read h = cc

-- A reader in two steps that succeeds made both.
pub record Steps {A B : Type 0} (r : Reading A) (f : A → List ℕ → Reading B) (b : B) (rest : List ℕ)
    : Type 0 where
  pub value : A
  pub left : List ℕ
  pub first : r ≡ read value left
  pub later : f value left ≡ read b rest

pub steps :
    {A B : Type 0} (r : Reading A) (f : A → List ℕ → Reading B) {b : B} {rest : List ℕ}
    → (r >>= f) ≡ read b rest
    → Steps r f b rest
steps (thrown e) f h = absurd (thrown_is_not_read h)
steps (read a xs) f h = record { value = a; left = xs; first = refl; later = h }

pub take-drop : (n : ℕ) (xs : List ℕ) → xs ≡ take n xs ++ drop n xs
take-drop zero xs = refl
take-drop (suc n) [] = refl
take-drop (suc n) (x ∷ xs) = ap (◌∷◌ x) (take-drop n xs)

pub length-take : (n : ℕ) (xs : List ℕ) → n ≤ length xs → length (take n xs) ≡ n
length-take zero xs h = refl
length-take (suc n) [] h = absurd (omega arith)
length-take (suc n) (x ∷ xs) h = ap suc (length-take n xs (omega arith))

AreBytes-take : (n : ℕ) (xs : List ℕ) → AreBytes xs → AreBytes (take n xs)
AreBytes-take n xs h = All-left _ (take n xs) (drop n xs) (rw (← take-drop n xs) h)

-- An integer that was read: its bytes, and how large it can be.
pub record IntTaken (width v : ℕ) (buf rest : List ℕ) : Type 0 where
  pub is_front : buf ≡ write_int width v ++ rest
  pub is_small : v < 256 ^ width
  pub rest_bytes : AreBytes rest

pub read_int-IntTaken :
    (width : ℕ) (buf : List ℕ) {v : ℕ} {rest : List ℕ}
    → AreBytes buf
    → read_int width buf ≡ read v rest
    → IntTaken width v buf rest
unfolding read_int
read_int-IntTaken width buf bytes h = elim (Bool-cases (ltb (length buf) width)) [
  | inl short ↦ absurd (thrown_is_not_read (rw short at h))
  | inr enough ↦
      let out : read (as_int (take width buf)) (drop width buf) ≡ read _ _ = rw enough at h in
      let n = length-take width buf (ground arith) in
      let front = AreBytes-take width buf bytes in
      let whole : write_int width (as_int (take width buf)) ≡ take width buf =
        ap (λ k. write_int k (as_int (take width buf))) (sym n)
        ∙ write_int-as_int (take width buf) front in
      let small : as_int (take width buf) < 256 ^ width =
        rw n at (as_int-lt (take width buf) front) in
      rw (← read-value out, ← read-rest out)
        (record {
          is_front = rw whole (take-drop width buf);
          is_small = small;
          rest_bytes =
              All-right _ (take width buf) (drop width buf) (rw (← take-drop width buf) bytes);
        })
]
