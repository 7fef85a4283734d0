-- ===== src/Codec/Bytes.antt =====
-- Integers in network order (MessageCodec.hpp, `Integers`). A byte is a number below 256, and an
-- integer is the number its bits make up, also for the signed types. The host is little-endian, so
-- that changing to and from network order reverses the bytes of an integer.
use mathlib.Core.List.{reverse, reverse-reverse, reverse-cons}
use synergy_hogsback.Prelude.{
  ℕ, zero, suc, ◌+◌, ◌*◌, ◌/◌, ◌%◌, ◌^◌, ◌<◌, ◌≡◌, refl, ap, ◌∙◌, sym, List, [], ◌∷◌, arith, length,
  All, All-append, length-append,
}

-- The bytes of a number in memory.
unfoldable pub to_memory : ℕ → ℕ → List ℕ
to_memory zero v = []
to_memory (suc n) v = v % 256 ∷ to_memory n (v / 256)

-- The number that bytes in memory stand for.
unfoldable pub from_memory : List ℕ → ℕ
from_memory [] = 0
from_memory (b ∷ bs) = b + 256 * from_memory bs

unfoldable pub write_int : ℕ → ℕ → List ℕ
write_int width v = reverse (to_memory width v)

unfoldable pub as_int : List ℕ → ℕ
as_int bs = from_memory (reverse bs)

abbrev pub AreBytes : List ℕ → Type 0
AreBytes = All (λ b. b < 256)

pub length-to_memory : (n v : ℕ) → length (to_memory n v) ≡ n
unfolding to_memory
length-to_memory zero v = refl
length-to_memory (suc n) v = ap suc (length-to_memory n (v / 256))

pub from_memory-to_memory : (n v : ℕ) → v < 256 ^ n → from_memory (to_memory n v) ≡ v
unfolding to_memory from_memory
from_memory-to_memory zero v h = omega arith
from_memory-to_memory (suc n) v h =
    let rest = from_memory-to_memory n (v / 256) (omega arith) in omega (arith, rest)

to_memory-from_memory : (bs : List ℕ) → AreBytes bs → to_memory (length bs) (from_memory bs) ≡ bs
unfolding to_memory from_memory
to_memory-from_memory [] h = refl
to_memory-from_memory (b ∷ bs) h =
    let k = h.0 in
    let low : (b + 256 * from_memory bs) % 256 ≡ b = omega arith in
    let high : (b + 256 * from_memory bs) / 256 ≡ from_memory bs = omega arith in
    rw (low, high) (ap (◌∷◌ b) (to_memory-from_memory bs h.1))

digit_lt : (n m b : ℕ) → m < 256 ^ n → b < 256 → b + 256 * m < 256 ^ suc n
digit_lt n m b h k = omega arith

from_memory-lt : (bs : List ℕ) → AreBytes bs → from_memory bs < 256 ^ length bs
unfolding from_memory
from_memory-lt [] h = omega arith
from_memory-lt (b ∷ bs) h = digit_lt (length bs) (from_memory bs) b (from_memory-lt bs h.1) h.0

length-reverse : (bs : List ℕ) → length (reverse bs) ≡ length bs
length-reverse [] = refl
length-reverse (b ∷ bs) =
    rw (reverse-cons b bs, length-append (reverse bs) (b ∷ []), length-reverse bs) (omega arith)

AreBytes-reverse : (bs : List ℕ) → AreBytes bs → AreBytes (reverse bs)
AreBytes-reverse [] h = tt
AreBytes-reverse (b ∷ bs) h =
    rw (reverse-cons b bs) (All-append _ (reverse bs) (b ∷ []) (AreBytes-reverse bs h.1) (h.0, tt))

pub length-write_int : (n v : ℕ) → length (write_int n v) ≡ n
unfolding write_int
length-write_int n v = length-reverse (to_memory n v) ∙ length-to_memory n v

pub as_int-write_int : (n v : ℕ) → v < 256 ^ n → as_int (write_int n v) ≡ v
unfolding as_int write_int
as_int-write_int n v h =
    ap from_memory (reverse-reverse (to_memory n v)) ∙ from_memory-to_memory n v h

pub write_int-as_int : (bs : List ℕ) → AreBytes bs → write_int (length bs) (as_int bs) ≡ bs
unfolding as_int write_int
write_int-as_int bs h =
    ap (λ n. reverse (to_memory n (from_memory (reverse bs)))) (sym (length-reverse bs))
    ∙ ap reverse (to_memory-from_memory (reverse bs) (AreBytes-reverse bs h))
    ∙ reverse-reverse bs

pub as_int-lt : (bs : List ℕ) → AreBytes bs → as_int bs < 256 ^ length bs
unfolding as_int
as_int-lt bs h = rw (← length-reverse bs) (from_memory-lt (reverse bs) (AreBytes-reverse bs h))
