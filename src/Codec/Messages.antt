-- ===== src/Codec/Messages.antt =====
-- MessageTypes.cpp, `write_to` and `read_from` of a whole message.
use synergy_hogsback.Prelude.{
  ℕ, ◌+◌, ◌≡◌, refl, ap, ◌∙◌, sym, true, false, not, ◌||◌, ◌==◌, List, [], ◌∷◌, ◌++◌, Option, none,
  some, arith, length, length-append, append-nil, append_assoc, Bool-cases, inl, inr,
}
use synergy_hogsback.Codec.Bytes.{AreBytes}
use synergy_hogsback.Codec.Fields.{Error, Reading, thrown, read, Args, sizes, read_args, write_args}
use synergy_hogsback.Codec.Types.{Name, fields, tag_bytes, same, size, write_message, read_message}
use synergy_hogsback.Codec.RoundTrip.{AllFit, Written, args-Written}
use synergy_hogsback.Codec.Steps.{read-rest, thrown_is_not_read}
use synergy_hogsback.Codec.Canonical.{Taken, args-Taken}

same_refl : (xs : List ℕ) → same xs xs ≡ true
unfolding same
same_refl [] = refl
same_refl (x ∷ xs) = ground (arith, same_refl xs)

same_eq : (xs ys : List ℕ) → same xs ys ≡ true → xs ≡ ys
unfolding same
same_eq [] [] h = refl
same_eq [] (y ∷ ys) h = ground arith
same_eq (x ∷ xs) [] h = ground arith
same_eq (x ∷ xs) (y ∷ ys) h = ground (arith, same_eq xs ys)

-- Behind the right tag a message is its arguments.
read_tagged :
    (n : Name) (buf : List ℕ) → read_message n (tag_bytes n) buf ≡ read_args (fields n) buf
unfolding read_message
read_tagged n buf =
    let right : (not (length (tag_bytes n) == length (tag_bytes n))
          || not (same (tag_bytes n) (tag_bytes n)))
        ≡ false =
      ground (arith, same_refl (tag_bytes n)) in
    rw right refl

-- A message whose arguments fit their fields is written in exactly `size` bytes, its tag first;
-- reading these bytes again, whatever follows them, gives the arguments and leaves what follows.
pub read_message-write_message :
    (n : Name) (args : Args (fields n)) (rest : List ℕ)
    → AllFit (fields n) args
    → (body : List ℕ) × (write_message n args ≡ some (tag_bytes n ++ body))
      × (length (tag_bytes n ++ body) ≡ size n args)
      × (read_message n (tag_bytes n) (body ++ rest) ≡ read args rest)
unfolding write_message size
read_message-write_message n args rest h =
    let out = args-Written (fields n) args h in
    (
      out.bytes,
      rw out.is_written refl,
      length-append (tag_bytes n) out.bytes ∙ ap (◌+◌ (length (tag_bytes n))) out.length_bytes,
      read_tagged n (out.bytes ++ rest) ∙ out.reads rest,
    )

read_message-header :
    (n : Name) (header buf : List ℕ) {args : Args (fields n)} {rest : List ℕ}
    → read_message n header buf ≡ read args rest
    → (header ≡ tag_bytes n) × (read_args (fields n) buf ≡ read args rest)
unfolding read_message
read_message-header n header buf h =
    elim (Bool-cases
      (not (length header == length (tag_bytes n)) || not (same header (tag_bytes n)))) [
        | inl wrong ↦ absurd (thrown_is_not_read (rw wrong at h))
        | inr right ↦ (same_eq header (tag_bytes n) (ground arith), rw right at h)
      ]

-- If a header and a buffer of bytes are read as a message, the buffer starts with bytes that
-- `write_to` gives, behind that header, for the arguments that were read, and what is left is all
-- the rest of the buffer.
pub write_message-read_message :
    (n : Name) (header buf : List ℕ) {args : Args (fields n)} {rest : List ℕ}
    → AreBytes buf
    → read_message n header buf ≡ read args rest
    → Taken (λ used. write_message n args ≡ some (header ++ used)) buf rest
unfolding write_message
write_message-read_message n header buf bytes h =
    let tagged = read_message-header n header buf h in
    let out = args-Taken (fields n) buf bytes tagged.1 in
    record {
      used = out.used;
      is_front = out.is_front;
      is_written = rw (tagged.0, out.is_written.0) refl;
    }

cons_behind : (xs : List ℕ) (y : ℕ) (ys : List ℕ) → [] ≡ xs ++ (y ∷ ys) → ⊥
cons_behind [] y ys h = cc
cons_behind (x ∷ xs) y ys h = cc

-- A message that is cut short is refused: if writing the arguments, which fit their fields, gives
-- the bytes `front` with at least one more behind them, then reading `front` as the message throws.
pub read_message-cut :
    (n : Name) (args : Args (fields n)) (front : List ℕ) (next : ℕ) (more : List ℕ)
    → AllFit (fields n) args
    → AreBytes front
    → write_args (fields n) args ≡ some (front ++ (next ∷ more))
    → (e : Error) × (read_message n (tag_bytes n) front ≡ thrown e)
read_message-cut n args front next more fits bytes h = cut (read_message n (tag_bytes n) front) refl
  where
    same_bytes :
        (out : Written
          (write_args (fields n) args)
          (sizes (fields n) args)
          (read_args (fields n))
          args)
        → out.bytes ≡ front ++ (next ∷ more)
    same_bytes out = ap bytes_of (sym out.is_written ∙ h)
      where
        bytes_of : Option (List ℕ) → List ℕ
        bytes_of none = []
        bytes_of (some xs) = xs

    whole : read_args (fields n) (front ++ (next ∷ more)) ≡ read args []
    whole =
        let out = args-Written (fields n) args fits in
        ap (read_args (fields n))
          (sym (append-nil (front ++ (next ∷ more))) ∙ ap (λ b. b ++ []) (sym (same_bytes out)))
        ∙ out.reads []

    cut :
        (r : Reading (Args (fields n)))
        → read_message n (tag_bytes n) front ≡ r
        → (e : Error) × (read_message n (tag_bytes n) front ≡ thrown e)
    cut (thrown e) k = (e, k)
    cut (read args' rest) k =
        let part =
          args-Taken (fields n) front bytes (read_message-header n (tag_bytes n) front k).1 in
        let again = args-Written (fields n) args' part.is_written.1 in
        let used : again.bytes ≡ part.used = some_eq (sym again.is_written ∙ part.is_written.0) in
        let longer : read_args (fields n) (front ++ (next ∷ more))
            ≡ read args' (rest ++ (next ∷ more)) =
          ap (λ b. read_args (fields n) (b ++ (next ∷ more))) part.is_front
          ∙ ap (read_args (fields n)) (append_assoc part.used rest (next ∷ more))
          ∙ ap (λ b. read_args (fields n) (b ++ (rest ++ (next ∷ more)))) (sym used)
          ∙ again.reads (rest ++ (next ∷ more)) in
        absurd (cons_behind rest next more (read-rest (sym whole ∙ longer)))
      where
        some_eq : {xs ys : List ℕ} → some xs ≡ some ys → xs ≡ ys
        some_eq h = cc
