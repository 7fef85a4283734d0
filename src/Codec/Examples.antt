-- ===== src/Codec/Examples.antt =====
-- MessageTypes.cpp on concrete messages.
use synergy_hogsback.Prelude.{ℕ, ◌≡◌, refl, List, [], ◌∷◌, ◌++◌, some, arith, length}
use synergy_hogsback.Codec.Bytes.{write_int, to_memory, as_int, from_memory}
use synergy_hogsback.Codec.Fields.{
  Error, thrown, read, read_args, read_from, read_int, read_text, read_version, write_args,
  write_to, write_size, Args,
}
use synergy_hogsback.Codec.Types.{
  hello_back, fields, tag_bytes, type_tag, codes, same, size, write_message, read_message,
}
use synergy_hogsback.Codec.Canonical.{Taken}
use synergy_hogsback.Codec.Messages.{
  read_message-write_message, write_message-read_message, read_message-cut,
}

-- Version 1.6 and the screen name "ab".
abbrev answer : Args (fields hello_back)
unfolding fields
answer = ((1, 6), (97 ∷ 98 ∷ [], tt))

abbrev answer_bytes : List ℕ
answer_bytes = 0 ∷ 1 ∷ 0 ∷ 6 ∷ 0 ∷ 0 ∷ 0 ∷ 2 ∷ 97 ∷ 98 ∷ []

write_test : write_message hello_back answer ≡ some (tag_bytes hello_back ++ answer_bytes)
unfolding write_message write_args write_to write_size write_int to_memory fields type_tag codes
write_test = refl

read_message-write_message_example :
    (body : List ℕ) × (write_message hello_back answer ≡ some (tag_bytes hello_back ++ body))
    × (length (tag_bytes hello_back ++ body) ≡ size hello_back answer)
    × (read_message hello_back (tag_bytes hello_back) (body ++ (1 ∷ 2 ∷ []))
        ≡ read answer (1 ∷ 2 ∷ []))
unfolding fields
read_message-write_message_example =
    read_message-write_message hello_back answer (1 ∷ 2 ∷ [])
      ((omega arith, omega arith), (omega arith, tt))

abbrev answer_read :
    read_message hello_back (tag_bytes hello_back) (answer_bytes ++ (7 ∷ [])) ≡ read answer (7 ∷ [])
unfolding read_message read_args read_from read_version read_text read_int as_int from_memory fields
    type_tag codes same
answer_read = refl

write_message-read_message_example :
    Taken
      (λ used. write_message hello_back answer ≡ some (tag_bytes hello_back ++ used))
      (answer_bytes ++ (7 ∷ []))
      (7 ∷ [])
write_message-read_message_example =
    write_message-read_message hello_back (tag_bytes hello_back) (answer_bytes ++ (7 ∷ []))
      (ground arith) answer_read

answer_written :
    write_args (fields hello_back) answer
    ≡ some ((0 ∷ 1 ∷ 0 ∷ 6 ∷ 0 ∷ 0 ∷ 0 ∷ 2 ∷ 97 ∷ []) ++ (98 ∷ []))
unfolding write_args write_to write_size write_int to_memory fields
answer_written = refl

read_message-cut_example :
    (e : Error) × (read_message hello_back
        (tag_bytes hello_back)
        (0 ∷ 1 ∷ 0 ∷ 6 ∷ 0 ∷ 0 ∷ 0 ∷ 2 ∷ 97 ∷ [])
      ≡ thrown e)
unfolding fields
read_message-cut_example =
    read_message-cut hello_back answer (0 ∷ 1 ∷ 0 ∷ 6 ∷ 0 ∷ 0 ∷ 0 ∷ 2 ∷ 97 ∷ []) 98 []
      ((omega arith, omega arith), (omega arith, tt)) (ground arith) answer_written
