-- ===== src/Input/Tests.antt =====
-- A pointer that is off the screen, a key, and the payloads of a transfer.
use remote_controll_app.Prelude.{◌≡◌, refl, none, some, [], ◌∷◌}
use remote_controll_app.Text.{
  str_beq, lit, trim, trim_start, trim_end, is_space, is_word, is_letter, is_digit,
}
use remote_controll_app.Value.{
  Value, string, number, bytes, object, end, field, as_record, lookup_field,
}
use remote_controll_app.Value.Numeric.{
  nonneg, negative, of_ℕ, is_finite, is_integer, at_least, at_most, whole_within,
}
use remote_controll_app.Input.{
  sanitize_string, is_transfer_id, sanitize_transfer_id, TransferStart, TransferChunk, read_size,
  read_chunk, read_index, sanitize_start_incoming_transfer_payload,
  sanitize_append_incoming_transfer_payload,
}
use remote_controll_app.Input.Control.{
  move, Point, read_finite, read_positive, clamp_round, clamp_both, sanitize_pointer_coordinates,
  sanitize_move, pointer_of, sanitize_pointer_message, message_of, sanitize_control_message,
}
use remote_controll_app.Input.Bounds.{IsControl, sanitize_control_message-IsControl}

validation : Unit {0}
unfolding str_beq trim trim_start trim_end is_space is_word is_letter is_digit as_record
    lookup_field is_finite is_integer at_least at_most whole_within sanitize_string is_transfer_id
    sanitize_transfer_id read_size read_chunk read_index sanitize_start_incoming_transfer_payload
    sanitize_append_incoming_transfer_payload read_finite read_positive clamp_round clamp_both
    sanitize_pointer_coordinates sanitize_move pointer_of sanitize_pointer_message message_of
    sanitize_control_message
validation = tt

-- x is 41/2, y lies above the screen, and the width is too large.
abbrev moved : Value
moved = object (
    field (lit "kind") (string (lit "pointer")) (
      field (lit "event")
        (object (
          field (lit "type") (string (lit "move")) (
            field (lit "x") (number (nonneg 41 1)) (
              field (lit "y") (number (negative 4 0)) (
                field (lit "screenWidth") (number (of_ℕ 200000))
                  (field (lit "screenHeight") (number (of_ℕ 1080)) end))))))
        end))

abbrev point : Point
point = record { source_id = none; x = 21; y = 0; screen_width = 100000; screen_height = 1080 }

moved_test : sanitize_control_message moved ≡ some (move point)
unfolding validation
moved_test = refl

sanitize_control_message-IsControl_example : IsControl (move point)
sanitize_control_message-IsControl_example =
    sanitize_control_message-IsControl moved (move point) moved_test

abbrev starting : Value
starting = object (
    field (lit "transferId") (string (lit "t-1 "))
      (field (lit "name") (string (lit "a.txt")) (field (lit "size") (number (of_ℕ 3)) end)))

abbrev start : TransferStart
start = record { transfer_id = lit "t-1"; name = lit "a.txt"; size = 3 }

starting_test : sanitize_start_incoming_transfer_payload starting ≡ some start
unfolding validation
starting_test = refl

abbrev appending : Value
appending = object (
    field (lit "transferId") (string (lit "t-1"))
      (field (lit "index") (number (of_ℕ 0)) (field (lit "bytes") (bytes (7 ∷ 8 ∷ [])) end)))

abbrev chunk : TransferChunk
chunk = record { transfer_id = lit "t-1"; index = 0; content = 7 ∷ 8 ∷ [] }

appending_test : sanitize_append_incoming_transfer_payload appending ≡ some chunk
unfolding validation
appending_test = refl
