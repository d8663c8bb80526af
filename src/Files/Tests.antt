-- ===== src/Files/Tests.antt =====
-- A transfer of three bytes in two chunks, and names that are sanitized.
use remote_controll_app.Prelude.{
  ℕ, ◌≡◌, ◌≢◌, refl, Bool, not, Option, none, some, List, [], ◌∷◌, ◌++◌, nat_beq, put, Bool-cases,
  inl, inr,
}
use remote_controll_app.JsMap
use remote_controll_app.Text.{
  Str, str_beq, lit, trim, trim_start, trim_end, is_space, is_word, is_letter, is_digit, split,
  split_head, split_tail,
}
use remote_controll_app.Value.{
  Value, string, number, bytes, object, end, field, as_record, lookup_field,
}
use remote_controll_app.Value.Numeric.{of_ℕ, is_integer, at_least, at_most, whole_within}
use remote_controll_app.Input.{
  sanitize_string, is_transfer_id, sanitize_transfer_id, read_size, read_chunk, read_index,
  sanitize_start_incoming_transfer_payload, sanitize_append_incoming_transfer_payload,
  TransferChunk,
}
use remote_controll_app.Files.{
  Main, Waiting, writing, init, Outcome, came, threw, append_file, ok_path, allocated, written,
  start_incoming_transfer, start_of, append_incoming_transfer, append_of, append_chunk,
  begin_transfer, after_append, go_on, resume, complete_incoming_transfer, complete_of,
  finish_transfer, abort_incoming_transfer, abort_of,
}
use remote_controll_app.Files.Transfers.{Fact, started, accepted}
use remote_controll_app.Files.Transfers.Runs.{
  Reached, IsOrderly, at_start, starts, appends, goes_on, IsWhole, completed-IsWhole,
}
use remote_controll_app.Files.Names.{
  slashes, is_forbidden, replace_forbidden, collapse_spaces, strip_end, has_dots, is_port,
  is_reserved_stem, is_reserved_windows_file_name, clean, accept_name, sanitize_file_name, decimal,
  candidate, try_paths, create_unique_file_path, allocate,
}
use remote_controll_app.Files.Names.Laws.{
  IsSafeName, sanitize_file_name-IsSafeName, IsFirst, create_unique_file_path-IsFirst,
}

files : Unit {0}
unfolding JsMap.get JsMap.set JsMap.has JsMap.delete str_beq trim trim_start trim_end is_space
    is_word is_letter is_digit split split_head split_tail as_record lookup_field is_integer
    at_least at_most whole_within sanitize_string is_transfer_id sanitize_transfer_id read_size
    read_chunk read_index sanitize_start_incoming_transfer_payload
    sanitize_append_incoming_transfer_payload start_incoming_transfer start_of
    append_incoming_transfer append_of append_chunk begin_transfer after_append go_on resume
    complete_incoming_transfer complete_of finish_transfer abort_incoming_transfer abort_of slashes
    is_forbidden replace_forbidden collapse_spaces strip_end has_dots is_port is_reserved_stem
    is_reserved_windows_file_name clean accept_name sanitize_file_name decimal candidate try_paths
    create_unique_file_path
files = tt

abbrev same : Str → Str
same s = s

-- Every name of this file ends in `.txt`; only the first path is taken.
abbrev extension : Str → Str
extension s = lit ".txt"

abbrev in_folder : Str → Str → Str
in_folder directory name = directory ++ lit "/" ++ name

abbrev free : Str → Bool
free path = not (str_beq path (lit "in/a.txt"))

abbrev starting : Value
starting = object (
    field (lit "transferId") (string (lit "t"))
      (field (lit "name") (string (lit "a.txt")) (field (lit "size") (number (of_ℕ 3)) end)))

abbrev chunk : ℕ → List ℕ → Value
chunk i bs = object (
    field (lit "transferId") (string (lit "t"))
      (field (lit "index") (number (of_ℕ i)) (field (lit "bytes") (bytes bs) end)))

abbrev asked : Main
asked = (start_incoming_transfer starting init).0

abbrev path : Outcome Str
path = allocate same same same extension in_folder free (came (lit "in")) (lit "a.txt")

-- Two bytes, whose write comes back, and a third, for which the disk fails once.
abbrev begun : Main
begun = (resume (allocated path) 0 asked).0

abbrev first_asked : Main
first_asked = (append_incoming_transfer (chunk 0 (7 ∷ 8 ∷ [])) begun).0

abbrev first_written : Main
first_written = (resume (written (came tt)) 1 first_asked).0

abbrev last_asked : Main
last_asked = (append_incoming_transfer (chunk 1 (9 ∷ [])) first_written).0

abbrev last_failed : Main
last_failed = (resume (written (threw (lit "full"))) 2 last_asked).0

abbrev again_asked : Main
again_asked = (append_incoming_transfer (chunk 1 (9 ∷ [])) last_failed).0

abbrev all_written : Main
all_written = (resume (written (came tt)) 3 again_asked).0

abbrev facts_0 : List Fact
facts_0 = started (lit "t") 0 3 (lit "in/a (1).txt") ∷ []

abbrev facts_1 : List Fact
facts_1 = accepted 0 0 (7 ∷ 8 ∷ []) ∷ facts_0

abbrev facts : List Fact
facts = accepted 0 1 (9 ∷ []) ∷ facts_1

-- Nothing is being written once what was asked for came back.
abbrev IsIdle : (ℕ → Option Waiting) → Type 0
IsIdle f = (a n : ℕ) (c : TransferChunk) → f n ≢ some (writing a c)

back-IsIdle :
    (f : ℕ → Option Waiting) (k : ℕ) (w : Option Waiting)
    → IsIdle f
    → IsIdle (put k none (put k w f))
back-IsIdle f k w idle a n c h = elim (Bool-cases (nat_beq k n)) [
  | inl y ↦ cc (rw y at h)
  | inr other ↦ idle a n c (rw other at h)
]

begun-IsIdle : IsIdle begun.waiting
unfolding files
begun-IsIdle = back-IsIdle init.waiting 0 _ (λ a n c h. cc h)

written-IsIdle : IsIdle first_written.waiting
unfolding files
written-IsIdle = back-IsIdle begun.waiting 1 _ begun-IsIdle

failed-IsIdle : IsIdle last_failed.waiting
unfolding files
failed-IsIdle = back-IsIdle first_written.waiting 2 _ written-IsIdle

abbrev reached : Reached all_written facts
unfolding files
reached = goes_on again_asked facts_1 (written (came tt)) 3 (
    appends last_failed facts_1 (chunk 1 (9 ∷ [])) (
      goes_on last_asked facts_1 (written (threw (lit "full"))) 2 (
        appends first_written facts_1 (chunk 1 (9 ∷ [])) (
          goes_on first_asked facts_0 (written (came tt)) 1 (
            appends begun facts_0 (chunk 0 (7 ∷ 8 ∷ []))
              (goes_on asked [] (allocated path) 0 (starts init [] starting at_start)))))))

orderly : IsOrderly all_written facts reached
unfolding files
orderly = ((λ a e. failed-IsIdle a), ((λ a e. written-IsIdle a), ((λ a e. begun-IsIdle a), tt)))

valid_id : sanitize_transfer_id (string (lit "t")) ≡ some (lit "t")
unfolding files
valid_id = refl

completed :
    (complete_incoming_transfer (came tt) (string (lit "t")) all_written).1
    ≡ ok_path (lit "in/a (1).txt")
unfolding files
completed = refl

completed-IsWhole_example : IsWhole facts (lit "t") (lit "in/a (1).txt")
completed-IsWhole_example =
    completed-IsWhole all_written facts (came tt) (string (lit "t")) (lit "t") (lit "in/a (1).txt")
      reached orderly valid_id completed

-- A chunk that comes again while it is being written is written again.
twice_test :
    (append_incoming_transfer (chunk 0 (7 ∷ [])) first_asked).2
    ≡ append_file (lit "in/a (1).txt.part") (7 ∷ []) ∷ []
unfolding files
twice_test = refl

names_test :
    (sanitize_file_name same same same (lit "a<b>  c.txt. ") ≡ lit "a_b_ c.txt")
    × (sanitize_file_name same same same (lit "../x") ≡ lit "remote-control-file.bin")
    × (sanitize_file_name same same same (lit "com1.txt") ≡ lit "remote-control-file.bin")
unfolding files
names_test = (refl, refl, refl)

sanitize_file_name-IsSafeName_example :
    IsSafeName (sanitize_file_name same same same (lit "a<b>  c.txt. "))
sanitize_file_name-IsSafeName_example =
    sanitize_file_name-IsSafeName same same same (lit "a<b>  c.txt. ")

unique_test :
    create_unique_file_path extension in_folder free (lit "in") (lit "a.txt")
    ≡ some (lit "in/a (1).txt")
unfolding files
unique_test = refl

create_unique_file_path-IsFirst_example :
    IsFirst
      (candidate extension in_folder (lit "in") (lit "a.txt"))
      free
      0
      1000
      (create_unique_file_path extension in_folder free (lit "in") (lit "a.txt"))
create_unique_file_path-IsFirst_example =
    create_unique_file_path-IsFirst extension in_folder free (lit "in") (lit "a.txt")
