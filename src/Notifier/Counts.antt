-- ===== src/Notifier/Counts.antt =====
-- `handler` of infra/terraform/lambda/notifier/handler.py: its count beside the records.
use resume_screening_service.Common.{
  ℕ, ◌+◌, ◌≡◌, String, ◌==◌, Bool, true, false, every, none, some, List, [], ◌∷◌, arith, count,
  select, option_is, string_eq, if◌then◌else◌, Option-cases, Bool-cases, inl, inr,
}
use resume_screening_service.Errors.{Exn, value_error, ok, raised}
use resume_screening_service.Notifier.{
  StreamRecord, unwrap, deserialize, notified, handle_records, handler,
}
use resume_screening_service.Worker.{field}

-- An attribute `{type: "ai-processed"}` of an image, its only item.
abbrev pub is_done : List (String × String) → Bool
is_done ((_, text) ∷ []) = text == "ai-processed"
is_done _ = false

-- the attribute with the name 'status' of an image is done
unfoldable pub has_status : List (String × List (String × String)) → Bool
has_status [] = false
has_status ((name, attribute) ∷ image) =
    if name == "status" then is_done attribute else has_status image

-- A record that the stream has for a new or a changed item which is done.
abbrev pub is_processed : StreamRecord → Bool
is_processed r = elim r.event_name [
  | none ↦ false
  | some event ↦ elim r.new_image [
    | none ↦ false
    | some image ↦
        if event == "INSERT"
        then has_status image
        else if event == "MODIFY"
        then has_status image
        else false
  ]
]

-- Every attribute of an image has one item.
unfoldable pub has_single_items : List (String × List (String × String)) → Bool
has_single_items [] = true
has_single_items ((_, _ ∷ []) ∷ image) = has_single_items image
has_single_items _ = false

-- A record is readable, if the code reads its image at all.
abbrev pub is_readable : StreamRecord → Bool
is_readable r = elim r.event_name [
  | none ↦ true
  | some event ↦ elim r.new_image [
    | none ↦ true
    | some image ↦
        if event == "INSERT"
        then has_single_items image
        else if event == "MODIFY"
        then has_single_items image
        else true
  ]
]

abbrev pub wrong_number : Exn
wrong_number = value_error "wrong number of values to unpack"

deserialize-single :
    (image : List (String × List (String × String)))
    → has_single_items image ≡ true
    → (item : List (String × String)) × (deserialize image ≡ ok item)
      × (option_is (field "status" item) "ai-processed" ≡ has_status image)
unfolding deserialize field has_status unwrap has_single_items
deserialize-single [] h = ([], ground arith, ground arith)
deserialize-single ((name, []) ∷ image) h = absurd (ground arith)
deserialize-single ((name, (a ∷ b ∷ more)) ∷ image) h = absurd (ground arith)
deserialize-single ((name, ((type, text) ∷ [])) ∷ image) h =
    let (rest, good, same) = deserialize-single image (ground arith) in
    ((name, text) ∷ rest, ground arith, ground arith)

deserialize-other :
    (image : List (String × List (String × String)))
    → has_single_items image ≡ false
    → deserialize image ≡ raised wrong_number
unfolding deserialize unwrap has_single_items
deserialize-other [] h = absurd (ground arith)
deserialize-other ((name, []) ∷ image) h = ground arith
deserialize-other ((name, (a ∷ b ∷ more)) ∷ image) h = ground arith
deserialize-other ((name, ((type, text) ∷ [])) ∷ image) h =
    ground (arith, deserialize-other image (ground arith))

notified-counts :
    (r : StreamRecord)
    → notified r
      ≡ (if is_readable r then ok (if is_processed r then 1 else 0) else raised wrong_number)
unfolding notified field has_status has_single_items
notified-counts r = elim (Option-cases r.event_name) [
  | inl e ↦ ground arith
  | inr (event, e) ↦ elim (Option-cases r.new_image) [
    | inl e2 ↦ ground arith
    | inr ([], e2) ↦ ground arith
    | inr (a ∷ image, e2) ↦ elim (Bool-cases (has_single_items (a ∷ image))) [
      | inr other ↦ let bad = deserialize-other (a ∷ image) other in ground arith
      | inl single ↦ let (item, good, same) = deserialize-single (a ∷ image) single in ground arith
    ]
  ]
]

handle_records-counts :
    (processed : ℕ) (rs : List StreamRecord)
    → handle_records processed rs ≡ (
        if every is_readable rs
        then ok (processed + count is_processed rs)
        else raised wrong_number)
unfolding handle_records select every
handle_records-counts processed [] = ground arith
handle_records-counts processed (r ∷ rs) =
    let one = notified-counts r in
    elim (Bool-cases (is_readable r)) [
      | inr bad ↦ ground arith
      | inl good ↦ elim (Bool-cases (is_processed r)) [
        | inl counted ↦ ground (arith, handle_records-counts (processed + 1) rs)
        | inr skipped ↦ ground (arith, handle_records-counts (processed + 0) rs)
      ]
    ]

-- A run of the notifier counts the records with the event INSERT or MODIFY whose new image has an
-- attribute 'status' with the only item 'ai-processed', each once; if the image of a record with
-- one of these events has an attribute with no item or with several, the run raises a ValueError.
pub handler-counts :
    (records : List StreamRecord)
    → handler records
      ≡ (if every is_readable records then ok (count is_processed records) else raised wrong_number)
unfolding handler
handler-counts records = ground (arith, handle_records-counts 0 records)
