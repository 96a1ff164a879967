-- ===== src/Notifier.antt =====
-- The stream consumer: infra/terraform/lambda/notifier/handler.py.
pub mod Counts
use resume_screening_service.Common.{
  ℕ, ◌+◌, String, Bool, Option, none, some, List, [], ◌∷◌, not, ◌||◌, option_is, string_eq,
  if◌then◌else◌,
}
use resume_screening_service.Errors.{value_error, Result, ok, raised}
use resume_screening_service.Worker.{field}

-- An image: for each attribute the wrapper `{"S": "…"}`, a dict of a type and a value.
abbrev pub Image : Type 0
Image = List (String × List (String × String))

-- An item of `event["Records"]`; a missing image is `none`.
pub record StreamRecord : Type 0 where
  pub event_name : Option String
  pub new_image : Option Image

-- `((_, value),) = typed_value.items()`: exactly one item
unfoldable pub unwrap : List (String × String) → Result String
unwrap ((_, value) ∷ []) = ok value
unwrap _ = raised (value_error "wrong number of values to unpack")

-- `_deserialize`
unfoldable pub deserialize : Image → Result (List (String × String))
unfolding unwrap
deserialize [] = ok []
deserialize ((key, typed_value) ∷ image) =
    let rest = deserialize image in
    elim (unwrap typed_value) [
      | raised e ↦ raised e
      | ok value ↦ elim rest [ raised e ↦ raised e | ok item ↦ ok ((key, value) ∷ item) ]
    ]

-- `record.get("eventName") in ("INSERT", "MODIFY")`
abbrev pub is_write : Option String → Bool
is_write name = option_is name "INSERT" || option_is name "MODIFY"

-- one round of the loop: by how much `processed` grows
unfoldable pub notified : StreamRecord → Result ℕ
unfolding deserialize field
notified r = if not (is_write r.event_name) then ok 0 else elim r.new_image [
  | none ↦ ok 0
  | some [] ↦ ok 0
  | some (a ∷ image) ↦ elim (deserialize (a ∷ image)) [
    | raised e ↦ raised e
    | ok item ↦ ok (if option_is (field "status" item) "ai-processed" then 1 else 0)
  ]
]

-- the loop, from a count on
unfoldable pub handle_records : ℕ → List StreamRecord → Result ℕ
unfolding notified
handle_records processed [] = ok processed
handle_records processed (r ∷ rs) = elim (notified r) [
  | raised e ↦ raised e
  | ok n ↦ handle_records (processed + n) rs
]

unfoldable pub handler : List StreamRecord → Result ℕ
unfolding handle_records
handler records = handle_records 0 records
