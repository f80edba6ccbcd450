-- ===== src/Bridges/Events.antt =====
-- `AuditEvent` of internal/pipelock/tailer.go and the names that internal/pipelock_bridge/bridge.go
-- and internal/sbh/bridge.go give to an event.
use kiss_protocol.Base.{Bool, false, List, [], ◌∷◌, ◌++◌, Bytes, codes, bytes_eq, if◌then◌else◌}
use kiss_protocol.Store.Head.{is_empty}

mutual
  -- A JSON value; numbers, arrays and null are not looked at.
  pub data Value : Type 0 where
    text : Bytes → Value
    flag : Bool → Value
    object : Fields → Value
    other_value : Value

  -- A JSON object, with its keys.
  pub data Fields : Type 0 where
    no_fields : Fields
    field : Bytes → Value → Fields → Fields

-- The lookup in a map.
unfoldable pub get : Bytes → Fields → Value
get key no_fields = other_value
get key (field k v fs) = let rest = get key fs in if bytes_eq k key then v else rest

-- `v, _ := x.(string)` and `v, _ := x.(bool)`
abbrev pub text_of : Value → Bytes
text_of (text s) = s
text_of (flag b) = []
text_of (object fs) = []
text_of other_value = []

abbrev pub flag_of : Value → Bool
flag_of (text s) = false
flag_of (flag b) = b
flag_of (object fs) = false
flag_of other_value = false

abbrev pub text_or : Bytes → Value → Bytes
text_or default (text s) = s
text_or default (flag b) = default
text_or default (object fs) = default
text_or default other_value = default

-- `Level` and `EventName`
unfoldable pub event_level : Fields → Bytes
event_level evt = text_or (codes "info") (get (codes "level") evt)

unfoldable pub event_name : Fields → Bytes
event_name evt = text_or (codes "pipelock_event") (get (codes "event") evt)

-- `nestedString`
unfoldable pub nested_string : List Bytes → Value → Bytes
nested_string [] v = []
nested_string (k ∷ []) (object fs) = text_of (get k fs)
nested_string (k ∷ ks) (object fs) = nested_string ks (get k fs)
nested_string (k ∷ ks) (text s) = []
nested_string (k ∷ ks) (flag b) = []
nested_string (k ∷ ks) other_value = []

-- `firstNonEmpty`
unfoldable pub first_non_empty : List Bytes → Bytes
first_non_empty [] = []
first_non_empty (v ∷ vs) = let rest = first_non_empty vs in if is_empty v then rest else v

abbrev pub receipt_kind : Fields → Bytes
receipt_kind evt = first_non_empty (
    nested_string
      (codes "detail" ∷ codes "action_record" ∷ codes "session_control" ∷ codes "kind" ∷ [])
      (object evt)
    ∷ nested_string (codes "event_kind" ∷ []) (object evt)
    ∷ nested_string (codes "detail" ∷ codes "action_record" ∷ codes "action_type" ∷ []) (object evt)
    ∷ nested_string (codes "type" ∷ []) (object evt)
    ∷ [])

-- The event of `classifyReceipt`.
unfoldable pub receipt_event : Fields → Bytes
receipt_event evt =
    let kind = receipt_kind evt in
    if is_empty kind then codes "pipelock_receipt" else codes "pipelock_receipt:" ++ kind

unfoldable pub receipt_verdict : Fields → Bytes
receipt_verdict evt = first_non_empty (
    nested_string (codes "detail" ∷ codes "action_record" ∷ codes "verdict" ∷ []) (object evt)
    ∷ nested_string (codes "detail" ∷ codes "payload" ∷ codes "verdict" ∷ []) (object evt)
    ∷ nested_string (codes "detail" ∷ codes "verdict" ∷ []) (object evt)
    ∷ nested_string (codes "verdict" ∷ []) (object evt)
    ∷ [])
