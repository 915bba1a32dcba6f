-- ===== src/Compress/Views.antt =====
-- src/compression.rs: the borrowed views of a request's text that the planning reads, `offset_of`, and
-- the views' types. A `&str` into the request is the address of its first byte with its bytes. What
-- `serde_json::from_str` answers at each type is not part of the program: it is a `Serde`, in which
-- `none` is an error.
use hr.Prelude.{
  from_utf8, lit, ℕ, ◌+◌, ◌-◌, ◌≤◌, ◌≡◌, Bool, false, Option, none, some, List, [], ◌∷◌, ◌||◌, ◌==◌,
  ltb, if◌then◌else◌, length, arith, Bool-cases, inl, inr, Text, Bytes,
}
use hr.Prelude.Strings.{strip_prefix, starts_with, trim_start}
use hr.Json.{Value, unwrap_or}

pub record View : Type 0 where
  pub at : ℕ
  pub bytes : Bytes

abbrev pub end_of : View → ℕ
end_of v = v.at + length v.bytes

-- The offset of `child` in `parent`, if its bytes are some of the parent's.
unfoldable pub offset_of : View → View → Option ℕ
offset_of parent child =
    if ltb child.at parent.at || ltb (end_of parent) (end_of child)
    then none
    else some (child.at - parent.at)

-- `starts_with` of one ASCII character
unfoldable pub starts_with_byte : ℕ → View → Bool
starts_with_byte c v = elim v.bytes [ [] ↦ false | b ∷ _ ↦ b == c ]

pub record MessageHeader : Type 0 where
  pub role : Option Text
  pub content : Option View
  pub name : Option Text
  pub tool_call_id : Option Text

pub record BlockHeader : Type 0 where
  pub kind : Option Text
  pub content : Option View
  pub text : Option View
  pub cache_control : Option View

pub record ResponsesBodyView : Type 0 where
  pub input : Option View
  pub messages : Option View

pub record ResponsesItemHeader : Type 0 where
  pub kind : Option Text
  pub call_id : Option Text
  pub output : Option View

-- `ToolSchemaView`, with the `parameters` of its `function` if it has one
pub record ToolSchemaView : Type 0 where
  pub function_parameters : Option (Option View)
  pub parameters : Option View
  pub input_schema : Option View

pub record Serde : Type 0 where
  -- `MessagesView` with its field `messages`
  pub messages_view : View → Option (Option (List View))
  pub message_header : View → Option MessageHeader
  pub block_header : View → Option BlockHeader
  -- `BatchView` with its field `requests`, `BatchRequestView` with its field `params`
  pub batch_view : View → Option (Option (List View))
  pub batch_request_view : View → Option (Option View)
  pub responses_view : View → Option ResponsesBodyView
  pub responses_item : View → Option ResponsesItemHeader
  -- `ToolsArrayView` and `ToolsFieldView` with their field `tools`, `PromptCacheKeyView` with its field
  pub tools_view : View → Option (Option View)
  pub tool_schema_view : View → Option ToolSchemaView
  pub prompt_cache_key_view : View → Option (Option View)
  -- `Vec<&RawValue>`, `String` and `Value`
  pub raw_values : View → Option (List View)
  pub string_of : View → Option Text
  pub value_of : View → Option Value

-- The bytes of `child` are some of the bytes from `lo` to `hi`.
abbrev pub Inside : ℕ → ℕ → View → Type 0
Inside lo hi child = (lo ≤ child.at) × (end_of child ≤ hi)

-- Views one behind the other, from `lo` to `hi`.
abbrev pub InOrder : ℕ → ℕ → List View → Type 0
InOrder lo hi [] = lo ≤ hi
InOrder lo hi (v ∷ vs) = (lo ≤ v.at) × InOrder (end_of v) hi vs

-- A `&RawValue` borrows the bytes of a value from the text that it was read from, and the elements of an
-- array stand one behind the other.
pub record SerdeLaws (Q : Serde) : Type 0 where
  pub messages_inside :
      (v : View) (vs : List View) → Q.messages_view v ≡ some (some vs) → InOrder v.at (end_of v) vs
  pub raw_values_inside :
      (v : View) (vs : List View) → Q.raw_values v ≡ some vs → InOrder v.at (end_of v) vs
  pub message_content_inside :
      (v c : View) (h : MessageHeader)
      → Q.message_header v ≡ some h
      → h.content ≡ some c
      → Inside v.at (end_of v) c
  pub batch_inside :
      (v : View) (vs : List View) → Q.batch_view v ≡ some (some vs) → InOrder v.at (end_of v) vs
  pub params_inside :
      (v c : View) → Q.batch_request_view v ≡ some (some c) → Inside v.at (end_of v) c
  pub block_content_inside :
      (v c : View) (b : BlockHeader)
      → Q.block_header v ≡ some b
      → b.content ≡ some c
      → Inside v.at (end_of v) c
  pub block_text_inside :
      (v c : View) (b : BlockHeader)
      → Q.block_header v ≡ some b
      → b.text ≡ some c
      → Inside v.at (end_of v) c

-- A view inside another has an offset, and no other has one.
pub offset_of-Inside :
    (parent child : View) (offset : ℕ)
    → offset_of parent child ≡ some offset
    → (parent.at + offset ≡ child.at) × (end_of child ≤ end_of parent)
unfolding offset_of
offset_of-Inside parent child offset h =
    elim (Bool-cases (ltb child.at parent.at || ltb (end_of parent) (end_of child))) [
      | inl e ↦ let h' : none ≡ some offset = rw e at h in absurd (cc)
      | inr e ↦ let h' : some (child.at - parent.at) ≡ some offset = rw e at h in ground arith
    ]

-- A `&str` as its scalar values, and `ends_with` of one ASCII character
abbrev pub text_of : Bytes → Text
text_of bytes = unwrap_or [] (from_utf8 bytes)

unfoldable pub ends_with_byte : ℕ → Bytes → Bool
ends_with_byte c [] = false
ends_with_byte c (b ∷ []) = b == c
ends_with_byte c (_ ∷ b ∷ bs) = ends_with_byte c (b ∷ bs)

-- `strip_prefix('{').map(|rest| rest.trim_start().starts_with('}')).unwrap_or(false)`
unfoldable pub interior_empty : Text → Bool
interior_empty text = elim (strip_prefix (lit "{") text) [
  | none ↦ false
  | some rest ↦ starts_with (lit "}") (trim_start rest)
]
