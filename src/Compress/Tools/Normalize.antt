-- ===== src/Compress/Tools/Normalize.antt =====
-- src/compression.rs: `plan_tools_normalization` with what it calls: the sort of the tools, the
-- canonical bytes of their schemas, and the placing of `cache_control`. MD5 and `serde_json::to_vec` are
-- the arguments `md5` and `to_vec`.
use hr.Prelude.{
  ℕ, ◌+◌, ◌-◌, Bool, true, false, not, ◌&&◌, ◌||◌, Option, none, some, List, [], ◌∷◌, ◌++◌, ◌==◌,
  if◌then◌else◌, eq_text, any, map, take, drop, length, lit, Text, Bytes,
}
use hr.Json.{Value, get, as_array, and_then, or_else, unwrap_or, get_str}
use hr.Json.Edit.{lt_text}
use hr.Splice.{Replacement}
use hr.Ccr.{hex}
use hr.Compress.Views.{
  View, Serde, ToolSchemaView, offset_of, text_of, ends_with_byte, interior_empty,
}
use hr.Compress.Plan.{has_cache_control, anthropic_content_has_cache_control}

pub data ToolShape : Type 0 where
  open_ai anthropic : ToolShape

abbrev pub is_anthropic : ToolShape → Bool
is_anthropic anthropic = true
is_anthropic open_ai = false

unfoldable pub anthropic_cache_control_already_set : Value → Bool
anthropic_cache_control_already_set value =
    any has_cache_control (unwrap_or [] (and_then (get (lit "tools") value) as_array))
    || anthropic_content_has_cache_control (get (lit "system") value)
    || any (λ message. anthropic_content_has_cache_control (get (lit "content") message))
        (unwrap_or [] (and_then (get (lit "messages") value) as_array))

unfoldable pub tool_sort_key : (Bytes → Bytes) → (Value → Bytes) → Value → Text
tool_sort_key md5 to_vec tool = unwrap_or (hex (md5 (to_vec tool))) (
    or_else (get_str (lit "name") tool)
      (and_then (get (lit "function") tool) (get_str (lit "name"))))

-- A tool on its way through the sort: its number, its key, and its text.
pub record Keyed : Type 0 where
  pub index : ℕ
  pub key : Text
  pub raw : View

-- `order.sort_by_key(…)`, a stable sort
unfoldable pub insert_keyed : Keyed → List Keyed → List Keyed
unfolding lt_text
insert_keyed t [] = t ∷ []
insert_keyed t (u ∷ us) =
    let later = insert_keyed t us in if lt_text u.key t.key then u ∷ later else t ∷ u ∷ us

unfoldable pub sort_keyed : List Keyed → List Keyed
unfolding insert_keyed
sort_keyed [] = []
sort_keyed (t ∷ ts) = insert_keyed t (sort_keyed ts)

-- `order.iter().enumerate().any(|(position, &index)| position != index)`
unfoldable pub has_moved : ℕ → List Keyed → Bool
has_moved position [] = false
has_moved position (t ∷ ts) = not (position == t.index) || has_moved (position + 1) ts

-- The tools with their texts, of which there are as many.
unfoldable pub keyed : (Value → Text) → ℕ → List Value → List View → List Keyed
keyed key index (tool ∷ tools) (raw ∷ raws) =
    record { index = index; key = key tool; raw = raw } ∷ keyed key (index + 1) tools raws
keyed key index [] raws = []
keyed key index (_ ∷ _) [] = []

abbrev pub schema_of : ToolShape → ToolSchemaView → Option View
schema_of open_ai view = or_else (and_then view.function_parameters (λ p. p)) view.parameters
schema_of anthropic view = view.input_schema

abbrev cache_control : Bytes
cache_control = lit "\"cache_control\":{\"type\":\"ephemeral\"}"

-- The bytes to insert in front of a closing brace: a comma first, unless the object is empty.
unfoldable pub cache_control_bytes : Text → Bytes
unfolding interior_empty
cache_control_bytes object_text =
    if interior_empty object_text then cache_control else b',' ∷ cache_control

unfoldable pub append_cache_control_to_piece : Bytes → Bytes
unfolding cache_control_bytes ends_with_byte
append_cache_control_to_piece piece =
    if ends_with_byte b'}' piece
    then take (length piece - 1) piece
      ++ (cache_control_bytes (text_of piece) ++ drop (length piece - 1) piece)
    else piece

unfoldable pub append_to_last : List Bytes → List Bytes
unfolding append_cache_control_to_piece
append_to_last [] = []
append_to_last (piece ∷ []) = append_cache_control_to_piece piece ∷ []
append_to_last (piece ∷ next ∷ pieces) = piece ∷ append_to_last (next ∷ pieces)

-- The pieces with commas between them.
unfoldable pub joined : List Bytes → Bytes
joined [] = []
joined (piece ∷ []) = piece
joined (piece ∷ next ∷ pieces) = piece ++ (b',' ∷ joined (next ∷ pieces))

unfoldable pub last_of : List View → Option View
last_of [] = none
last_of (v ∷ []) = some v
last_of (_ ∷ v ∷ vs) = last_of (v ∷ vs)

module _ (Q : Serde) (md5 : Bytes → Bytes) (to_vec : Value → Bytes) where
  -- The schema of a tool with its canonical bytes, where those differ.
  unfoldable pub changed_schema : Option View → Option (View × Bytes)
  changed_schema none = none
  changed_schema (some schema) = elim (Q.value_of schema) [
    | none ↦ none
    | some value ↦ if eq_text (to_vec value) schema.bytes then none else some (schema, to_vec value)
  ]

  unfoldable pub schema_change : ToolShape → View → Option (View × Bytes)
  unfolding changed_schema
  schema_change shape tool =
      and_then (Q.tool_schema_view tool) (λ view. changed_schema (schema_of shape view))

  unfoldable pub canonicalized_tool_piece : ToolShape → View → Bytes
  unfolding schema_change offset_of
  canonicalized_tool_piece shape tool = elim (schema_change shape tool) [
    | none ↦ tool.bytes
    | some (schema, canonical) ↦ elim (offset_of tool schema) [
      | none ↦ tool.bytes
      | some offset ↦
          take offset tool.bytes ++ (canonical ++ drop (offset + length schema.bytes) tool.bytes)
    ]
  ]

  -- The schema of one tool, rewritten in place.
  unfoldable pub schema_splice : View → ℕ → ToolShape → View → List Replacement
  unfolding schema_change offset_of
  schema_splice segment base shape tool = elim (schema_change shape tool) [
    | none ↦ []
    | some (schema, canonical) ↦ elim (offset_of segment schema) [
      | none ↦ []
      | some offset ↦
          record {
            start = base + offset;
            end = base + offset + length schema.bytes;
            bytes = canonical;
          }
          ∷ []
    ]
  ]

  unfoldable pub schema_splices : View → ℕ → ToolShape → List View → List Replacement
  unfolding schema_splice
  schema_splices segment base shape [] = []
  schema_splices segment base shape (tool ∷ tools) =
      schema_splice segment base shape tool ++ schema_splices segment base shape tools

  -- `cache_control` in front of the last tool's closing brace.
  unfoldable pub place_splice : View → ℕ → Option View → List Replacement
  unfolding cache_control_bytes ends_with_byte offset_of
  place_splice segment base none = []
  place_splice segment base (some last) =
      if ends_with_byte b'}' last.bytes
      then elim (offset_of segment last) [
        | none ↦ []
        | some offset ↦
            record {
              start = base + offset + length last.bytes - 1;
              end = base + offset + length last.bytes - 1;
              bytes = cache_control_bytes (text_of last.bytes);
            }
            ∷ []
      ]
      else []

  -- The array rewritten in the order of the sort.
  unfoldable pub reordered : View → ℕ → ℕ → ToolShape → Bool → List Keyed → List Replacement
  unfolding canonicalized_tool_piece append_to_last joined
  reordered tools_view base offset shape place order =
      let pieces = map (λ (t : Keyed). canonicalized_tool_piece shape t.raw) order in
      record {
        start = base + offset;
        end = base + offset + length tools_view.bytes;
        bytes = b'[' ∷ (joined (if place then append_to_last pieces else pieces) ++ b']' ∷ []);
      }
      ∷ []

  unfoldable pub normalize_tools :
      View → ℕ → Value → ToolShape → View → ℕ → List Value → List View → List Replacement
  unfolding tool_sort_key keyed sort_keyed has_moved reordered schema_splices place_splice
  normalize_tools segment base object_value shape tools_view offset tools raws =
      let marker_present = any has_cache_control tools in
      let place = is_anthropic shape && not (anthropic_cache_control_already_set object_value) in
      let order = sort_keyed (keyed (tool_sort_key md5 to_vec) 0 tools raws) in
      if not marker_present && has_moved 0 order
      then reordered tools_view base offset shape place order
      else schema_splices segment base shape raws
        ++ (if place then place_splice segment base (last_of raws) else [])

  unfoldable pub normalize_viewed :
      View → ℕ → Value → ToolShape → List Value → Option View → List Replacement
  unfolding normalize_tools offset_of
  normalize_viewed segment base object_value shape tools none = []
  normalize_viewed segment base object_value shape tools (some tools_view) =
      elim (offset_of segment tools_view) [
        | none ↦ []
        | some offset ↦ elim (Q.raw_values tools_view) [
          | none ↦ []
          | some raws ↦
              if length raws == length tools
              then normalize_tools segment base object_value shape tools_view offset tools raws
              else []
        ]
      ]

  unfoldable pub plan_tools_normalization : View → ℕ → Value → ToolShape → List Replacement
  unfolding normalize_viewed
  plan_tools_normalization segment base object_value shape =
      let tools = unwrap_or [] (and_then (get (lit "tools") object_value) as_array) in
      if length tools == 0
      then []
      else normalize_viewed segment base object_value shape tools
          (and_then (Q.tools_view segment) (λ v. v))
