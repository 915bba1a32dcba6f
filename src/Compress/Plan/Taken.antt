-- ===== src/Compress/Plan/Taken.antt =====
-- That the plan of an Anthropic request leaves no tool result out.
use mathlib.Core.List.{Memᴰ}
use hr.Prelude.{ℕ, ◌≡◌, true, none, some, List, [], lit, Text}
use hr.Json.{unwrap_or}
use hr.Compress.{PlanSlot}
use hr.Compress.Views.{View, Serde, MessageHeader, BlockHeader, offset_of, starts_with_byte}
use hr.Compress.Plan.{Segment}

-- There is a slot with the text.
abbrev pub HasText : Text → List PlanSlot → Type 0
HasText text slots = (slot : PlanSlot) × Memᴰ slot slots × (slot.text ≡ text)

-- The token is a string with the text, and the content of a `tool_result` block without
-- `cache_control` among the blocks of the message's content; content and token are found in the segment.
pub record HoldsToolResult (Q : Serde) (segment : Segment) (message token : View) (text : Text)
    : Type 0 where
  pub header : MessageHeader
  pub content : View
  pub blocks : List View
  pub view : View
  pub block : BlockHeader
  pub content_at : ℕ
  pub token_at : ℕ
  pub header_of : Q.message_header message ≡ some header
  pub content_of : header.content ≡ some content
  pub content_located : offset_of segment.view content ≡ some content_at
  pub is_list : starts_with_byte b'[' content ≡ true
  pub blocks_of : Q.raw_values content ≡ some blocks
  pub is_block : Memᴰ view blocks
  pub block_of : Q.block_header view ≡ some block
  pub bare : block.cache_control ≡ none
  pub kind_of : unwrap_or [] block.kind ≡ lit "tool_result"
  pub token_of : block.content ≡ some token
  pub token_located : offset_of segment.view token ≡ some token_at
  pub is_string : starts_with_byte b'"' token ≡ true
  pub text_of : Q.string_of token ≡ some text
