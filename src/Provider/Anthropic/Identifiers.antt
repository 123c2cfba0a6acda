-- ===== src/Provider/Anthropic/Identifiers.antt =====
-- What becomes of a response of internal/runtime/providers/anthropic/anthropic.go when it is sent back
-- as history.
use crated.Prelude.{String, List, [], ◌∷◌, map, some, ◌≡◌, ◌≢◌, refl, ap, arith, All}
use crated.Prelude.Text.{eq-false_of_ne}
use crated.Json.{Codec, Fields, object}
use crated.Genai.{Content}
use crated.Provider.Anthropic.{ContentBlock, blank_block, Message, MessagesResponse, map_role}
use crated.Provider.Anthropic.Request.{blocks, convert_from, convert_contents, messages_of}
use crated.Provider.Anthropic.Response.{parts, block_parts, convert_input, convert_sync_response}

abbrev pub text_block : String → ContentBlock
text_block t = record blank_block { type = "text"; text = t }

abbrev pub tool_block : String → String → Fields → ContentBlock
tool_block id name fields = record blank_block {
  type = "tool_use";
  id = id;
  name = name;
  input = some (object fields);
}

-- A block that Anthropic answers with: a text, or the use of a tool, whose input is an object.
pub data IsAnswerBlock : ContentBlock → Type 0 where
  is_text : (t : String) → t ≢ "" → IsAnswerBlock (text_block t)
  is_tool : (id name : String) (fields : Fields) → IsAnswerBlock (tool_block id name fields)

abbrev pub without_id : ContentBlock → ContentBlock
without_id b = record b { id = "" }

module _ (codec : Codec) where
  blocks-parts :
      (bs : List ContentBlock)
      → All IsAnswerBlock bs
      → blocks codec (parts codec bs) ≡ map without_id bs
  unfolding blocks parts block_parts convert_input
  blocks-parts [] _ = refl
  blocks-parts (_ ∷ bs) (is_text t h, hs) =
      rw (eq-false_of_ne t "" h) (ap (λ l. text_block t ∷ l) (blocks-parts bs hs))
  blocks-parts (_ ∷ bs) (is_tool id name fields, hs) =
      ap (λ l. tool_block "" name fields ∷ l) (blocks-parts bs hs)

  not_result :
      (b : ContentBlock) (bs : List ContentBlock)
      → IsAnswerBlock b
      → messages_of codec "assistant" (map without_id (b ∷ bs))
        ≡ record { role = "assistant"; content = map without_id (b ∷ bs) } ∷ []
  not_result _ bs (is_text t h) = refl
  not_result _ bs (is_tool id name fields) = refl

  -- A response of texts, none of them empty, and uses of tools, their inputs objects, sent back as
  -- history, is one message of the assistant with the same blocks in the same order, and no system
  -- prompt; but the identifiers of the uses are lost.
  pub convert_contents-sync_response :
      (resp : MessagesResponse) (b : ContentBlock) (bs : List ContentBlock) (content : Content)
      → resp.content ≡ b ∷ bs
      → All IsAnswerBlock (b ∷ bs)
      → (convert_sync_response codec resp).content ≡ some content
      → convert_contents codec (content ∷ [])
        ≡ ("", record { role = "assistant"; content = map without_id (b ∷ bs) } ∷ [])
  unfolding convert_contents convert_from convert_sync_response map_role
  convert_contents-sync_response resp b bs content c (h, hs) e =
      let same : content ≡ record { role = "model"; parts = parts codec (b ∷ bs) } = ground arith in
      rw same (
        rw (blocks-parts (b ∷ bs) (h, hs))
          (ap {B = String × List Message} (λ ms. ("", ms)) (not_result b bs h)))
