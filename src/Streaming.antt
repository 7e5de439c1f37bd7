-- ===== src/Streaming.antt =====
-- The stream's events: apps/api/src/aether/domain/streaming.py and ports/streaming.py.
pub mod Grammar
use aether_ai_workspace.Base.{ℕ, Bool, Option, none, some, List, [], ◌∷◌, Text, codes}
use aether_ai_workspace.Domain.Entities.{Uuid}

pub data GenerationStatus : Type 0 where
  complete partial cancelled error : GenerationStatus

-- A constructor for each event class, with its fields.
pub data StreamEvent : Type 0 where
  meta : (generation_id : Uuid) (seq : ℕ) (model : Text) (grounded : Bool) → StreamEvent
  token : (generation_id : Uuid) (seq : ℕ) (delta : Text) → StreamEvent
  citation :
      (generation_id : Uuid) (seq : ℕ) (citation_id : Uuid) (chunk_id : Option Uuid)
      (document_title section_path : Text) (page_start page_end : Option ℕ)
      → StreamEvent
  usage :
      (generation_id : Uuid) (seq : ℕ) (prompt_tokens completion_tokens cost_microcents : ℕ)
      → StreamEvent
  failure : (generation_id : Uuid) (seq : ℕ) (code message : Text) → StreamEvent
  done : (generation_id : Uuid) (seq : ℕ) (status : GenerationStatus) → StreamEvent

-- `event.generation_id`
unfoldable pub generation_of : StreamEvent → Uuid
generation_of (StreamEvent.meta g n _ _) = g
generation_of (StreamEvent.token g n _) = g
generation_of (StreamEvent.citation g n _ _ _ _ _ _) = g
generation_of (StreamEvent.usage g n _ _ _) = g
generation_of (StreamEvent.failure g n _ _) = g
generation_of (StreamEvent.done g n _) = g

-- `event.seq`
unfoldable pub seq_of : StreamEvent → ℕ
seq_of (StreamEvent.meta g n _ _) = n
seq_of (StreamEvent.token g n _) = n
seq_of (StreamEvent.citation g n _ _ _ _ _ _) = n
seq_of (StreamEvent.usage g n _ _ _) = n
seq_of (StreamEvent.failure g n _ _) = n
seq_of (StreamEvent.done g n _) = n

unfoldable pub event_type_name : StreamEvent → Text
event_type_name (StreamEvent.meta _ _ _ _) = codes "meta"
event_type_name (StreamEvent.token _ _ _) = codes "token"
event_type_name (StreamEvent.citation _ _ _ _ _ _ _ _) = codes "citation"
event_type_name (StreamEvent.usage _ _ _ _ _) = codes "usage"
event_type_name (StreamEvent.failure _ _ _ _) = codes "error"
event_type_name (StreamEvent.done _ _ _) = codes "done"

-- The values of a payload. A UUID stands for its `str`.
pub data PayloadValue : Type 0 where
  null : PayloadValue
  uuid : Uuid → PayloadValue
  text : Text → PayloadValue
  number : ℕ → PayloadValue
  boolean : Bool → PayloadValue

abbrev pub or_null {ℓ} : {A : Type ℓ} → (A → PayloadValue) → Option A → PayloadValue
or_null f none = PayloadValue.null
or_null f (some a) = f a

-- `status.value`
unfoldable pub status_value : GenerationStatus → Text
status_value GenerationStatus.complete = codes "complete"
status_value GenerationStatus.partial = codes "partial"
status_value GenerationStatus.cancelled = codes "cancelled"
status_value GenerationStatus.error = codes "error"

unfoldable pub event_payload : StreamEvent → List (Text × PayloadValue)
unfolding status_value
event_payload (StreamEvent.meta g n model grounded) =
    (codes "generation_id", PayloadValue.uuid g)
    ∷ (codes "model", PayloadValue.text model)
    ∷ (codes "grounded", PayloadValue.boolean grounded)
    ∷ []
event_payload (StreamEvent.token g n delta) = (codes "delta", PayloadValue.text delta) ∷ []
event_payload (StreamEvent.citation g n id chunk title path first last) =
    (codes "citation_id", PayloadValue.uuid id)
    ∷ (codes "chunk_id", or_null PayloadValue.uuid chunk)
    ∷ (codes "document_title", PayloadValue.text title)
    ∷ (codes "section_path", PayloadValue.text path)
    ∷ (codes "page_start", or_null PayloadValue.number first)
    ∷ (codes "page_end", or_null PayloadValue.number last)
    ∷ []
event_payload (StreamEvent.usage g n prompt completion cost) =
    (codes "prompt_tokens", PayloadValue.number prompt)
    ∷ (codes "completion_tokens", PayloadValue.number completion)
    ∷ (codes "cost_microcents", PayloadValue.number cost)
    ∷ []
event_payload (StreamEvent.failure g n code message) =
    (codes "code", PayloadValue.text code) ∷ (codes "message", PayloadValue.text message) ∷ []
event_payload (StreamEvent.done g n status) =
    (codes "status", PayloadValue.text (status_value status)) ∷ []

-- What the buffer keeps of an event. The payload stands for the JSON text that is stored.
pub record BufferedEvent : Type 0 where
  pub seq : ℕ
  pub event_type : Text
  pub data_of : List (Text × PayloadValue)

unfoldable pub to_buffered : StreamEvent → BufferedEvent
unfolding seq_of event_type_name event_payload
to_buffered e = record { seq = seq_of e; event_type = event_type_name e; data_of = event_payload e }
