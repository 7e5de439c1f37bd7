-- ===== src/Turn/Store.antt =====
-- The rows of one thread of one workspace, and the accounts: PostgresMessageStore
-- (apps/api/src/aether/adapters/postgres/message_store.py) over message_repository.py and
-- citation_repository.py. A thread's messages are listed as they were created. Each operation is one
-- transaction; that the row's own columns name this thread is left out of its conditions.
use aether_ai_workspace.Base.{
  ℕ, suc, Bool, false, ◌&&◌, Option, none, some, List, [], ◌∷◌, ◌++◌, Text, text_eq, ◌==◌, or_else,
  find_row, select_rows,
}
use aether_ai_workspace.Domain.Entities.{
  Uuid, Instant, Message, Citation, CitationDraft, MemorySummary,
}
use aether_ai_workspace.Metering.{Accounts}

-- `next_seq` is the thread's row of `thread_seq_counters`, if it has one.
pub record ThreadStore : Type 0 where
  pub messages : List Message
  pub next_seq : Option ℕ
  pub citations : List Citation
  pub summary : Option MemorySummary
  pub accounts : Accounts

-- `create`, of a row that is given but for its `seq`: the row and the tables.
unfoldable pub create : (ℕ → Message) → ThreadStore → Message × ThreadStore
create row s =
    let seq = or_else s.next_seq 1 in
    (row seq, record s { messages = s.messages ++ (row seq ∷ []); next_seq = some (suc seq) })

abbrev pub has_client_message_id : Text → Message → Bool
has_client_message_id client_message_id m = elim m.client_message_id [
  | none ↦ false
  | some id ↦ text_eq id client_message_id
]

abbrev pub has_seq : ℕ → Message → Bool
has_seq seq m = m.seq == seq

unfoldable pub find_by_client_message_id : Text → ThreadStore → Option Message
unfolding find_row
find_by_client_message_id client_message_id s =
    find_row (has_client_message_id client_message_id) s.messages

unfoldable pub find_by_seq : ℕ → ThreadStore → Option Message
unfolding find_row
find_by_seq seq s = find_row (has_seq seq) s.messages

-- The rows of `create_many`; the n-th one gets the n-th new id.
unfoldable pub citation_rows :
    (ℕ → Uuid) → Instant → Uuid → Uuid → ℕ → List CitationDraft → List Citation
citation_rows new_id now w message_id n [] = []
citation_rows new_id now w message_id n (d ∷ drafts) =
    record {
      id = new_id n;
      workspace_id = w;
      message_id = message_id;
      chunk_id = d.chunk_id;
      document_title = d.document_title;
      section_path = d.section_path;
      page_start = d.page_start;
      page_end = d.page_end;
      created_at = now;
    }
    ∷ citation_rows new_id now w message_id (suc n) drafts

-- `persist_with_citations`, of the row and of the citations that belong to it.
unfoldable pub persist_with_citations :
    (ℕ → Message) → (Message → List Citation) → ThreadStore → List Citation × ThreadStore
unfolding create
persist_with_citations row citations_of s =
    let (message, after) = create row s in
    (citations_of message, record after { citations = after.citations ++ citations_of message })

abbrev pub is_citation_of : Uuid → Uuid → Citation → Bool
is_citation_of w message_id c = c.workspace_id == w && (c.message_id == message_id)

-- `ORDER BY created_at` leaves the order of a message's citations open, which were created at once:
-- the database's choice is the first argument.
unfoldable pub list_citations :
    (List Citation → List Citation) → Uuid → Uuid → ThreadStore → List Citation
unfolding select_rows
list_citations in_some_order w message_id s =
    in_some_order (select_rows (is_citation_of w message_id) s.citations)
