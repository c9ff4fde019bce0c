-- ===== src/Lib.antt =====
-- vegapunk-web is a web application around a personal knowledge base: notes are split into chunks
-- and searched by meaning and by letters, a chat answers from them with an LLM and keeps a running
-- summary, and a small OAuth server lets other programs use the notes. This library models the
-- application's own logic and proves what it promises.
--
-- The parts, and the files that model them:
--   Chunking     app/chunking.py: the chunks of a note (split_into_chunks)
--   Wikilink     app/wikilink.py: the titles that a note links to (extract_links)
--   Notes        app/indexing.py and the tables of migrations/0001_init.sql: rebuilding the chunks
--                and links of a note (reindex_note, index_after_save)
--   Ingest       app/ingest.py (ingest_note), and update_note and delete_note of app/mcp_tools.py;
--                in Ingest/Histories these requests one after another
--   Pages        the views of notes in app/routes/notes.py and app/mcp_tools.py
--   Search       app/search.py: fusion (rrf), expansion along links, the relevance gate (search)
--   Memory       app/memory.py: turns, the folding into the summary, the contexts for the LLM
--   Chat         app/routes/chat.py and app/routes/memo.py: sources, prompt, rows, memos
--   Stream       app/routes/chat.py: the events of an answer and what they save (_chat_stream),
--                and retitle_conversation
--   Llm          app/llm.py: the text in an answer's envelope, the retry, what is sent
--   LlmText      app/llm_text.py: titles and tags out of an answer (clean_title, parse_tag_list)
--   Merging      app/distill_match.py: the note that a candidate is merged into
--   Distill      app/routes/distill.py: the JSON array in an answer (extract_json_array); in
--                Distill/Request the prompts and the two requests
--   Session      app/session.py: the key-value store, sessions, one-time states
--   OauthStore   app/oauth_store.py: what the authorization server stores
--   Oauth        app/routes/oauth.py: registration and authorize; in Oauth/Token the token endpoint
--   Settings     app/settings.py, and write_settings of app/routes/notes.py
--   Mcp          app/mcp_server.py: the middleware, the context of a request, the tools
--   Accounts     app/routes/auth.py: from a provider's profile to a user
--   Base, Text, Json   lists, dicts, sorting, Python's str and json, shared by all
--   Tests        the definitions and theorems at concrete inputs
--
-- How they interact: Ingest saves a note and calls Notes, which calls Chunking and Wikilink. Search
-- reads what Notes stored, Chat and Pages take its hits, and Memory gives Chat the context. Oauth
-- works through OauthStore on the store of Session, and asks Session who is logged in. Mcp resolves
-- the tokens that Oauth issued and calls Ingest, Pages, Search and Merging for their user. Stream calls
-- Memory, Search and Chat, and Distill calls Merging.
--
-- A definition has the name of its function, without a leading underscore. A function that changes
-- the store or a table takes it and returns it; a table is a list of rows. An exception is the
-- constructor raised of Outcome, or failed of a reply. The generator of events is a program that takes
-- the tables and returns the events it emits, the tables it leaves and an Outcome. The context
-- variables of a request are a record that is passed on. Loops are structural recursion. The loops
-- that jump ahead in a text (slices, remove_spans, groups) recurse on fuel, which is the length of
-- the text: every round takes at least one character, so it never runs out.
--
-- Parameters, and what is assumed of them: json (Codec; decoding an encoded value gives it back),
-- the store (setex, get and delete act on one key), urlparse, the S256 transform, the embedding
-- model and the LLM (nothing), floats (only where a theorem names a law), and in the search the two
-- ranked lists of rows, the nearest chunks to a text for a user (one theorem assumes that they are of
-- the user's notes, as the query's WHERE clause says) and the rows of the chunks, which PostgreSQL
-- computes. Fresh random tokens are arguments.
--
-- The quotient of two counts in app/distill_match.py is compared with 0.34 as a fraction of naturals,
-- which the floats agree with far beyond the size of a note. str.lower, str.casefold, difflib and
-- the bytes.decode of the headers that the middleware reads are parameters too.
--
-- Not modelled: time stamps and the expiry of keys, HTTP, a client that leaves a stream early, lists
-- that are ordered by time stamps, tag suggestions, the metadata of the OAuth server, the pages of the
-- login and the merge of two accounts, the start of the application, the HTTP clients of the LLM, of the embedding model and of the login providers, the connection pool, and
-- the interleaving of requests.
pub mod Base
pub mod Text
pub mod Chunking
pub mod Json
pub mod Session
pub mod OauthStore
pub mod Oauth
pub mod Memory
pub mod Distill
pub mod Search
pub mod Wikilink
pub mod Notes
pub mod Ingest
pub mod Pages
pub mod Accounts
pub mod Chat
pub mod Stream
pub mod Settings
pub mod Merging
pub mod Mcp
pub mod LlmText
pub mod Llm
pub mod Tests
