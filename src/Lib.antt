-- ===== src/Lib.antt =====
-- hr is a proxy in front of the OpenAI and Anthropic APIs that replaces long tool outputs in
-- requests by markers, keeps the originals in a content-addressed store, and gives them back on
-- request.
--
-- A request comes in by src/proxy.rs, which classifies its path (Proxy/Route), decides what becomes
-- of it (Proxy/Http, with Prepare and Buffer for a request that is compressed), decides which
-- headers go on (Proxy/Headers, with its child Response for the headers of answers, and
-- Proxy/Base64) and asks the session trackers of src/session.rs
-- (Session) how many messages are frozen, by ids and token estimates read from the body
-- (Session/Ids, Session/Estimates). src/compression.rs plans the strings that may be compressed,
-- over borrowed views of the request (Compress/Views, Compress/Plan, with Compress/Plan/Anthropic
-- and Compress/Plan/OpenAi for the shapes of requests); each goes through three gates and into the
-- store (Compress), and the markers are spliced into the request's bytes (Splice). The tools of a
-- request are sorted and get the retrieval tool, and a key for the provider's cache is put in, as
-- splices too (Compress/Tools, Compress/CacheKey); Compress/Request runs all of this over a
-- request. The store, its SQLite implementation and the expansion of markers are src/ccr.rs (Ccr).
-- A streamed answer is framed and read by src/sse.rs (Sse/Framer, Sse/Stream), which feeds the
-- usage into the counters of src/stats.rs (Stats) and back into the trackers. The contexts of
-- Anthropic batches (Proxy/Batches) and the retrieval endpoints (Proxy/Retrieve) are in
-- src/proxy.rs too, and so is what the proxy does where a model calls its retrieval tool: it strips
-- or answers the calls and sends the conversation on (Proxy/Continuation and its child Rounds), for
-- a single response (Proxy/Forward) and for the results of a batch (Proxy/BatchResults). Tokens has
-- the token estimates of src/compression.rs, Json the JSON values the program reads, Result the
-- results of src/lib.rs, and Prelude what all share.
--
-- A function of the source is a function of the same name here, on explicit state: the trackers,
-- the counters, the store and the batch contexts are arguments and results. A method that takes a
-- lock holds it throughout, so it is one step. Readings of the clock are arguments. A text is the
-- list of its scalar values and a body the list of its bytes; `u64` counters wrap or saturate where
-- the source does. The only fuel is that of the framer, at most one more than the length of its
-- buffer, which is enough as every round takes a terminator of at least two bytes off it. The
-- rounds of a continuation are counted down from MAX_CCR_CONTINUATION_ROUNDS, which is 3. Every
-- other loop is structural recursion.
--
-- SHA-256, SQLite, the regular expression engine, the JSON parser and serializer, Unicode lower
-- case and the conversion of header values to text are not part of the repository: they are
-- arguments, with what is relied on of SHA-256, SQLite and the parser's borrowed values as named
-- laws (Ccr/Hash, Ccr/Sqlite, Compress/Views). The upstream of a continuation is a function of the
-- bodies it was sent.
--
-- Arithmetic on `usize` is that of 64 bits: the count of an assistant's characters wraps, as in a
-- release build, and a reversed span of a replacement is a panic, as in a build with overflow
-- checks.
--
-- Not modelled: the HTTP transport and the command line, which only pass on; the WebSocket
-- transport, with `maybe_compress_codex_response_create_frame`, which rewrites frames by the
-- compression of Compress/Request; `compress_only_handler`, which runs that on the body of its own
-- endpoint; the two statistics that are floats; and the end of `buffer_and_forward_known_json`, which
-- hands the request on to the forwarding function of its target, with `forward_buffered` among them.
pub mod Prelude
pub mod Json
pub mod Splice
pub mod Sse
pub mod Session
pub mod Stats
pub mod Result
pub mod Tokens
pub mod Ccr
pub mod Compress
pub mod Proxy
