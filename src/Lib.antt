-- ===== src/Lib.antt =====
-- Dev-Search: a crawler for developer documentation and an indexer, which share Redis, an object store and
-- a database.
--
-- The crawler takes jobs from a queue of URLs in Redis, fetches each page within the rate limit of its
-- domain, and drops pages that are nearly the same as one before. Jobs to parse go through a queue of the
-- same kind; a parsed page becomes a message on a Redis stream, from which the indexer takes it. A worker
-- runs each job or message and tells the queue or the stream how it ended.
--
-- Files:
-- - Prelude, Prelude/*: shared names; integers, bits and texts over the native numbers.
-- - Simhash: internal/scraper/deduplication/simhash.go. Shingles, SimHash, partitionHash, hammingDistance and
--   SimhashIndex with Add and IsNearDuplicate. The mutex makes each call one step, so calls follow each other.
--   Children: Distance and Index for the lookup, Contract and Separation for a run of lookups,
--   Fingerprint and Windows for the hash of a page.
-- - Scoring: internal/scraper/queues/score.go. ClassifyURL, ScoreDevURL, ScoreToPriority and ApplyAging.
-- - RateLimit: internal/scraper/scripts/rateLimter.go, and reserveDomainAccess of
--   internal/scraper/crawler/processes.go.
-- - Redis: the interface to the server, its operations and what is assumed of them. Redis/Memory has a server
--   that meets the assumptions.
-- - Queue: internal/scraper/queues/job.go and queue.go. Queue/Ops has the methods Enqueue, RequeueWithDelay,
--   Dequeue, CompleteJob, ProcessRetryJobs and ReapStaleProcessingJobs over that interface; Ready, Fail, Wake
--   and Reap say what they do.
-- - Worker: processTask and completeTask of internal/scraper/worker/worker.go, with the counters of
--   internal/scraper/stats/stats.go; Worker/Report has its FinalReport.
-- - Streams: internal/streams/message.go and stream.go. NewMsg, AddMsg, GetMsg and CompleteMessage over an
--   interface to a server with streams, which Streams/Memory meets; Streams/Setup has NewMsgStream.
-- - Indexer: internal/indexer/worker/worker.go (processMessage, completeMsgProcessing) and the counters and
--   humanDuration of internal/indexer/stats.go, with FinalReport in Indexer/Report. Indexer/Run has the
--   goroutines of Start, Stop and processMessages as small steps.
-- - Document: the stop words, tokenize, BuildIndex and stemmer of internal/indexer/indexDocument.go, and
--   internal/indexer/record.go. Document/Save has insertInvertedIndex over an interface to the database, which
--   Document/Memory meets, Document/Handler CreateAndStoreIndexedDocument of internal/indexer/processes.go, and
--   Document/Again and Document/Changed are on pages that come again.
-- - Normalizer: internal/scraper/normalizer. BaseNormalizer, GitNormalizer, DocsNormalizer and
--   RunNormalizationPipeline; Normalizer/Paths has Clean and Base of package path.
-- - Storage: internal/storage/minioStore.go over an interface to the object server, which Storage/Memory meets;
--   Storage/Names finds the object of a name.
-- - Cleaning: internal/scraper/deduplication/clean.go, and Tokenize of simhash.go.
-- - Crawler: internal/scraper/crawler/processes.go. Crawler has the metadata of a domain and robots.txt,
--   Crawler/Handlers FetchAndStoreRaw and processGithubRepo over one state of the index, the object store, the
--   parse queue and the keys of the domain; Errors has the texts that the crawl worker reads.
-- - Parsing: internal/scraper/parsing/parsing.go. Extract has extractHtml, extractMd and extractLinks, Links
--   the loop over the links with normalizePageURL and getUrlMeta, Handler ExtractTextAndStore; Parsing/Memory
--   meets the interface to the metadata of URLs; Errors has the texts that the worker reads.
-- - Program: cmd/scraper/main.go and cmd/indexer/main.go. Program has the seeds, the wiring and the two handlers
--   over the state that they share, Program/Boot how both programs start, and Program/Run the goroutines of
--   the scraper's workers, its timers and its stop as steps; Sound, Account, Stopped and Handover are on
--   what holds in every order of these steps.
--
-- How they meet: Crawler calls the rate limit, Cleaning, Simhash, Storage and Queue, and its errors are read by
-- Worker; Parsing reads the object that Crawler stored, adds a message to Streams, and puts new URLs, after
-- Normalizer and Scoring, into the queue that Worker takes jobs from. Program puts all of them together.
--
-- A function that reads the clock takes the time as an argument, and one that changes a store takes it and
-- gives the store after it. A time is a number of nanoseconds since the year 1, and a duration one of
-- nanoseconds. Stored JSON is the value that it stands for. Logging is left out.
--
-- Fuel: the loop of hammingDistance has 65 rounds, which the theorem on it shows to be enough for numbers of 64
-- bits, and a number is printed in decimal with 20 digits at most, which is enough for them too. All else is
-- structural recursion. A text is a list of code points where the program searches it.
--
-- Not modelled: the HTTP, HTML, Markdown, robots.txt, JSON and Base64 code of packages, which are parameters;
-- the clients of the servers and the schema of the database; the benchmark of SimHash; the rounding of floats in
-- the reports; and what happens inside a run of a handler between its calls, since a run of a handler is one
-- step, which takes place when it answers.
pub mod Cleaning
pub mod Crawler
pub mod Document
pub mod Indexer
pub mod Normalizer
pub mod Parsing
pub mod Prelude
pub mod Program
pub mod Queue
pub mod RateLimit
pub mod Redis
pub mod Scoring
pub mod Simhash
pub mod Storage
pub mod Streams
pub mod Worker
