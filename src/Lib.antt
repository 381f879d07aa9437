-- ===== src/Lib.antt =====
-- Verification of Scraplify, a crawler of Georgian job, tender and property boards.
--
-- The program. Crawlers (src/adapters) fetch pages of four sources through a guarded HTTP client
-- (src/net) and write what they saw to a database (src/db). After a crawl the reconciliation
-- marks listings that were missed, and closes those missed often enough. Listings of several
-- sources are joined to opportunities (src/dedupe), and a retention job (src/retention) deletes
-- those that nobody needs any more. Property listings (src/realestate) have rules of their own for
-- leaving the catalogue. src/hermes tells the owner of outages.
-- src/outreach keeps drafts of applications and what was approved of them.
--
-- The files.
--   Base             the names that all modules share: Boolean tests and their meaning, lists
--                    measured by native numbers, sets and maps as lists in insertion order.
--   Listings/Model   src/domain/source-listing.ts, src/domain/run.ts, src/domain/incident.ts:
--                    the rows; recordParserIncident of src/db/ingest.ts.
--   Listings/Writers src/db/write-source-listing-revision.ts: the tables and their statements here,
--                    writeSourceListingRevision in Write, touchSourceListingSeen and
--                    quarantineSourceListing in Sightings. Rows has the lookups, Updates the update
--                    of the locked row, Locking the absence of errors, Retry the idempotence,
--                    Lifecycle and Steps the status edges.
--   Listings/Reconcile
--                    src/db/reconcile-source-listings.ts: closeMissingListings is
--                    close_missing_listings, expireOverdueListings is expire_overdue_listings.
--                    Rows has the effect on a row, Passes the repeated and the capped pass, Misses
--                    which runs may close, Streaks the number of misses.
--   PathPolicy       src/domain/source.ts: decodePathSafely is decode_path_safely, isPathAllowed
--                    is_path_allowed; Decoding has decodeURIComponent, Rules what is let through.
--   Net/IpPolicy     src/domain/ip-policy.ts, which src/net/ssrf-lookup.ts and
--                    src/net/http-fetcher.ts ask: parseIpv4 is parse_ipv4, classifyIpAddress is
--                    classify_ip_address and so on. Text has the string operations, Masks, Blocks,
--                    Ipv6Blocks, Parsing and Policy the comparison with intervals.
--   Net/Bits         JavaScript's `&` on numbers.
--   Net/RateLimiter  src/net/rate-limiter.ts: the closure's variables are a record; Runs has the
--                    events of a run, Spacing the distance of two requests.
--   Net/ProxyRecovery
--                    src/net/proxy-recovery.ts: the wait for a proxy and the retry after it.
--   Net/HttpFetcher  src/net/http-fetcher.ts: fetchUrl is fetch_url; BackOff and Body have
--                    backOffSpacingMs, readBodyWithLimit and decodeBody; Hops shows the use of the
--                    limiter, Redirects the end of the loop, Targets what is connected to.
--   Net/SsrfLookup   src/net/ssrf-lookup.ts: the DNS hook of that client.
--   Outreach/Model, Outreach/Transactions
--                    src/db/schema/outreach.ts and what the operations of
--                    src/outreach/draft-store.ts share.
--   Outreach/Content contentHash of src/outreach/draft-store.ts; Quoting and Canonical show that the
--                    text under the hash tells every field.
--   Outreach/Creation, Outreach/Drafts
--                    createDraft, editDraft, approveDraft, deleteDraft and approvalState; Rows,
--                    Outcomes, Approvals and Steps carry the invariant of the approvals, Binding,
--                    Approving and Conflicts what an approval is worth.
--   Hermes/Hook, Hermes/Delivery
--                    src/hermes/deliver.ts with listOutbox of src/hermes/outbox.ts: deliverOutbox is
--                    deliver_outbox; Keeping, Accounts, Ordering and Emptying follow the waiting
--                    events.
--   Hermes/ProxyWatch
--                    src/hermes/proxy-watch.ts: which outage the owner is told of.
--   Adapters/RunAnomalies
--                    src/adapters/run-anomalies.ts: the incidents of a run whose guards failed;
--                    OpenIncidents and Healing show how they accumulate and go.
--   Adapters/Refetch src/adapters/refetch.ts: which detail pages are fetched again; Fingerprints
--                    has the round trip of a recorded fingerprint, Canaries the random sample, whose
--                    draws are an argument.
--   RealEstate/Expiry
--                    src/realestate/expiry.ts: checks, marks, lapse and archive of property
--                    listings; Checks has what a check decides, Missed how it meets a full read,
--                    Archive what deleting keeps.
--   RealEstate/Streets, RealEstate/Grouping
--                    src/realestate/grouping.ts: streetKey is street_key, groupLookAlikes is
--                    group_look_alikes; Alike shows what the members of a group share, Once
--                    that no listing is in two, Groups has both.
--   CrawlSchedule    src/crawl-schedule.ts: the slots of a daily schedule.
--   Normalize/Titles, Normalize/Trigrams, Normalize/Applications
--                    src/normalize/text.ts and src/normalize/organization.ts: the keys of titles,
--                    employers and contacts, and the similarity of titles, kept as a fraction.
--   Dedupe/Scoring   src/dedupe/score-pair.ts: scorePair is score_pair; Order has its symmetry, Links
--                    what a link needs. A confidence and a threshold are in hundredths.
--   Dedupe/Resolution
--                    resolveStatus of src/dedupe/resolve-canonical.ts; Precedence has its meaning.
--   Retention/Clusters
--                    closeOverClusters of src/retention/eligibility.ts; Closure, Rounds and Greatest
--                    show what it computes and that it ends.
--
-- State and errors. A table is a list of rows, UPDATE … WHERE a map over it, and a transaction a
-- function from tables to tables or an error; FOR UPDATE lets transactions on one listing happen
-- one after the other, so a sequence of calls is a sequence of functions. Instants are milliseconds
-- since the epoch. An exception is a constructor of the result. A random id is an argument.
--
-- Loops and bounds. The source's own limits, 10,000 rounds of the retention closure, 5 rounds of
-- decoding and the number of redirects, are kept; below 10,000 the number of candidates is shown to
-- be enough, and the fuel of the redirect loop, two more than its limit, never runs out. The wait
-- for a proxy runs over an explicit list of rounds, the sender of events over a list of the batches
-- of files that arrive before each listing. Everything else is structural recursion. IPv4 addresses
-- are 32-bit and the arithmetic wraps; IPv6 addresses are below 2 ^ 128. Quotients and decimal
-- numbers that are only compared are kept exact, as fractions, hundredths or cents.
--
-- Not modelled. The page parsers (calls of an HTML library), read-only SQL, the web application and
-- its framework, embedding models, migrations, deployment. Of the tables, the columns that no rule
-- reads are left out.
pub mod Adapters
pub mod Base
pub mod CrawlSchedule
pub mod Dedupe
pub mod Hermes
pub mod Listings
pub mod Net
pub mod Normalize
pub mod PathPolicy
pub mod RealEstate
pub mod Retention
pub mod Outreach
