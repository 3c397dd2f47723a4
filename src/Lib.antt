-- ===== src/Lib.antt =====
-- Tripvault's backend: the rules of trips and their documents (what a trip costs, who pays it, how a
-- document is read by day, what others see of it), and the state that the server keeps of sessions,
-- attempts, backups, storage and shared requests.
--
-- The backend (backend/internal) keeps trips with a document each: days, places and activities,
-- stays, transfers, legs between places, expenses and tracks with stops. The HTTP handlers and the
-- database read and write documents; the package `domain` holds the rules. These are functions on
-- values, which is why their models here are plain functions. Where the server keeps state, a section
-- under a lock or an SQL statement is one function on that state, and what others do in between is a
-- list of such steps, or a step relation.
--
-- Base holds what the parts share. Base/Int64 has the machine integers: an `int`, an `int64` or a
--   `Money` is its 64-bit pattern, a natural number below 2 ^ 64, and sums, differences and
--   products wrap around. Base/Errors has the error results and Base/Sort `sort.SliceStable`.
-- Domain has the entities, file by file as in backend/internal/domain: Kinds the string types,
--   Values the scalars, Records the structs of document.go, stop.go, track.go and expense.go,
--   Journeys those of leg.go, legsegment.go and transfer.go, Content those of trip.go and
--   translation.go, Roles the roles of trip.go, and
--   Costs the totals of costs. Domain/Samples is for the tests.
-- Money is money.go: `ParseMoney` is `parse_money`, `Money.String` is `print_money`.
-- The file Plan.antt has `DayItems` of plan.go, with the legs, expenses and stops of a
--   day, Plan/Schedule has `ScheduleDay`, and Plan/Nights `Nights` and
--   `AnchorAssignments`, on which Plan/Overnight and Plan/Marks prove; Plan/Order proves on `DayItems`.
-- Split is split.go: `normalizeSplit`, `SplitTotal`, `CheckCostSplit` and `ShareAmounts` in
--   Split.antt, `BuildBalances` and `settle` in Split/Balances.
-- Budget is budget.go: the entries in Budget/Entries, `BuildBudget` in Budget/Build, which calls
--   `day_items` of Plan for the days and `build_balances` of Split for the members.
-- Packing is packing.go: the checks in Packing.antt, `Merge` in Packing/Merge.
-- Quota is storagequota/quota.go: `Reserve` against what the stores measure, and in Quota/Turns the
--   operations that hold its lock one after the other.
-- Requests is requestwork/group.go: `Do` in its sections under the mutex, and in Requests/Sharing
--   the readers and goroutines that run them in any order.
-- Sessions is storage/postgres/sessions.go, the table of signed-in devices as a list of rows and its
--   statements as functions; Sessions/Statements has runs of them, as requests at once make them, and
--   Sessions/Between those that leave one session alone.
--   Auth is auth/service.go on that table: `Login`, `Refresh`, `Logout` and `Authenticate`.
-- Backups is backup/runner.go with `startRestore` of httpapi/restore.go: what `claim` and
--   `HoldForRestore` let in; Backups/Apart has the goroutines, in any order,
--   and Backups/Rotation `rotate`.
-- Polyline is polyline.go: `EncodePolyline` and `DecodePolyline`. Privacy is privacy.go: `Outside`,
--   with the loops of its parts, in the parent; its children prove.
-- Legs is leg.go: `ReconcileLegs` with the inputs of legs, and `SegmentEnds` of legsegment.go;
--   Legs/Needed has the pairs of neighbours of a document.
-- Share is share.go: `ShareLink` with `Normalize` and `Active`; `ForShareLink` of document.go is in
--   Share/Shown.
-- RateLimit is httpapi/ratelimit.go: `attemptLimiter`, `knownClients` and `signInLimits`, each
--   method that takes the lock being one step; its children prove, RateLimit/Remembered on runs of
--   the calls that sign-ins of all clients make.
--
-- A Go string is a list of code points, a pointer that may be nil an `Option`, a map from identifiers a
-- search for the entry that was stored last. A string type has its constants as constructors, with
-- `unset` for the empty string and `unknown` for any other. Identifiers and instants are natural
-- numbers; a floating-point number is its bit pattern, and the two rounded quotients that a budget
-- takes of such numbers are a parameter, `Rounding`.
--
-- The loop of `settle` is recursion on a bound, one round for each creditor and debtor; when it
-- runs out the result is `none`, and it never does for balances that add up. A number of a polyline has
-- 13 groups of five bits at most, and a line no more points than bytes. The loop of `Nights`
-- has one round for each day and one for its last test.
--
-- Not modelled: the handlers but for the start of a restore, the database but for the statements of
--   Sessions and Backups, files, mail, maps and PDFs, which are input and output;
-- the remaining rules of the package, which change texts, dates and lines of points.
pub mod Base
pub mod Domain
pub mod Money
pub mod Plan
pub mod Split
pub mod Budget
pub mod RateLimit
pub mod Quota
pub mod Requests
pub mod Packing
pub mod Sessions
pub mod Auth
pub mod Backups
pub mod Share
pub mod Polyline
pub mod Privacy
pub mod Legs
