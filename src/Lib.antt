-- ===== src/Lib.antt =====
-- Models of the JOUST tournament backend, and the theorems about them.
--
-- The backend runs tournaments: it seeds the entrants into a bracket or pairs them round by round,
-- takes the results of the matches from players and organizers, keeps statistics, and ranks the
-- players. These parts are modelled:
--
-- - Seeding (src/Formats/bracket-seeding.helper.ts; `nextPowerOfTwo` and `generateBracket` of
--   src/Formats/formats.service.ts): the order of the seeds in a bracket, the shuffle, the bracket
--   size, the slots and the rounds of pairings built on them.
-- - Swiss (`buildSwissMatchHistory`, `buildSwissPairings` and the pairing of
--   `generateNextSwissRound` in src/Formats/formats.service.ts): who met whom, who sits out, and
--   the greedy pairing by score.
-- - Stats (src/tournament/match/match-stats.helper.ts, and `creditWalkoverWin` of
--   src/tournament/match/match.service.ts): what a completed match adds to the three tables of
--   statistics, and its reversal. The calls of `updateParticipant` that the code collects in a
--   `Promise.all` run one after the other; they touch different users.
-- - Leaderboard (`computeTournamentRecords`, `sortEntries`, `rankChanged`, `tiebreakCriterion` and
--   the ranks of src/leaderboard/leaderboard.service.ts): the records derived from the matches, in
--   Leaderboard/Records; the comparison that sorts the standings, the ranks and the named
--   tiebreaker, in Leaderboard/Standings, over an interface of the numbers. The strength of the
--   opponents (`computeOpponentTiebreakers`) is in Leaderboard/Opponents, with fractions in the place
--   of floating-point numbers. Leaderboard/Board has the boards themselves (`getLeaderboard`,
--   `getGlobalLeaderboard`), from the records and the percentages to the sorted rows with ranks.
-- - Match (src/tournament/match/match.service.ts with match-completion.helper.ts and
--   scoring-permission.helper.ts beside it, and src/guards/tournament-access.util.ts): who may score
--   a match, and every operation on a result. An exception is a value of `Refusal`; the guards of a
--   handler are a list in the order of the code. Match/Service has the results, Match/Lifecycle the
--   reports taken back, walkovers, byes, advancement and starts, Match/Reset `resetMatch`, and
--   Match/Requests the requests in any order, where a request that is refused leaves the rows as they
--   were. `FormatsService.handleMatchCompletion`, which the service calls back after a completion, is
--   an argument of the operations that call it.
-- - Completion (`handleMatchCompletion` of src/Formats/formats.service.ts and what it calls;
--   `createMatch` and `linkMatches` of src/tournament/match/match.service.ts): what follows the
--   completion of a match, and the rounds a tournament begins with (`initializeTournamentFormat`):
--   Completion/Double the double elimination, Completion/Start the others and `resolveTie`.
--   Completion/Build creates the rounds of a bracket and the next Swiss round,
--   Completion/Checks has the checks that complete a round or the tournament, Completion/Step the
--   walk through the bracket. It stands in for the argument of the match service, whose operations
--   it calls in turn. The leaderboard is a function of the world.
-- - Launch (`updateStatus`, `startTournament`, `isFirstRoundComplete`, `generateBracket` and
--   `deleteTournament` of src/tournament/tournament.service.ts): the status of a tournament, its
--   start, the preview of its bracket and its deletion. Launch/Drawn compares the preview with the
--   rows that Completion writes.
-- - Roster (src/tournament/participant/participant.service.ts): who takes part. Roster.antt has the
--   rows and `joinTournament`, Roster/Registration guests, invitations, leaving and seeding,
--   Roster/Play forfeits and replacements, which work on the matches and call the bracket code.
--   Roster/Valid/Steps has the operations as steps; the transactions of a join are steps of their own,
--   so that anything may happen between the checks and the transaction. A serializable transaction
--   is one step.
-- - Guests (src/user/guest-lifecycle.ts; `purgeExpiredGuests` and `convertGuest` of
--   src/auth/auth.service.ts): the accounts of guests, their retirement and registration.
-- - Presets (src/tournament-format/tournament-format.service.ts; of
--   src/tournament/tournament.service.ts the calls that write the rules of a tournament, in
--   Presets/Service): the presets, the rules that a tournament reads from its preset or from its own
--   copy, and the copying at its start. `initializeTournamentFormat` alone goes by the preset itself:
--   its bracket type is `drawn_system`, and `preset_system` of Launch.
-- - Gallery (src/content/gallery.service.ts; the calls of src/content/moderation.service.ts on its
--   images are in Gallery/Moderation): uploads, reports, removals with the thirty days in which they
--   can be undone, and the purge, over the rows of the images and the reports. The unique indexes of
--   the database are guards of the calls that could break them.
-- - Slugs (src/user/user-slug.util.ts): the public handles, over lists of characters. The search takes
--   fuel; two candidates more than there are slugs are enough.
-- - Codes (src/auth/two-factor.service.ts): the codes sent by mail, recovery codes, trusted devices.
--   Requests of one user follow each other; hashes and `bcrypt.compare` are arguments.
-- - Staff (src/organizer/organizer.service.ts): the invitations of co-organizers.
-- - Placement (`computeStructuralPlacements` of src/leaderboard/leaderboard.service.ts and
--   `resolveFinalPlacements` of src/tournament/tournament.service.ts): who finished where.
--   `Array.sort` is an insertion sort, which is stable as it is. Closing (`completeTournament` of the
--   latter): the counters, points and placements that the end of a tournament awards; the tables of
--   the whole and of one game get the same writes.
-- - Config (src/Formats/format-config.helper.ts): `resolveConfig`, and in Config/Raw the stored form
--   with the phases it merges. The other
--   parts take a resolved configuration as an argument.
-- - Formats: the enumerations the parts share, with `systemAllowsDraw` and the rule for points.
--
-- The seeding builds the brackets whose matches the match service completes; each completion is
-- credited by the statistics, from which the standings and the next Swiss pairings are computed.
-- The roster feeds the start, its forfeits complete matches, and the guests in it keep their history
-- until they are registered.
--
-- Identifiers are numbers (the code only compares them), a column that may be null is an `Option`,
-- and a table or a JavaScript `Map` is an association list or a function. Point values are whole
-- numbers of either sign, and win rates are left as quotients. The random draws of the shuffle are a
-- function of the index. The loops `while (order.length < size)` and `while (power < n)` take the
-- number they work towards as fuel: their variable at least doubles in each round from 1, so the
-- loop always ends by its own test, and the loop of `generateBracket` takes the length of the field,
-- which at least halves. The recursion of `handleMatchCompletion` with the match service and with
-- `settleLosersStarvation` takes fuel, and a call without fuel is the refusal `out_of_fuel`; in an
-- elimination and in a round robin one unit more than the open matches is enough. A Swiss round may
-- consist of a bye, whose completion creates the next one, up to the configured number of rounds.
--
-- Not modelled: requests, sessions and passwords, notifications and the real-time channel with the
-- timers of the matches; the snapshots of names at the end of a tournament, and the names shown on the
-- matches; lists and pages that only read rows (the rounds, the lists of tournaments, the queue of the
-- moderators); the catalog of the fields of a configuration, which is a table of texts; and the parts of
-- the backend outside tournaments (builds, store, backup, settings), which are edits of single rows and
-- input and output.
pub mod Prelude
pub mod Seeding
pub mod Formats
pub mod Swiss
pub mod Stats
pub mod Leaderboard
pub mod Match
pub mod Completion
pub mod Placement
pub mod Closing
pub mod Launch
pub mod Config
pub mod Presets
pub mod Gallery
pub mod Guests
pub mod Roster
pub mod Slugs
pub mod Codes
pub mod Staff
pub mod Tests
