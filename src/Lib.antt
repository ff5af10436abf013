-- ===== src/Lib.antt =====
-- FreeLink: the statistics, groups, routing rules, subscriptions and chains of the desktop client.
--
-- The program is a Qt client around a proxy core. This library models the parts of it that keep and
-- transform the user's data: the traffic statistics (what each server profile and each app sent and
-- received), the groups of server profiles with their repository, the subscriptions that fill them, the
-- routing profiles (the rules that the core's configuration is generated from, with their editors, their
-- import and their export) and the chains of outbounds in that configuration.
--
-- Traffic statistics. The looper credits deltas to the manager (src/stats/traffic/
-- TrafficStatsManager.cpp), which gathers them for the current minute and writes them to the tables of
-- the repository (src/database/TrafficStatsRepo.cpp) when the minute changes or on a flush. A
-- maintenance pass moves old minutes into hours and deletes old hours.
--   Stats/Table         rows with a primary key, and the upsert that adds to a row
--   Stats/Repo          the tables, the write methods (UpsertConfigMinuteBatch, UpsertAppMinuteBatch,
--                       UpsertConfigMeta, UpsertAppMeta, RollupMinuteToHour, PruneHour) and the two
--                       usage queries; Stats/Repo/Totals, Keys and Meta hold what is proved of them
--   Stats/Manager       AddConfigDelta, AddAppDelta, Flush, SnapshotConfigMeta, EnsureDirectMeta and
--                       runRollupOnce; Stats/Manager/Ledger, Calls, History and Invariant follow a
--                       byte through single calls and through histories of calls
--   Stats/Connections   the accounting and the speed samples of ConnectionLister::update and setSort
--                       (src/stats/connectionLister/connectionLister.cpp); Connections/Credits and
--                       Shares hold what is proved of the accounting
--   Stats/Looper        TrafficLooper::UpdateAll and the profiles that PersistTraffic saves
--                       (src/stats/traffic/TrafficLooper.cpp); Looper/Due and Mirror hold what is
--                       proved of a tick. Rates are over any arithmetic, the counts of a response
--                       are one list for both directions
--   Stats/Examples, PollExamples and LooperExamples are runs on small inputs
-- A QHash is a list of entries and a table is a list of rows, in the order of insertion. A write
-- method runs in one transaction, so a method that throws changes nothing. The mutex makes the calls
-- on the accumulators atomic; a history is a sequence of calls, each with the clock, the settings and
-- the failures that it meets. Byte counts and times are natural numbers: the program's 64-bit counters
-- hold more bytes than a connection moves, and its clock is after 1970.
--
-- Groups. A group is a list of profile ids that the user edits (src/database/entities/Group.cpp).
--   Groups              AddProfile, AddProfileBatch, RemoveProfile, RemoveProfileBatch, SwapProfiles and
--                       EmplaceProfile; Groups/Positions, Unique and Examples
--
-- Routing. A routing profile holds rules; each rule has conditions, an action and an outbound.
--   Routing/Attribute   the names of the editor's attributes
--   Routing/RuleType    the kinds of rules and the reserved outbounds (include/database/entities/
--                       RouteRule.h), their texts and tokens
--   Routing/Rule        the rule; Rule/Values is get_current_value_string, get_current_value_bool and
--                       set_field_value, Rule/Tabs is is_attribute_at_default, clear_attribute_value and
--                       ensure_ui_visible_attribute_tabs_seeded (src/database/entities/RouteRule.cpp);
--                       Rule/Editing, Clearing and Seeding hold what is proved of them
--   Routing/RuleJson    get_rule_json, isEmpty and to_share_json; RuleJson/Entries and Emptiness
--   Routing/Profile     the profile, its copies and the default one (src/database/entities/
--                       RouteProfile.cpp, as are all the following)
--   Routing/Import      parse_rule_object and parseJsonArray; Import/Tidy, Steps, Runs and RoundTrip follow a
--                       shared rule through them
--   Routing/Raw         the outbound numbers in raw routes: collected, translated to tags, looked up by
--                       name on import; Raw/Collect, Remap, Landing
--   Routing/SimpleRules the simple rules as lines of text: GetSimpleRules, UpdateSimpleRules and what
--                       they call; SimpleRules/Retyping, Emptying, Frame, Lines, Kinds and Complaints
--   Routing/Generate    get_route_rules, get_used_outbounds, get_direct_sites and the like;
--                       Generate/RouteRules and Outbounds
--   Routing/Share       ToShareObject, ToShareLink and FromShareInput; Share/Rules, Names, RoundTrip
--   Routing/RemoteLink  FromRemoteRoutesLink
--   Routing/Profiles    what the routing code asks of the profiles repository, an interface
--   Routing/Examples, SimpleRuleExamples, GenerateExamples and SharingExamples are runs on small inputs
--
-- Subscriptions. The text of a subscription becomes profiles, which are merged into its group
-- (src/configs/sub/GroupUpdater.cpp).
--   Subscription/Filter ProfileFilter (src/database/entities/Profile.cpp); Filter/Uniq
--   Subscription/Merge  the end of GroupUpdater::Update: the order of the group and the profiles to
--                       delete; Merge/Order
--   Subscription/Disect JsonEndIdx and Disect; Disect/Pieces
--   Subscription/Kinds  getSingBoxSubType, getXraySubType and normalizeXrayVlessForParse
--   Subscription/Raw    RawUpdater: update, updateSingBox, updateXray, updateSIP008; Raw/Ends and
--                       Schemes. The parsers of the protocols are the record Parsers
--   Subscription/Examples   runs on small inputs
-- Disect runs on fuel above the number of characters, update on fuel above twice that number and one;
-- both are proved to come to their end with it.
--
-- Repositories. The repository of groups keeps the objects that it has handed out in memory, over a table
-- (src/database/GroupsRepo.cpp).
--   Repos/Groups        Group, the row of a group, AddGroup, GetGroup, Save and DeleteGroup. Groups/Rows is
--                       the row of a group read back; Groups/Shelf the groups as the program sees them
--                       and the specification, a map from ids to groups; Groups/Fetching, Placing,
--                       Represents, Removing and Refines take one to the other; Groups/Examples
-- A std::shared_ptr is an index into the list of all objects made. An edit writes to the object that
-- the program holds. Statements of the database succeed, so that id 0, for one that fails, is never
-- given; the text of a list of numbers is read back as that list (IntLists). What a group has in memory
-- only is left out, as are the times in a row.
--
-- Configuration. The section of outbounds (src/configs/generate.cpp).
--   Config/Context      what the build reads and writes (include/configs/generate.h), and a profile with
--                       what its outbound answers to Build and BuildXray
--   Config/Hops         entIDListtoEntList and the parts of a chain; Hops/Order
--   Config/Chain        buildSingboxChain and buildXrayChain; Chain/Links
--   Config/Outbounds    buildOutboundChain; Outbounds/Marks and Bridges
--   Config/Section      buildOutboundsSection; Section/Pairing
--   Config/Prerequisites  the outbounds that a routing profile needs (CalculatePrerequisities);
--                       Prerequisites/Points, Presence and Tags
--   Config/Examples     runs on small inputs
-- The ports, secrets and hosts that a chain draws are arguments (Draws), as are the profiles and the
-- text of a number (World). A traffic group lists the ids of its profiles. A custom outbound keeps its
-- bridge in the hop. The line that is logged is left out.
--
-- Common holds the shared names, tests and identifiers, Text the texts as sequences of characters, Json
-- the values of QJsonValue. Qt is the interface to the text functions of Qt that have no definition
-- here (trimmed, toInt, number, URLs); Codec in Routing/Share is the one to JSON texts, base64 and
-- deep links. A JSON object is a list of keys in the order of insertion, where Qt sorts them; only the
-- order of warnings depends on it. All numbers in JSON are integers, since the code reads them by toInt.
-- A read of value[0] of an empty list is `none`.
--
-- All other loops run over a list or a JSON value and are structural recursion here, without fuel and
-- without a bound on sizes.
--
-- Not modelled: the user interface (src/ui), the core and its RPC (core, src/api), the process and
-- system layers (src/sys), the settings, the tab order of groups and the repositories of profiles and
-- routes (src/database), the other sections of the configuration and the parsers and builders of
-- outbounds (src/configs), the traffic looper's set-up and thread and the table of connections
-- (src/stats), the sorting of groups, and the third-party libraries. The rollup thread is the call
-- `maintains` of a history. The series queries of the statistics change nothing and are left out.
pub mod Common
pub mod Text
pub mod Qt
pub mod Json
pub mod Stats
pub mod Subscription
pub mod Groups
pub mod Routing
pub mod Config
pub mod Repos
