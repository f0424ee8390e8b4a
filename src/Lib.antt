-- ===== src/Lib.antt =====
-- A model of the connector for Tenable Vulnerability Management (pkg/connector over pkg/client) and of
-- the mock server of its API (cmd/test-server).
--
-- The parts. The connector answers the SDK's calls: it lists users, groups, roles and permissions as
-- resources with their grants, grants and revokes, and creates and disables accounts, through the
-- methods of `TenableVMClient`. The client turns a method into a request with the API keys and reads
-- the answer. The mock server keeps the same objects in memory: it checks the keys, and its handlers
-- read the request, call methods of `State` and answer.
--
-- Prelude and its children: Boolean tests, slices, maps, and 64-bit `int` as an integer whose increment
--   wraps around. Strings has the functions of the package strings that the program calls, at the
--   separators it gives them. Json has what encoding/json makes of structs and their tags.
-- Server models cmd/test-server.
--   Types, State and its children are state.go: one function per method (CreateUser is create_user, and
--   so on), from the state to the result and the state after. The maps hold addresses and a memory for
--   each kind of object has the values, since the maps share their objects by pointers. A method holds
--   the mutex from its first line to its last, so it is one step.
--   Uuid is newDeterministicUUID, formatUUID and pad12. Seeds is seeds.go and NewState.
--   Keys is parseAPIKeys and the check of requireAPIKeys. Json and its children are the struct tags,
--   Json/Answers what writeJSON and writeError encode, and Json/Bodies how the handlers read bodies.
--   Handlers and its children are handlers.go and errors.go; Routes is newMux of main.go, Numbers is
--   about the numbers in paths.
--   Invariant and its children say when a state is well formed. Calls has sequences of methods,
--   Interleaving the critical sections of concurrent requests.
--   Lookup has the reading methods after CreateUser and DeleteUser.
-- Client models pkg/client: Types the objects of models.go and Json their tags; Helper client_helper.go;
--   Requests doRequest and getResourcesFromAPI, Header the X-ApiKeys header, Start NewClient and the
--   `New` of pkg/connector/connector.go, Operations the methods of client.go, Json/Transport how they
--   read answers, Json/Bodies what they send, Json/Assignment and Json/Status the roles and the status
--   of a user end to end. Http has what is used of net/url and of the SDK's HTTP client, as parameters.
--   Api is the interface that the connector takes, over an unknown world, and what is used of
--   github.com/google/uuid; Operations fills it. Action is a Go function with an error result: it
--   changes the world and gives a value or an error.
-- Connector models pkg/connector: Base is reEnableUserIfNeeded; Roles, Groups and Permissions are Grant
--   and Revoke of the builders, their children named Listing are List, Entitlements and Grants, and
--   Users is users.go without Delete. Sdk has what is used of the SDK to make resources: making one,
--   its id and its profile are parameters with laws, and a grant is what it is made of. ReadOnly is
--   about the requests of the listing, Users/Wire about the listing of the server's users.
--   Accounts is Delete of users.go and the handlers of actions.go. Credentials is isPasswordValid and
--   generateCredentials of helper.go, over the character classes of the package unicode and the SDK's
--   generator, which are parameters. Decimal is strconv.Itoa.
--   What the API does (RoleAnswers, GroupAnswers, Answers) is a named hypothesis, about the users, groups
--   and roles that it has: a group whose membership is fixed refuses changes. The tests have an API
--   that satisfies it.
--
-- Bounds. A user number is an `int`; uuids repeat after 2^48 numbers, so the theorems on many calls
-- allow for fewer than 2^48 - 1006 of them: the seeds end at 1006.
-- Itoa has 20 rounds for the at most 19 digits of an `int`, whose text `atoi` reads back.
--
-- Not modelled: the matching of paths by net/http, the characters of JSON, rate-limit annotations,
-- logging, the schema of the configuration, the command line, and the SDK. A nil slice and an empty one are
-- one value. An object of JSON has each key once, and keys are compared exactly.
-- A number of JSON is any integer; encoding/json reports an error for one outside 64 bits.
pub mod Prelude
pub mod Strings
pub mod Json
pub mod Server
pub mod Client
pub mod Connector
