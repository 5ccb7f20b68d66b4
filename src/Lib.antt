-- ===== src/Lib.antt =====
-- tflw-tests: the tooling that drives and grades tflw, the shop that its tests run against, and what
-- makes them correct.
--
-- The repository is a regression suite for tflw. Its scripts bring up stacks of services, run
-- phases of tests against a build of tflw, and grade what comes back. Modelled are the logic of
-- those scripts, the console of the administrators, and the services of the shop: orders, cart,
-- fulfilment, stock, help desk and sign-in. Child processes, the file system, the network and git
-- are parameters, and so is, for the console, the API behind it.
--
-- Conventions. A text of the source is a list of code units (`Text`), a JavaScript object or `Map`
-- keyed by strings is an insertion-ordered association list (`Map`), and a message is the data that
-- its wording interpolates. `undefined` and `null` are `none`. A loop is structural, or takes fuel
-- that a theorem proves to be enough.
--
-- Modules, and the code that they model (paths from the repository's root):
-- - Prelude and its children: tests on numbers, lists, texts, maps, decimal numerals, sorting.
-- - Argv: scripts/lib/argv.mjs. `parse_argv` is parseArgv, `round` one pass of its loop;
--   Argv/Grammar describes the accepted lines, Argv/Accepts proves the parse against it. The
--   fuel is one more than the number of tokens, and every round takes a token at least.
-- - Stack: scripts/lib/stack-ports.mjs. `stack_offset`, `ports`, `urls` and `stack_env` are the
--   functions of those names. Number(raw) of the language is a parameter.
-- - Lsp.Framing: the data handler and `send` of scripts/lib/lsp-client.mjs over bytes. `next`
--   is one pass of the loop, `scan` the loop, `on_data` the handler. The fuel is one more than
--   the number of bytes, and every frame takes four.
-- - Provenance: scripts/lib/tflw-provenance.mjs. `grade_provenance` is gradeProvenance with
--   git's answers as the record `Git`; `announce_provenance` and `staleness_banner` are what is
--   printed.
-- - Resolve: scripts/lib/tflw-bin.mjs. `resolve_tflw` is resolveTflw with the machine as the
--   record `World`; `vendor_provenance`, `packed_from_problem` and `env_override` are the
--   checks it composes.
-- - Census.Patch: editsOf and anchorState of scripts/lib/mutations.mjs, applyMutation and
--   revertMutation of scripts/discover-mutation-kills.mjs. A tree is a map from path to source,
--   and the journal of the sibling checkout is the record `Journal`.
-- - Census.Detail: scripts/lib/kill-detail.mjs and runRoster, on the rows and clauses that the
--   regular expressions match.
-- - Census.Matrix: the append-only file of verdicts of scripts/discover-mutation-kills.mjs,
--   with JSON as a parameter.
-- - Census.Sweep: the main loop of scripts/discover-mutation-kills.mjs. `sweep_all` is the
--   sweep, `sweep_one` one candidate, `judge` the verdict, `control_run` the control,
--   `close_window` the closing of a window. What a process answers is a function of the record
--   `World`, of the tree and a clock; process.exit is `stopped`. Its children are the theorems.
-- - Admin.Client: webV2/admin/src/apiClient.js. A handler takes the requests sent so far to its
--   result and the requests after it; the API is a function `Backend` of these.
-- - Admin.Routes: the paths of the console as the data type `Route`, with their guards
--   `verifies_csrf` and `requires_admin`. Admin.Handlers: the handlers of
--   webV2/admin/src/routes behind the login, as one function `act`.
-- - Admin.Server: webV2/admin/src/server.js, the middleware and routes/auth.js. `serve` is one
--   request of a browser, `serve_all` a sequence of them.
-- - Regression.Archive: `check_archive` is checkArchive of scripts/lib/archive-check.mjs on the
--   directories in order. Regression.Phases: the main loop and the exit status of
--   scripts/regression.mjs, with passedPhasesWithFailingJunit of
--   scripts/lib/regression-shared.mjs.
-- - Contention: `decide` and `read_box` of scripts/lib/box-contention.mjs; the sweep of Census
--   takes the answer of the gate from its `World`.
-- - Shop.Tables and Shop.Keys: tables of the services as lists of rows in the order of their
--   creation, with findOne and UPDATE ... WHERE. A request is one step, and one that fails
--   leaves the tables as they were; the identifiers that a database generates and the clock are
--   arguments.
-- - Shop.Orgs: apiV2/src/orgs/orgs.service.ts. Shop.Tickets: the help desk of
--   apiV2/src/tickets. `handle` is one request with the roles of its route, `sweep` one tick of
--   the sweep; Tickets/Workflow is the relation of all their sequences.
-- - Shop.Inventory: the services of inventory-service/src. `reserve` and `restock` are the
--   operations of those names; Inventory/Counters is the specification, one counter for each
--   product, and Inventory/Refines and Inventory/Restocks prove the rows against it.
-- - Shop.Orders: apiV2/src/orders/orders.service.ts. `create` is the creation of an order with
--   its transaction `persist_order_atomically`; after the commit `client_reserve` asks
--   Shop.Inventory, over a network that may lose the request or the answer. Shop.Cart:
--   apiV2/src/cart/cart.service.ts, whose `checkout` ends in `create`. Ids are numbers, money
--   is whole cents, and the rounding of a percentage is a parameter.
-- - Shop.Fulfilment: apiV2/src/jobs/jobs.service.ts and
--   apiV2/src/return-requests/return-requests.service.ts. A continuation is a list of tasks
--   that wait for the end of a delay; Fulfilment/Lifecycle is the relation of all sequences of
--   requests and ends of delays.
-- - Shop.Oauth: apiV2/src/oauth/oauth-code.service.ts. `decide`, `exchange` and `refresh` are
--   its requests; Oauth/Single runs sequences of them.
--
-- Not modelled: of the services under apiV2 the products, reviews, accounts and the other OAuth
-- grants, the storefront and the views, the .tflw test corpora, the acceptance corpora and
-- benchmarks, the self-tests of the libraries, the scripts that only start processes and print,
-- and, of scripts/lib, the reach of the plants, the journeys, the performance bands and the
-- tables of plants and constructs.
mod Prelude
pub mod Argv
pub mod Stack
pub mod Lsp
pub mod Provenance
pub mod Resolve
pub mod Census
pub mod Admin
pub mod Regression
pub mod Contention
pub mod Shop
