-- ===== src/Lib.antt =====
-- myFiBase: a verification library for the API server of the captive-portal hotspot billing platform
-- (api/).
--
-- An operator sells WiFi at a location: a customer pays by mobile money, by voucher or in cash, and
-- gets a session, that is rows in the RADIUS tables and keys in Redis. The platform keeps a commission
-- of mobile-money revenue, a referring agent earns a share of it, and operators and agents withdraw
-- what is left by payouts that an admin reviews. The parts interact through the database and Redis
-- only: the handlers below api/internal/handlers are functions of both.
--
-- Which file models which part:
--   Base, Base/*     names and helpers: tests, lists, Go's `int` with wrap-around (Int), keyed tables
--                    (Table), equality as an interface (Equal)
--   Text             functions of the package strings
--   Sql, Sql/*       the SQL statements as functions on a table, the list of its rows; primary
--                    keys, joins, sums
--   Http             the JSON envelope (respond, respondError of handlers/handlers.go)
--   Db, Db/Sample    the tables of api/db/migrations, and a database without rows
--   Float64, Float64/Rounding
--                    Go's `float64`: conversion, product, comparison with 0 and 1
--   Money, Money/*   handlers/money.go
--   Payout, Payout/* handlers/payout.go: balance, requests, the admin's queue
--   Cache, Cache/*   Redis as an interface with laws, and one in memory
--   Sessions, Sessions/*
--                    handlers/payment.go: plans, the rows that a session, a payment and a commission write
--   Webhook, Webhook/*
--                    handlers/payment.go: the gateway's webhook and the job that grants a paid session
--   Checkout, Checkout/*
--                    handlers/payment.go: start and status of a payment, vouchers, the end of a session
--   AgentPayouts, AgentPayouts/*
--                    handlers/agent.go, handlers/admin.go: payouts of referring agents
--   Radius, Radius/* radius/disconnect.go: Disconnect-Requests and the responses to them
--   Accounts, Accounts/*
--                    handlers/auth.go, handlers/agent.go: registration; handlers/admin.go,
--                    handlers/operator.go: reviews, accounts that an admin makes, profiles
--   Login, Login/*   handlers/auth.go: the sign-in and its lockout
--   Middleware, Middleware/*
--                    middleware/auth.go, middleware/ipallow.go: tokens, roles, source addresses
--   Server, Server/* server/server.go: the routes with what guards them, CORS
--   Config           config/config.go
--   Operator, Operator/*
--                    handlers/operator.go: sessions, locations, plans, voucher batches
--   Reaper, Reaper/* handlers/handlers.go: the end of overdue sessions
--   AccessControl, AccessControl/*
--                    who may go online, over the handlers that write the RADIUS rows: a map of permits
--   Live             handlers/disconnect.go: the end of live sessions on the routers
--   Devices, Devices/*
--                    handlers/device.go: routers and their RADIUS clients
--   Portal           handlers/portal.go: the description of a plan, the status of a session
--   Listings, Listings/*
--                    handlers/operator.go, payout.go, agent.go, admin.go, portal.go, auth.go: the
--                    read-only lists, dashboards and the statement of an operator
--
-- How state and operations correspond: a handler is a function of the same name in snake_case. It takes
-- the database, the decoded body (`none` where decoding fails) and what the environment supplies (the
-- claims of the caller, the drawn uuid, the time in seconds), and it gives the answer with the database
-- afterwards. Where the code tests or ignores the error of a statement, the parameter `ok` (or
-- `reached`) says which statements succeed, that is reach the database with values that fit its columns;
-- the i-th statement of the handler is `ok i`.
--
-- Bounds and fuel: the parser of a NAK's attributes takes the number of bytes as fuel, of which a round
-- takes at least two off. `ulp` of Float64 takes fuel n + 1 for a number n that is halved in each round, which
-- is enough (lt-ulp). An `int` is an integer with wrap-around at 2^63; a `float64` has 53 bits, ties to
-- even, and no bounds on its exponent, which does not change any `int` that is computed from it. What
-- Go leaves open, the conversion of a value that does not fit to an `int`, is the parameter
-- `unspecified`. strconv.ParseFloat is the parameter `parse_float`. Texts that change their case are
-- ASCII.
--
-- Packages that the code calls (bcrypt, JWT, net, crypto/rand, strings.ToLower) are parameters: records
-- of functions, with a record of laws where a theorem relies on what a package documents (IsJwt,
-- IsRedis, IsCounting). The duration, the price and the speeds
-- of a plan, in the forms and in the rows, are natural numbers, and the quantity of a batch is one:
-- nothing is said of a database in which a negative number was written to a plan, which UpdatePlan does not
-- rule out, nor of a plan whose duration is NULL, which no operation writes. The length of a text (len) is
-- the number of its bytes, as in Go.
--
-- A time that the clock of the database fills (created_at, started_at, confirmed_at), the octets that
-- FreeRADIUS counts and the order of an ORDER BY are parameters of the lists: functions of a row or of
-- the rows.
--
-- Not modelled: the lists and the status of routers and the queue of registrations (queries of columns that
-- no other part reads), page templates, router scripts and WireGuard key generation, logging, and the set-up of clients; PROJECT.json lists each with its reason.
pub mod Base
pub mod Sql
pub mod Http
pub mod Db
pub mod Float64
pub mod Text
pub mod Money
pub mod Payout
pub mod Cache
pub mod Sessions
pub mod Webhook
pub mod Checkout
pub mod Radius
pub mod AgentPayouts
pub mod Accounts
pub mod Login
pub mod Middleware
pub mod Config
pub mod Server
pub mod Operator
pub mod Reaper
pub mod Live
pub mod AccessControl
pub mod Devices
pub mod Portal
pub mod Listings
