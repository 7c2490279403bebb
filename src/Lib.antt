-- ===== src/Lib.antt =====
-- Verification of the chat backend: a Django application with a WebSocket chat in front of an AI
-- service, prepaid credits that are bought through ECPay, and users with JSON Web Tokens.
--
-- The parts, each with the files that model it (Python files below backend/apps):
--
--   Payments         payments/models.py, services.py and ecpay.py. Payments.Services has the functions of
--                    services.py on tables; Payments.Ecpay the signature of the callback, Payments.ItemName
--                    and Payments.Form the form that sends the payer to ECPay; Payments.TradeNo
--                    the numbers of orders; Payments.Endpoints api.py and views.py,
--                    and Payments.Responses schemas.py.
--   Config           the settings of backend/config/settings and the WebSocket application of
--                    backend/config/asgi.py.
--   Core.RateLimit   core/ratelimit.py, with the Redis path and the fallback as two functions, and the
--                    kept connection in Connection.
--   Core.Errors      core/exceptions.py and the handlers of backend/config/urls.py.
--   Core.Health      core/api.py.
--   Core.Middleware  core/middleware.py with the context variables of core/log_config.py.
--   Core.Logging     the log lines of core/log_config.py.
--   Users            users/jwt_utils.py, auth.py, services.py, the endpoints of api.py and the
--                    password rules of schemas.py, in Tokens, Authentication, Endpoints and
--                    Registration.
--   Chat             chat/models.py, services.py and schemas.py in Conversations, Pages, Listing and
--                    History; chat/api.py in Endpoints, the response schemas in Responses;
--                    chat/ai/tokenizer.py in Tokens; chat/ai/client.py in Client, its singleton in
--                    Client.Singleton; chat/consumers.py in Protocol, Session, Exchange, Summary and
--                    Consumer, the login with its awaits in Awaits, the exchange with its awaits in
--                    Turns; chat/middleware.py in Middleware.
--   Unused           backend/scripts/check_unused_functions.py: Syntax has the trees, Extract what is
--                    taken from one file, Report what is reported of all.
--   Platform         what all of them use of the libraries below: tables, the cache with timeouts, Redis,
--                    case conversion, tokens. Each is a record of operations with the laws that are used,
--                    beside a concrete instance.
--
-- What is called outside the repository is a parameter: the end of a transaction by an exception
-- is `rollback` of Payments.Services, with the writes of the block up to the exception as its
-- argument, and ast.walk is `walk` of Unused.Extract, both with what their documentation says as
-- laws.
--
-- A function of the program keeps its name. It takes the tables and the limiter it changes and
-- returns them; one that raises returns a Result, and one that a caller sees as an absent value
-- an Option. A branch of a function that calls another service is a function of its own by
-- clauses, named for what it does. The consumer reads a login through the limiter
-- (check_ws_rate_limit), the conversations (get_conversation), the history and the client
-- (stream_chat), as in the code.
--
-- Times are natural numbers of microseconds, token expiries and limits whole seconds; ids are
-- numbers, texts lists of code points, temperatures thousandths. The id of an order is given by
-- its trade number, which is unique. The times of the limiter are compared without a difference,
-- which may be negative. Loops are structural, but for the client that walks the pages, which has
-- as much fuel as there are rows and one more. The loop of the trade number runs on the eight
-- places that the number has.
--
-- Not modelled: the writing of log lines, which is output; the settings that the framework alone
-- reads, and how pydantic reads the environment; the routes; the admin pages and the migrations,
-- which are declarations for the framework or generated; and the frontend. In Consumer one call
-- of receive, one timeout, one heartbeat and one summary are atomic steps; summary tasks that
-- were overtaken are kept and end in any order. Chat.Awaits takes the steps between the awaits of
-- the login one by one, Chat.Turns those of the exchange, where a summary is written in one step.
-- A connection that fails while a frame is sent is left out. The exchange has no fuel: the
-- relation Runs goes on from await to await, and its end is a theorem.
pub mod Prelude
pub mod Platform
pub mod Config
pub mod Core
pub mod Payments
pub mod Users
pub mod Chat
pub mod Unused
