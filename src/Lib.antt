-- ===== src/Lib.antt =====
-- Chart Solar: the service of https://github.com/ankaerith/chart-solar that audits solar proposals
-- and sells forecasts. This library models the parts of the backend that keep state, decide who
-- may see what or compute what a system is worth, and proves what makes them correct.
--
-- Parts and files. `Infra.Breaker` and `Infra.Retry` model backend/infra/retry.py: the circuit
-- breaker, the registry of breakers and the retry loop around a call of a vendor.
-- `Infra.Idempotency` models backend/infra/idempotency.py: the claim of an idempotency slot and
-- the ledger of Stripe events. `Infra.EventBus` models backend/infra/eventbus.py and
-- backend/domain/events.py. `Auth` models backend/services/auth_service.py: magic links and
-- sessions. `Entitlements` models backend/entitlements/features.py, `Entitlements.Gate`
-- backend/entitlements/guards.py, and `Entitlements.Ledger`
-- backend/services/entitlements_grants.py. `Stripe.Router` models
-- backend/services/stripe_webhook_router.py, and `Stripe.Webhook` composes the endpoint of
-- backend/api/stripe_webhook.py from the router, the ledger of events, the bus and the subscribers
-- of backend/services/entitlements_subscribers.py. `Audits` models
-- backend/services/audit_service.py over backend/db/audit_models.py, and `Audits.Routes` the
-- routes of backend/api/audits.py and backend/api/me.py over it. `Forecast` models the life of a
-- forecast job: `Forecast.Queue` backend/workers/queue.py, `Forecast.Api`
-- backend/services/forecast_service.py and backend/api/forecast.py, which claims its slot by
-- `Infra.Idempotency`, and `Forecast.Worker` the job itself, backend/workers/forecast_worker.py,
-- which publishes on `Infra.EventBus`; RQ is a record of operations (`Rq`) with laws (`IsRq`).
-- `RateLimit` models backend/infra/rate_limit.py over a Redis that is a record of operations with
-- laws, and `Auth.Routes` backend/api/auth/magic_link.py and
-- backend/api/auth/session_middleware.py, which compose the limiter and the service. The engine.
-- `Tariff` models the bands of backend/domain/tariff.py and the rate cache of
-- backend/engine/steps/tariff.py, `Tariff.Schedule`, `Tariff.Tiers` and `Tariff.Billing` the
-- schedule, the walk over its tiers and the bills of a year, over `Calendar`, the hours of
-- backend/domain/tmy.py. `Export` models backend/engine/steps/export_credit.py with `Export.Nem`
-- for net metering and the dispatch of the regimes of backend/engine/inputs.py, and
-- `Export.Settlement` backend/engine/integration/nbt.py and backend/engine/integration/seg.py,
-- which net the credits against the bill. `Battery` models
-- backend/engine/steps/battery_dispatch.py and `Degradation` backend/engine/steps/degradation.py.
-- `Finance.Amortization`, `Finance.Solver` and `Finance.Cashflow` model
-- backend/engine/finance/amortization.py, backend/engine/finance/_solver.py and
-- backend/engine/finance/cashflow.py, and `Finance.Run` backend/engine/steps/finance.py, which
-- composes them with the bills and the credits. `Engine` models backend/engine/pipeline.py and
-- backend/engine/registry.py: the steps in their order over the artifacts, each step's function a
-- parameter. The numbers of the engine are a parameter: `Number` is a record of the operations on
-- `float` that the code calls, a theorem asks for the order of doubles away from NaN (`IsOrdered`)
-- or for the laws of an ordered ring (`IsExact`), rounding is not modelled, and `Number.Whole` is
-- a type with all the laws. The calendar of `datetime` is a record of functions with bounds
-- (`IsDatetime`); `Calendar.Year` is such a year. Pydantic's bounds of a field are a hypothesis of
-- the theorem that needs them, and a step of the model for the rows of a loan, which alone may
-- fail them on inputs that pass validation.
--
-- How state is modelled. A function of the source with effects becomes a function from the state
-- to its result and the next state. A table is the list of its rows. PostgreSQL behind SQLAlchemy
-- is no code of the repository: `Sql` is a record of the operations that the services use, `IsSql`
-- its documented behaviour, and each theorem over tables holds for every database with these laws.
-- `Sql.Sample` is such a database. A block that commits at its end is `transact`: a raise leaves
-- the tables as they were. What other connections do inside an operation is written as explicit
-- steps where a property depends on it (`Auth.Race`, and the argument `others` of
-- `claim_idempotency_slot`). Hashes, random tokens, parsers of the standard library, the clock and
-- the ids that the database draws are parameters or arguments.
--
-- Bounds. Times are whole numbers, seconds or ticks of the monotonic clock. The retry loop
-- recurses on the attempts that are left, a number that the configuration gives, so there is no
-- fuel; bisection recurses on its bound of turns. User ids are UUIDs as numbers.
--
-- Not modelled: logging, the providers' HTTP calls, the rounding of floating-point numbers, the
-- physical and stochastic steps of the engine over numpy and pvlib, the sale of a system, the
-- extraction by a vendor's model, migrations, and the frontend.
mod Prelude
pub mod Sql
pub mod Forecast
pub mod Infra
pub mod Audits
pub mod Auth
pub mod Battery
pub mod Calendar
pub mod Export
pub mod Degradation
pub mod Engine
pub mod Entitlements
pub mod Finance
pub mod Number
pub mod RateLimit
pub mod Stripe
pub mod Tariff
