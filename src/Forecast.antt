-- ===== src/Forecast.antt =====
-- The life of a forecast job: backend/workers/queue.py, backend/services/forecast_service.py,
-- backend/api/forecast.py and the end of backend/workers/forecast_worker.py.
pub mod Queue
pub mod Api
pub mod Worker
pub mod Submit
pub mod Poll
mod Tests
