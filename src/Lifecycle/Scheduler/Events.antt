-- ===== src/Lifecycle/Scheduler/Events.antt =====
-- What every booking event keeps (handleBookingEvent), by way of the three writes that it makes.
use nistula_assistance.Lifecycle.Plan.{Plan}
