-- ===== src/Runtime.antt =====
-- The run's life cycle: gear_optimizer/app_stop_control.py and
-- gear_optimizer/core/recycling_process_pool.py.
pub mod Stop
pub mod Pool
mod Tests
