-- ===== src/Service.antt =====
-- gear_optimizer/robeatsmeta_service.py and service_update.py: the solves that the service admits, the
-- requests that it accepts, the answers of its worker and the update of its checkout.
--
-- Children hold the parts: the slots of solves (Slots), the items of a request (Items), the request
-- (Requests), the joining of solves and the worker (Solves), the HTTP answers (Http) and the updater (Update).
-- Text functions of Python, the free memory, files, the worker process and git are arguments.
pub mod Slots
pub mod Items
pub mod Requests
pub mod Solves
pub mod Http
pub mod Catalog
pub mod Update
mod Tests
