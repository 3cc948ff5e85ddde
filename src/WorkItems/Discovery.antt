-- ===== src/WorkItems/Discovery.antt =====
-- Product discovery: the review requests of a work item, who may answer them, and the service that
-- moves the work item.
pub mod Requests
pub mod Authorization
pub mod Calls
pub mod Service
pub mod Rounds
pub mod Deliveries
pub mod Delivered
pub mod Confirmed
pub mod Override
pub mod Answers
