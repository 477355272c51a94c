-- ===== src/Ui.antt =====
-- ui/: the JSON API over the tables: pages, the review queue and its decisions, the lists of
-- regulations and jobs. A request's query parameters are arguments; the response is a value.
pub mod Pagination
pub mod Pages
pub mod Tables
pub mod ReviewHelpers
pub mod Queue
pub mod Decisions
pub mod Corrections
pub mod Jobs
pub mod Turned
pub mod Listed
pub mod Regulations
pub mod Grouped
pub mod HsReview
pub mod HsListed
pub mod QueuePages
pub mod Decided
pub mod BulkApproved
pub mod Reasons
pub mod Unmirrored
mod Examples
mod BrowsingExamples
