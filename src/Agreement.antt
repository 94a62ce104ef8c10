-- ===== src/Agreement.antt =====
-- Where one program of the repository reads a file that another one wrote or reads too.
pub mod Events
pub mod Lists
pub mod Filters
pub mod Reports
pub mod Laws
pub mod Toggles
pub mod Values
pub mod Attributes
pub mod Spans
pub mod Detection
