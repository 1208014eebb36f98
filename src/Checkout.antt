-- ===== src/Checkout.antt =====
-- legacy/server: payments as merchants create them and customers complete them on the checkout
-- page. Storage is the tables of src/db.ts, and the timers of `setTimeout`.
pub mod Store
pub mod Payments
pub mod Pages
pub mod Journal
pub mod Timeline
pub mod Serialize
pub mod Attempts
pub mod Creation
pub mod Listing
pub mod Cursor
mod Tests
