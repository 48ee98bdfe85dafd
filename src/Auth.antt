-- ===== src/Auth.antt =====
-- addons/auth/fastapi-next/backend/app: accounts, one-time codes and sessions.
pub mod Model
pub mod Store
pub mod Flows
mod Tests
pub mod Accounts
pub mod Codes
pub mod Tokens
pub mod Within
pub mod Requests
pub mod Sessions
pub mod Outcomes
pub mod Login
pub mod Budget
