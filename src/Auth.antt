-- ===== src/Auth.antt =====
-- was/app/security.py, was/app/routers/auth.py: accounts, their passwords, lockout and addresses, and
-- the login. Text is a list of code points, and a time is whole microseconds.
pub mod Text
pub mod Passwords
pub mod Accounts
pub mod Login
pub mod Keys
pub mod Addresses
pub mod Users
pub mod Tests
