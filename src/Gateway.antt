-- ===== src/Gateway.antt =====
-- The decisions of src/gateway.ts that need no connection: the models that a user may see, where a
-- login leads to, and what of the cookies and the query is read and goes on.
pub mod Cookies
pub mod Models
pub mod Redirect
