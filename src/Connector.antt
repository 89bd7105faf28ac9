-- ===== src/Connector.antt =====
-- libsql/sql.go: connectors and the driver. Options holds what a caller sets, Parts and Build make a
-- connector of a URL and a configuration, Open is `Driver.Open`.
pub mod Options
pub mod InForce
pub mod Parts
pub mod Build
pub mod Open
pub mod Agreement
pub mod Precedence
mod Tests
