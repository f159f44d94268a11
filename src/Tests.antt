-- ===== src/Tests.antt =====
-- Runs of the theorems on concrete inputs.
mod CoreTests
mod EventTests
mod HttpTests
mod HubTests
mod ClientTests
mod CommandTests
mod ClaimTests
mod JsonTests
