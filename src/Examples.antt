-- ===== src/Examples.antt =====
-- The theorems at concrete inputs, over a backend of concrete functions.
mod Fixtures
mod Packets
mod Commands
mod Requests
mod Descriptions
mod Events
mod Models
mod Datagrams
mod Colors
mod Schemas
mod Simulated
mod Releases
mod Subscriptions
mod Mappings
mod Statuses
mod Signals
mod Cooking
