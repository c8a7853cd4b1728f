-- ===== src/AddressIndex.antt =====
-- src/prism_harness/address_index.py: `StoreAddressIndex`, whose appends are journaled in a head
-- record. `Head` is what is stored, `Append` what writes it, `Reading` what pages through it.
pub mod Head
pub mod Append
pub mod Reading
mod Keys
mod Rereading
pub mod Recovery
pub mod Paging
pub mod Journaling
mod Tests
