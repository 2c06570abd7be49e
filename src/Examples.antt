-- ===== src/Examples.antt =====
-- The theorems at concrete inputs, and the codecs and the host that those inputs use.
mod Codecs
mod Data
mod Texts
mod Commands
mod Hosts
mod Network
mod Edge
mod Signatures
mod Grants
mod Books
mod Windows
mod Streams
mod Servers
mod Service
