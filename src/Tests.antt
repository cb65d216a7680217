-- ===== src/Tests.antt =====
-- Concrete runs of the models, each of which applies a theorem to them.
mod Conn
mod Queue
mod Hpack
mod Http2
mod Traffic
mod Ws
mod Util
mod Fcgi
mod Manager
mod Registry
mod Response
mod Adaptive
mod Route
