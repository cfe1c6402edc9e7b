-- ===== src/Connection.antt =====
-- port_agent/connection: the containers of the observatory's and the instrument's sockets.
pub mod Observatory
pub mod Instrument
pub mod Rsn
