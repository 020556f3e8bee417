-- ===== src/Net/TcpClient/Running.antt =====
-- The turns of a client that tries one address after the other: none brings it to rest.
