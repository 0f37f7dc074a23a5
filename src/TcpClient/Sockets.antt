-- ===== src/TcpClient/Sockets.antt =====
-- The sockets that lwip-intro/sockets/tcp_client.c opens, closes and holds.
