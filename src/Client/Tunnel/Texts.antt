-- ===== src/Client/Tunnel/Texts.antt =====
-- The endpoint of a configuration, which client_wg.c takes apart.
