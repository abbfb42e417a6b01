-- ===== src/Server/Middleware/Origins.antt =====
-- Which origin the answers name.
