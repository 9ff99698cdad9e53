-- ===== src/HttpHandler.antt =====
-- src/HTTPHandler.cpp: how a request is answered.
pub mod Path
pub mod Cgi
pub mod Files
pub mod Get
pub mod Post
pub mod Request
