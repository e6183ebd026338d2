-- ===== src/Interceptor.antt =====
-- interceptor.go, stream.go, handler.go, request.go, response.go and meta.go: the middleware model.
pub mod Message
pub mod Conns
pub mod Chain
pub mod Invoke
pub mod Transparency
pub mod Guards
