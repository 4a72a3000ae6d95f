-- ===== src/Proxy.antt =====
-- The proxy, src/proxy/: the packument cache, the shapes of a packument and the manifests of versions.
pub mod Size
pub mod Cache
pub mod Shape
pub mod Serve
pub mod Errors
pub mod Foreign
pub mod Requests
pub mod Route
pub mod Handle
