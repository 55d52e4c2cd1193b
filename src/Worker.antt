-- ===== src/Worker.antt =====
-- internal/worker: the workers' configuration, and the work that is done for one service.
pub mod Config
pub mod CreddStore
pub mod GetToken
pub mod StoreAndGet
pub mod PushToNode
pub mod PushTokens
