-- ===== src/Node.antt =====
-- pkg/node: a provider node.
pub mod Payment
