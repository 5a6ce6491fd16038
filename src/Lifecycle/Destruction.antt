-- ===== src/Lifecycle/Destruction.antt =====
-- What the destructor leaves behind.
