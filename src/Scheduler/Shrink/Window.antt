-- ===== src/Scheduler/Shrink/Window.antt =====
-- The window of a finance after it was shrunk.
